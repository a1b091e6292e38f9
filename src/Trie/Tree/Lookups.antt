-- ===== src/Trie/Tree/Lookups.antt =====
-- What is read behind a key, at a fork and in a value.
use thelonious.Base.{
  ℕ, ◌==◌, ==_iff, ◌≡◌, ◌≢◌, inl, inr, refl, sym, ap, ◌∙◌, arith, List, [], ◌∷◌, ◌++◌, append-nil,
  true, false, Bool-cases, Option, none, some, get_or, drop,
}
use mathlib.Core.Path.{subst}
use thelonious.Trie.Tree.{Tree, leaf, ext, strip, lookup, behind, insert}
use thelonious.Trie.Tree.Keys.{
  IsNibbles, IsKey, strip-append, strip_cases, strip-IsKey, chosen, chosen_eq, chosen_ne,
  chosen_cases,
}
use thelonious.Trie.Tree.Insertion.{parting}

-- Lookup through a key in front, which a query has as a prefix or has not.
pub found_in : Tree → Option (List ℕ) → List ℕ
found_in t none = []
found_in t (some q) = lookup t q

lookup-behind :
    (k : List ℕ) (t : Tree) (q : List ℕ) → lookup (behind k t) q ≡ found_in t (strip k q)
unfolding lookup strip found_in
lookup-behind [] t q = refl
lookup-behind (x ∷ k) t q = ground arith

pub lookup-behind_append :
    (k : List ℕ) (t : Tree) (q : List ℕ) → lookup (behind k t) (k ++ q) ≡ lookup t q
unfolding found_in strip
lookup-behind_append k t q =
    let e : strip k (k ++ q) ≡ some q = rw (append-nil k) at (strip-append k [] q) in
    lookup-behind k t (k ++ q) ∙ rw e refl

lookup-behind-none :
    (k : List ℕ) (t : Tree) (q : List ℕ) → strip k q ≡ none → lookup (behind k t) q ≡ []
unfolding found_in
lookup-behind-none k t q e = lookup-behind k t q ∙ rw e refl

-- A value behind the rest of a key.
lookup_value :
    (k q v : List ℕ) (b : ℕ)
    → IsKey (b ∷ k)
    → IsKey (b ∷ q)
    → lookup (behind k (leaf v)) q ≡ chosen k q v []
unfolding strip found_in lookup
lookup_value k q v b h e =
    let same : (b == b) ≡ true = (==_iff b b).1 refl in
    elim (strip-IsKey (b ∷ k) (b ∷ q) h e) [
      | inl (s, t) ↦
          let u : strip k q ≡ some [] = rw same at t in
          let s' : k ≡ q = ap (drop 1) s in
          lookup-behind k (leaf v) q ∙ rw u (sym (chosen_eq k q v [] s'))
      | inr (s, t) ↦
          let u : strip k q ≡ none = rw same at t in
          lookup-behind k (leaf v) q ∙ rw u (sym (chosen_ne k q v [] (λ f. s (ap (λ l. b ∷ l) f))))
    ]

pub IsKey-ne : (k : List ℕ) → IsKey k → k ≢ []
IsKey-ne [] h = absurd h
IsKey-ne (x ∷ k) h = λ f. cc

ext-behind : (k : List ℕ) (t : Tree) → k ≢ [] → ext k t ≡ behind k t
ext-behind [] t h = absurd (h refl)
ext-behind (x ∷ k) t h = refl

pub lookup-ext :
    (k : List ℕ) (t : Tree) (q : List ℕ) → k ≢ [] → lookup (ext k t) q ≡ lookup (behind k t) q
lookup-ext k t q h = ap (λ t. lookup t q) (ext-behind k t h)

-- Lookup after insertion, for keys that end at the terminator.
abbrev pub LookupInsert : Tree → Type 0
LookupInsert t =
    (key v q : List ℕ)
    → IsKey key
    → IsKey q
    → lookup (insert t key v) q ≡ chosen key q v (lookup t q)

pub chosen_append : (p k q v w : List ℕ) → chosen (p ++ k) (p ++ q) v w ≡ chosen k q v w
chosen_append p k q v w = elim (chosen_cases k q) [
  | inl e ↦ chosen_eq (p ++ k) (p ++ q) v w (ap (λ l. p ++ l) e) ∙ sym (chosen_eq k q v w e)
  | inr n ↦ chosen_ne (p ++ k) (p ++ q) v w (λ f. n (rest p f)) ∙ sym (chosen_ne k q v w n)
]
  where
    rest : (p : List ℕ) → p ++ k ≡ p ++ q → k ≡ q
    rest [] f = f
    rest (x ∷ p) f = rest p (ap (drop 1) f)

append_eq-nil : (p k : List ℕ) → p ≡ p ++ k → k ≡ []
append_eq-nil [] k e = sym e
append_eq-nil (x ∷ p) k e = append_eq-nil p k (ap (drop 1) e)

pub IsKey-rest : (p q : List ℕ) → IsNibbles p → IsKey (p ++ q) → IsKey q
IsKey-rest [] q h e = e
IsKey-rest (x ∷ p) q h (inl e) = absurd (omega (arith, h.0, e.0))
IsKey-rest (x ∷ p) q h (inr e) = IsKey-rest p q h.1 e.1

pub lookup-leaf_nil : (q : List ℕ) → lookup (leaf []) q ≡ []
unfolding lookup
lookup-leaf_nil [] = refl
lookup-leaf_nil (x ∷ q) = refl

pub lookup-behind_common :
    (p k q : List ℕ) (t : Tree) → lookup (behind (p ++ k) t) (p ++ q) ≡ found_in t (strip k q)
lookup-behind_common p k q t =
    lookup-behind (p ++ k) t (p ++ q) ∙ ap (found_in t) (strip-append p k q)

-- Below the common prefix, the new key is found, and so is what the old one led to.
pub lookup-parting :
    (k' rest v q : List ℕ) (t : Tree) (a b : ℕ)
    → a ≢ b
    → IsKey (b ∷ rest)
    → IsKey q
    → lookup (parting a k' t b rest v) q ≡ chosen (b ∷ rest) q v (found_in t (strip (a ∷ k') q))
unfolding lookup strip found_in
lookup-parting k' rest v [] t a b n hk hq = absurd hq
lookup-parting k' rest v (y ∷ q) t a b n hk hq = elim (Bool-cases (y == b)) [
  | inl e ↦
      let same : y ≡ b = (==_iff y b).0 e in
      let off : (a == y) ≡ false = ground arith in
      let hq' : IsKey (b ∷ q) = subst (λ z. IsKey (z ∷ q)) same hq in
      let joined : chosen rest q v [] ≡ chosen (b ∷ rest) (y ∷ q) v [] =
        sym (chosen_append (b ∷ []) rest q v [])
        ∙ ap (λ z. chosen (b ∷ rest) (z ∷ q) v []) (sym same) in
      rw (e, lookup) (rw off (lookup_value rest q v b hk hq' ∙ joined))
  | inr e ↦
      let apart : b ∷ rest ≢ y ∷ q = λ f.
        let g : true ≡ false = sym ((==_iff y b).1 (ap (λ l. get_or l 0 0) (sym f))) ∙ e in cc in
      elim (Bool-cases (y == a)) [
        | inl s ↦
            let on : (a == y) ≡ true = ground arith in
            rw (e, lookup)
              (rw s (rw on (lookup-behind k' t q ∙ sym (chosen_ne (b ∷ rest) (y ∷ q) v _ apart))))
        | inr s ↦
            let off : (a == y) ≡ false = ground arith in
            rw (e, lookup)
              (rw s (rw off (lookup-leaf_nil q ∙ sym (chosen_ne (b ∷ rest) (y ∷ q) v [] apart))))
      ]
]

append-ne : (p k q : List ℕ) → strip p q ≡ none → p ++ k ≢ q
unfolding strip
append-ne p k q e f =
    let g : strip (p ++ []) (p ++ k) ≡ some k = strip-append p [] k in
    let g' : strip p q ≡ some k = subst (λ l. strip p l ≡ some k) f (rw (append-nil p) at g) in cc

-- A tree behind a nibble prefix, whose insertion is known below the prefix.
pub lookup-chosen_below :
    (p rest v q : List ℕ) (t old : Tree)
    → ((r : List ℕ) → q ≡ p ++ r → lookup t r ≡ chosen rest r v (lookup old (p ++ r)))
    → (((s : List ℕ) → strip (p ++ s) q ≡ none) → lookup old q ≡ [])
    → lookup (behind p t) q ≡ chosen (p ++ rest) q v (lookup old q)
lookup-chosen_below p rest v q t old below miss = elim (strip_cases p q) [
  | inl (r, e) ↦
      subst (λ q. lookup (behind p t) q ≡ chosen (p ++ rest) q v (lookup old q)) (sym e)
        (lookup-behind_append p t r
          ∙ below r e
          ∙ sym (chosen_append p rest r v (lookup old (p ++ r))))
  | inr none_of ↦
      let gone : strip p q ≡ none = rw (append-nil p) at (none_of []) in
      lookup-behind-none p t q gone
      ∙ sym (miss none_of)
      ∙ sym (chosen_ne (p ++ rest) q v (lookup old q) (append-ne p rest q gone))
]

pub lookup_new :
    (key v q : List ℕ) → IsKey key → IsKey q → lookup (ext key (leaf v)) q ≡ chosen key q v []
unfolding found_in lookup
lookup_new key v q hk hq =
    lookup-ext key (leaf v) q (IsKey-ne key hk)
    ∙ lookup-behind key (leaf v) q
    ∙ elim (strip-IsKey key q hk hq) [
      | inl (s, t) ↦ rw t (sym (chosen_eq key q v [] s))
      | inr (s, t) ↦ rw t (sym (chosen_ne key q v [] s))
    ]

pub lookup-ext_none :
    (k : List ℕ) (t : Tree) (q : List ℕ) → k ≢ [] → strip k q ≡ none → lookup (ext k t) q ≡ []
lookup-ext_none k t q h e = lookup-ext k t q h ∙ lookup-behind-none k t q e
