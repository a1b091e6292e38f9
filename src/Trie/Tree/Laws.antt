-- ===== src/Trie/Tree/Laws.antt =====
-- Lookup after insertion in the tree that a trie stands for.
use thelonious.Base.{
  ℕ, ◌==◌, ==_iff, ◌<◌, ◌≡◌, ◌≢◌, inl, inr, refl, sym, ap, ◌∙◌, arith, List, [], ◌∷◌, ◌++◌,
  append-nil, true, false, Bool-cases, get_or,
}
use mathlib.Core.Path.{subst}
use thelonious.Trie.Tree.{Tree, leaf, ext, branch, lookup, behind, fork, insert}
use thelonious.Trie.Tree.Keys.{
  IsNibbles, IsKey, IsNibbles-not_IsKey, IsKey-append, IsNibbles-append, strip-IsKey, chosen,
  chosen_eq, chosen_ne, chosen_cases,
}
use thelonious.Trie.Tree.Insertion.{
  IsLeaf, IsTree, parting, Inserted, replaced, deeper, forked, inside, insert_ext,
}
use thelonious.Trie.Tree.Lookups.{
  IsKey-ne, IsKey-rest, LookupInsert, chosen_append, lookup-behind_append, lookup-behind_common,
  lookup-chosen_below, lookup-ext, lookup-ext_none, lookup-leaf_nil, lookup-parting, lookup_new,
}

pub IsTree-ext_ne : (k : List ℕ) (t : Tree) → IsTree (ext k t) → k ≢ []
IsTree-ext_ne k t (inl w) = IsKey-ne k w.0
IsTree-ext_ne k t (inr w) = w.1

-- A key that a new key goes beyond has nibbles only, and a tree behind it.
pub deeper-IsTree :
    (k : List ℕ) (t : Tree) (rest : List ℕ)
    → IsTree (ext k t)
    → k ≢ k ++ rest
    → IsKey (k ++ rest)
    → IsNibbles k × IsTree t × IsKey rest
deeper-IsTree k t [] w d h = absurd (d (sym (append-nil k)))
deeper-IsTree k t (y ∷ rest) (inl w) d h =
    absurd (IsNibbles-not_IsKey k (IsKey-append k (y ∷ rest) (λ f. cc) h).0 w.0)
deeper-IsTree k t (y ∷ rest) (inr w) d h = (w.0, w.2, (IsKey-append k (y ∷ rest) (λ f. cc) h).1)

-- A new key does not end inside an old one.
pub inside-IsTree :
    (key k' : List ℕ) (t : Tree) → IsTree (ext (key ++ k') t) → k' ≢ [] → IsKey key → ⊥
inside-IsTree key k' t (inl w) n h = IsNibbles-not_IsKey key (IsKey-append key k' n w.0).0 h
inside-IsTree key k' t (inr w) n h = IsNibbles-not_IsKey key (IsNibbles-append key k' w.0).0 h

-- Lookup after insertion, by the way the insertion went.
lookup-insert_ext :
    (k : List ℕ) (t : Tree) (key v q : List ℕ) (r : Tree)
    → IsTree (ext k t)
    → (IsTree t → LookupInsert t)
    → IsKey key
    → IsKey q
    → Inserted k t key v r
    → lookup r q ≡ chosen key q v (lookup (ext k t) q)
lookup-insert_ext k t key v q r w ih hk hq (replaced e er) = rw er (
    lookup_new key v q hk hq ∙ elim (chosen_cases key q) [
      | inl s ↦ chosen_eq key q v [] s ∙ sym (chosen_eq key q v (lookup (ext k t) q) s)
      | inr s ↦ elim (strip-IsKey key q hk hq) [
        | inl (s', _) ↦ absurd (s s')
        | inr (_, u) ↦
            ap (chosen key q v) (sym (lookup-ext_none k t q (IsTree-ext_ne k t w) (rw e u)))
      ]
    ])
lookup-insert_ext k t key v q r w ih hk hq (deeper rest d ek er) =
    let (h, wt, hr) = deeper-IsTree k t rest w (subst (λ y. k ≢ y) ek d) (subst IsKey ek hk) in
    let ne = IsTree-ext_ne k t w in
    rw er (
      rw ek (
        lookup-chosen_below k rest v q (insert t rest v) (ext k t)
          (λ r' e.
            ih wt rest v r' hr (IsKey-rest k r' h (subst IsKey e hq))
            ∙ ap (chosen rest r' v)
                (sym (lookup-ext k t (k ++ r') ne ∙ lookup-behind_append k t r')))
          (λ miss. lookup-ext_none k t q ne (rw (append-nil k) at (miss [])))))
lookup-insert_ext k t key v q r w ih hk hq (forked p k' rest a b n e ek er) =
    let (h, hb) = IsKey-append p (b ∷ rest) (λ f. cc) (subst IsKey ek hk) in
    let ne = IsTree-ext_ne k t w in
    rw er (
      rw ek (
        lookup-chosen_below p (b ∷ rest) v q (parting a k' t b rest v) (ext k t)
          (λ r' f.
            lookup-parting k' rest v r' t a b n hb (IsKey-rest p r' h (subst IsKey f hq))
            ∙ ap (chosen (b ∷ rest) r' v) (
                sym (
                  lookup-ext k t (p ++ r') ne
                  ∙ ap (λ l. lookup (behind l t) (p ++ r')) e
                  ∙ lookup-behind_common p (a ∷ k') r' t)))
          (λ miss. lookup-ext_none k t q ne (rw e (miss (a ∷ k'))))))
lookup-insert_ext k t key v q r w ih hk hq (inside k' n e) =
    absurd (inside-IsTree key k' t (subst (λ l. IsTree (ext l t)) e w) n hk)

pub insert-nil : (t : Tree) (v : List ℕ) → insert t [] v ≡ leaf v
unfolding insert
insert-nil (leaf u) v = refl
insert-nil (ext k t) v = refl
insert-nil (branch f) v = refl

lookup-insert_branch :
    (f : ℕ → Tree)
    → IsLeaf (f 16)
    → (x : ℕ) (key v : List ℕ) (y : ℕ) (q : List ℕ) → IsKey (x ∷ key)
    → IsKey (y ∷ q)
    → (x < 16
        → IsKey key
        → IsKey q
        → lookup (insert (f x) key v) q ≡ chosen key q v (lookup (f x) q))
    → lookup (branch (fork x (insert (f x) key v) f)) (y ∷ q)
      ≡ chosen (x ∷ key) (y ∷ q) v (lookup (branch f) (y ∷ q))
unfolding lookup
lookup-insert_branch f leafy x key v y q hk hq ih = elim (Bool-cases (y == x)) [
  | inr n ↦
      let apart : x ∷ key ≢ y ∷ q = λ g.
        let g' : true ≡ false = sym ((==_iff y x).1 (ap (λ l. get_or l 0 0) (sym g))) ∙ n in cc in
      rw (n, lookup) (sym (chosen_ne (x ∷ key) (y ∷ q) v (lookup (f y) q) apart))
  | inl e ↦ rw (e, lookup) (same ((==_iff y x).0 e) hk hq)
]
  where
    same :
        y ≡ x
        → IsKey (x ∷ key)
        → IsKey (y ∷ q)
        → lookup (insert (f x) key v) q ≡ chosen (x ∷ key) (y ∷ q) v (lookup (f y) q)
    same e (inl (x16, none_left)) (inl (y16, none_left')) =
        rw (none_left, none_left')
          (ap (λ t. lookup t []) (insert-nil (f x) v)
            ∙ sym (chosen_eq (x ∷ []) (y ∷ []) v (lookup (f y) []) (ap (λ z. z ∷ []) (sym e))))
    same e (inl (x16, none_left)) (inr (y16, h')) = absurd (omega (arith, x16, y16, e))
    same e (inr (x16, h)) (inl (y16, h')) = absurd (omega (arith, x16, y16, e))
    same e (inr (x16, h)) (inr (y16, h')) =
        ih x16 h h'
        ∙ sym (chosen_append (x ∷ []) key q v (lookup (f x) q))
        ∙ ap (λ z. chosen (x ∷ key) (z ∷ q) v (lookup (f z) q)) (sym e)

pub lookup-insert : (t : Tree) → IsTree t → LookupInsert t
unfolding insert
lookup-insert t w [] v q hk hq = absurd hk
lookup-insert (leaf u) w (x ∷ key) v q hk hq =
    lookup_new (x ∷ key) v q hk hq
    ∙ ap (chosen (x ∷ key) q v) (sym (ap (λ u. lookup (leaf u) q) w ∙ lookup-leaf_nil q))
lookup-insert (ext k t) w (x ∷ key) v q hk hq =
    lookup-insert_ext k t (x ∷ key) v q _ w (lookup-insert t) hk hq
      (insert_ext k t (x ∷ key) v (λ f. cc))
lookup-insert (branch f) w (x ∷ key) v [] hk hq = absurd hq
lookup-insert (branch f) w (x ∷ key) v (y ∷ q) hk hq =
    lookup-insert_branch f w.1 x key v y q hk hq
      (λ h h' h''. lookup-insert (f x) (w.0 x h) key v q h' h'')
