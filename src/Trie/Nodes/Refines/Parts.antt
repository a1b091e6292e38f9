-- ===== src/Trie/Nodes/Refines/Parts.antt =====
-- Keys that part, and the pieces of a key that stand in a node.
use thelonious.Base.{
  ℕ, suc, ◌==◌, ==_iff, ◌≡◌, ◌≢◌, ◌⊎◌, inl, inr, refl, sym, ap, ◌∙◌, List, [], ◌∷◌, ◌++◌, length,
  true, Bool-cases, ok, index, get_or, drop, drop-append_length,
}
use thelonious.Trie.Slices.{matching_nibble_length}
use thelonious.Trie.Tree.{Tree, ext, behind}
use thelonious.Trie.Tree.Keys.{IsKey-append, IsNibbles-append, IsKey, IsNibbles}
use thelonious.Trie.Tree.Insertion.{IsTree}

pub index-append_length : (p k : List ℕ) (a : ℕ) → index (p ++ (a ∷ k)) (length p) ≡ ok a
index-append_length [] k a = refl
index-append_length (x ∷ p) k a = index-append_length p k a

pub behind_key : (k : List ℕ) (t : Tree) → k ≢ [] → behind k t ≡ ext k t
behind_key [] t n = absurd (n refl)
behind_key (x ∷ k) t n = refl

-- Where a key parts.
pub matching_prefix : (k r : List ℕ) → matching_nibble_length (k ++ r) k ≡ length k
unfolding matching_nibble_length
matching_prefix [] [] = refl
matching_prefix [] (x ∷ r) = refl
matching_prefix (x ∷ k) r =
    let e : (x == x) ≡ true = (==_iff x x).1 refl in rw e (ap suc (matching_prefix k r))

pub matching_parted :
    (p y k : List ℕ) (a b : ℕ)
    → a ≢ b
    → matching_nibble_length (p ++ (b ∷ y)) (p ++ (a ∷ k)) ≡ length p
unfolding matching_nibble_length
matching_parted [] y k a b n = elim (Bool-cases (b == a)) [
  | inl e ↦ absurd (n (sym ((==_iff b a).0 e)))
  | inr e ↦ rw e refl
]
matching_parted (x ∷ p) y k a b n =
    let e : (x == x) ≡ true = (==_iff x x).1 refl in rw e (ap suc (matching_parted p y k a b n))

pub heads_differ : (p y k : List ℕ) (a b : ℕ) → a ≢ b → p ++ (a ∷ k) ≢ p ++ (b ∷ y)
heads_differ p y k a b n e = n (
    ap (λ l. get_or l 0 0)
      (sym (drop-append_length p (a ∷ k)) ∙ ap (drop (length p)) e ∙ drop-append_length p (b ∷ y)))

-- Keys that stand in a slice of 2.
abbrev pub IsPart : List ℕ → Type 0
IsPart k = IsKey k ⊎ (IsNibbles k × (k ≢ []))

pub IsPart-behind_key :
    (p rest : List ℕ) (b : ℕ) → IsKey (p ++ (b ∷ rest)) → rest ≢ [] → IsPart rest
IsPart-behind_key p rest b h n = elim ((IsKey-append p (b ∷ rest) (λ f. cc) h).1) [
  | inl e ↦ absurd (n e.1)
  | inr e ↦ inl e.1
]

pub IsPart-behind :
    (p k : List ℕ) (a : ℕ) (t : Tree) → IsTree (ext (p ++ (a ∷ k)) t) → k ≢ [] → IsPart k
IsPart-behind p k a t (inl h) n = IsPart-behind_key p k a h.0 n
IsPart-behind p k a t (inr h) n = inr ((IsNibbles-append p (a ∷ k) h.0).1.1, n)

pub IsPart-front : (p y : List ℕ) → IsKey (p ++ y) → y ≢ [] → p ≢ [] → IsPart p
IsPart-front p y h n m = inr ((IsKey-append p y n h).0, m)
