-- ===== src/Trie/Tree/Insertion.antt =====
-- The form of the tree that a trie stands for, and the ways an insertion at an extension goes.
use thelonious.Base.{
  ℕ, suc, ◌+◌, ◌==◌, ==_iff, ◌<◌, ◌≡◌, ◌≢◌, ◌⊎◌, inl, inr, refl, sym, ap, ◌∙◌, arith, List, [], ◌∷◌,
  ◌++◌, append-nil, length, length-append, if◌then◌else◌, true, false, Bool-cases, get_or, take,
  drop, take-append_length, drop-append_length,
}
use thelonious.Trie.Slices.{compare_int_slice, compare_int_slice_iff, matching_nibble_length}
use thelonious.Trie.Tree.{Tree, leaf, ext, branch, behind, fork, nothing, insert}
use thelonious.Trie.Tree.Keys.{IsNibbles, IsKey, Parted, matching_split, chosen_cases}

abbrev pub IsLeaf : Tree → Type 0
IsLeaf (leaf v) = Unit
IsLeaf (ext k t) = ⊥
IsLeaf (branch f) = ⊥

-- A value stands behind the nibble 16 and nowhere else; an extension has a key.
abbrev pub IsTree : Tree → Type 0
IsTree (leaf v) = v ≡ []
IsTree (ext k t) = (IsKey k × IsLeaf t) ⊎ (IsNibbles k × (k ≢ []) × IsTree t)
IsTree (branch f) = ((i : ℕ) → i < 16 → IsTree (f i)) × IsLeaf (f 16)

-- What stands where two keys part at different nibbles.
abbrev pub parting : ℕ → List ℕ → Tree → ℕ → List ℕ → List ℕ → Tree
parting a k t b key v = branch (fork b (behind key (leaf v)) (fork a (behind k t) nothing))

-- Insertion at an extension: its key is the new key, stands before the rest of it, parts from it, or
-- has it as a proper prefix.
pub data Inserted (k : List ℕ) (t : Tree) (y v : List ℕ) (r : Tree) : Type 0 where
  replaced : k ≡ y → r ≡ ext y (leaf v) → Inserted k t y v r
  deeper :
      (rest : List ℕ) → k ≢ y → y ≡ k ++ rest → r ≡ behind k (insert t rest v) → Inserted k t y v r
  forked :
      (p k' rest : List ℕ) (a b : ℕ)
      → a ≢ b
      → k ≡ p ++ (a ∷ k')
      → y ≡ p ++ (b ∷ rest)
      → r ≡ behind p (parting a k' t b rest v)
      → Inserted k t y v r
  inside : (k' : List ℕ) → k' ≢ [] → k ≡ y ++ k' → Inserted k t y v r

get_or-append_length : (p k : List ℕ) (a : ℕ) → get_or (p ++ (a ∷ k)) (length p) 0 ≡ a
get_or-append_length [] k a = refl
get_or-append_length (x ∷ p) k a = get_or-append_length p k a

pub drop_one_past : (p k : List ℕ) (a : ℕ) → drop (length p + 1) (p ++ (a ∷ k)) ≡ k
drop_one_past p k a = let e : length p + 1 ≡ suc (length p) = omega arith in rw e (past p)
  where
    past : (q : List ℕ) → drop (suc (length q)) (q ++ (a ∷ k)) ≡ k
    past [] = refl
    past (x ∷ q) = past q

-- The insertion where the matching length is known.
insert_at :
    (k y : List ℕ) (t : Tree) (v : List ℕ) (n : ℕ)
    → y ≢ []
    → k ≢ y
    → matching_nibble_length y k ≡ n
    → insert (ext k t) y v
      ≡ behind (take n y) (
          if n == length k
          then insert t (drop n y) v
          else parting (get_or k n 0) (drop (n + 1) k) t (get_or y n 0) (drop (n + 1) y) v)
unfolding insert
insert_at k [] t v n e d m = absurd (e refl)
insert_at k (x ∷ xs) t v n e d m = elim (Bool-cases (compare_int_slice k (x ∷ xs))) [
  | inl q ↦ absurd (d ((compare_int_slice_iff k (x ∷ xs)).0 q))
  | inr q ↦ rw q (rw m refl)
]

insert_same :
    (k y : List ℕ) (t : Tree) (v : List ℕ) → y ≢ [] → k ≡ y → insert (ext k t) y v ≡ ext y (leaf v)
unfolding insert
insert_same k [] t v h e = absurd (h refl)
insert_same k (x ∷ xs) t v h e = rw ((compare_int_slice_iff k (x ∷ xs)).1 e) refl

pub insert_ext :
    (k : List ℕ) (t : Tree) (y v : List ℕ) → y ≢ [] → Inserted k t y v (insert (ext k t) y v)
insert_ext k t [] v h = absurd (h refl)
insert_ext k t (x ∷ xs) v h = elim (chosen_cases k (x ∷ xs)) [
  | inl e ↦ replaced e (insert_same k (x ∷ xs) t v h e)
  | inr d ↦
      let (p, y', k', ey, ek, m, parted) = matching_split (x ∷ xs) k in
      apart p y' k' ey ek (insert_at k (x ∷ xs) t v (length p) h d m) d parted
]
  where
    apart :
        (p y' k' : List ℕ)
        → x ∷ xs ≡ p ++ y'
        → k ≡ p ++ k'
        → insert (ext k t) (x ∷ xs) v
          ≡ behind (take (length p) (x ∷ xs)) (
              if length p == length k
              then insert t (drop (length p) (x ∷ xs)) v
              else parting
                  (get_or k (length p) 0)
                  (drop (length p + 1) k)
                  t
                  (get_or (x ∷ xs) (length p) 0)
                  (drop (length p + 1) (x ∷ xs))
                  v)
        → k ≢ x ∷ xs
        → Parted y' k'
        → Inserted k t (x ∷ xs) v (insert (ext k t) (x ∷ xs) v)
    apart p y' [] ey ek e d parted =
        let ek' : k ≡ p = ek ∙ append-nil p in
        let whole : (length p == length k) ≡ true =
          (==_iff (length p) (length k)).1 (ap length (sym ek')) in
        deeper y' d (ey ∙ ap (λ q. q ++ y') (sym ek')) (
          e
          ∙ rw whole (
              rw ey (
                rw (take-append_length p y')
                  (rw (drop-append_length p y') (ap (λ q. behind q (insert t y' v)) (sym ek'))))))
    apart p [] (a ∷ k') ey ek e d parted =
        inside (a ∷ k') (λ f. cc) (ek ∙ ap (λ q. q ++ (a ∷ k')) (sym (append-nil p) ∙ sym ey))
    apart p (b ∷ y') (a ∷ k') ey ek e d parted =
        let long : length k ≡ length p + suc (length k') =
          ap length ek ∙ length-append p (a ∷ k') in
        let part : (length p == length k) ≡ false = ground (arith, long) in
        forked p k' y' a b (λ f. parted (sym f)) ek ey
          (e
            ∙ rw part (
                rw ey (
                  rw ek (
                    rw (take-append_length p (b ∷ y')) (
                      rw (get_or-append_length p k' a) (
                        rw (get_or-append_length p y' b)
                          (rw (drop_one_past p k' a) (rw (drop_one_past p y' b) refl))))))))
