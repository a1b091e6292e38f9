-- ===== src/Trie/Slices.antt =====
-- monktrie/slice.go: comparing keys.
use thelonious.Base.{
  ℕ, suc, ◌≤◌, ◌≡◌, ◌≢◌, ◌↔◌, ◌⊎◌, inl, inr, refl, ap, arith, List, [], ◌∷◌, length, ◌==◌,
  if◌then◌else◌, Bool, true, false, not, take, get_elem?, none,
}

-- The loop over two slices of one length.
unfoldable pub same_elements : List ℕ → List ℕ → Bool
same_elements [] b = true
same_elements (x ∷ a) [] = true
same_elements (x ∷ a) (y ∷ b) = if x == y then same_elements a b else false

unfoldable pub compare_int_slice : List ℕ → List ℕ → Bool
unfolding same_elements
compare_int_slice a b = if not (length a == length b) then false else same_elements a b

-- The loop runs to the shorter length: it ends at the end of either.
unfoldable pub matching_nibble_length : List ℕ → List ℕ → ℕ
matching_nibble_length [] b = 0
matching_nibble_length (x ∷ a) [] = 0
matching_nibble_length (x ∷ a) (y ∷ b) = if x == y then suc (matching_nibble_length a b) else 0

same_elements→eq : (a b : List ℕ) → length a ≡ length b → same_elements a b ≡ true → a ≡ b
unfolding same_elements
same_elements→eq [] [] l e = refl
same_elements→eq [] (y ∷ b) l e = absurd (omega arith)
same_elements→eq (x ∷ a) [] l e = absurd (omega arith)
same_elements→eq (x ∷ a) (y ∷ b) l e = ground (arith, same_elements→eq a b)

same_elements_refl : (a : List ℕ) → same_elements a a ≡ true
unfolding same_elements
same_elements_refl [] = refl
same_elements_refl (x ∷ a) = ground (arith, same_elements_refl a)

-- CompareIntSlice decides equality.
pub compare_int_slice_iff : (a b : List ℕ) → (compare_int_slice a b ≡ true) ↔ (a ≡ b)
unfolding compare_int_slice
compare_int_slice_iff a b = (
  λ h. ground (arith, same_elements→eq a b),
  λ e.
      ground
        (arith, same_elements_refl a, same_elements_refl b, ap length e, ap (same_elements a) e),
)

-- MatchingNibbleLength is the length of the longest common prefix: the slices agree up to it, and
-- one of them ends there or they differ there.
matching_nibble_length_lem :
    (a b : List ℕ)
    → (take (matching_nibble_length a b) a ≡ take (matching_nibble_length a b) b)
      × (matching_nibble_length a b ≤ length a)
      × (matching_nibble_length a b ≤ length b)
      × (get_elem? a (matching_nibble_length a b) ≡ none
          ⊎ get_elem? b (matching_nibble_length a b) ≡ none
          ⊎ get_elem? a (matching_nibble_length a b) ≢ get_elem? b (matching_nibble_length a b))
unfolding matching_nibble_length
matching_nibble_length_lem [] b = (refl, omega arith, omega arith, inl refl)
matching_nibble_length_lem (x ∷ a) [] = (refl, omega arith, omega arith, inr (inl refl))
matching_nibble_length_lem (x ∷ a) (y ∷ b) = ground (arith, matching_nibble_length_lem a b)
