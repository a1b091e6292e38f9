-- ===== src/Base/Slices.antt =====
-- Go's slice expressions and index expressions, which panic out of range. A slice is taken to have
-- no capacity beyond its length; where it has, the list is the array up to the capacity.
use thelonious.Base.Tests.{leb, Bool-cases, if◌then◌else◌}
use thelonious.Base.Lists.{
  set, All, length, take, drop, get_elem?, take-append_length, length-drop, length-append,
  get_elem?-drop,
}
use thelonious.Base.Outcomes.{Outcome, ok, panic}
use Prim.Native.Nat.{ℕ, zero, suc, ◌<◌, ◌+◌, ◌-◌, ◌≤◌}
use mathlib.Core.Path.{refl, subst, ◌≡◌, ap}
use mathlib.Core.Bool.{true, ◌&&◌}
use mathlib.Core.Logic.{◌⊎◌, inl, inr, ◌≢◌}
use mathlib.Core.Option.{none, some}
use mathlib.Core.List.{List, [], ◌∷◌, ◌++◌}
use native.Mathlib.Omega.{arith}

module _ {ℓ} {A : Type ℓ} where
  -- `s[i]`
  abbrev pub index : List A → ℕ → Outcome A
  index s i = elim (get_elem? s i) [ none ↦ panic | some x ↦ ok x ]

  -- `s[lo:hi]`
  unfoldable pub slice : List A → ℕ → ℕ → Outcome (List A)
  slice s lo hi = if leb lo hi && leb hi (length s) then ok (take (hi - lo) (drop lo s)) else panic

  pub index-drop : (n : ℕ) (s : List A) {x : A} {r : List A} → drop n s ≡ x ∷ r → index s n ≡ ok x
  index-drop n s e = rw (get_elem?-drop n s e, index)

  -- The part of `s` that begins at `n`, where `mid` stands in front of the rest.
  pub slice-drop :
      (n m : ℕ) (s mid rest : List A)
      → drop n s ≡ mid ++ rest
      → n ≤ length s
      → m ≡ n + length mid
      → slice s n m ≡ ok mid
  unfolding slice
  slice-drop n m s mid rest e h k = rw (in_range, e, enough, taken)
    where
      long : length s - n ≡ length mid + length rest
      long = omega (arith, length-drop n s, ap length e, length-append mid rest)

      enough : m - n ≡ length mid
      enough = omega arith

      in_range : (leb n m && leb m (length s)) ≡ true
      in_range = ground (arith, long)

      taken : take (length mid) (mid ++ rest) ≡ mid
      taken = take-append_length mid rest

  -- A slice expression panics, or its bounds are in order.
  pub slice_inv :
      (s : List A) (lo hi : ℕ)
      → slice s lo hi ≡ panic
        ⊎ ((t : List A) × (slice s lo hi ≡ ok t) × (lo ≤ hi) × (hi ≤ length s))
  unfolding slice
  slice_inv s lo hi = elim (Bool-cases (leb lo hi && leb hi (length s))) [
    | inl e ↦ inr (take (hi - lo) (drop lo s), rw e, ground arith, ground arith)
    | inr e ↦ inl (rw e)
  ]

  -- An index expression panics at the length and above, and gives an element below.
  pub index_inv :
      (s : List A) (i : ℕ)
      → ((index s i ≡ panic) × (length s ≤ i)) ⊎ ((x : A) × (index s i ≡ ok x) × (i < length s))
  index_inv [] i = inl (refl, omega arith)
  index_inv (x ∷ s) zero = inr (x, refl, omega arith)
  index_inv (x ∷ s) (suc i) = elim (index_inv s i) [
    | inl (e, h) ↦ inl (e, omega arith)
    | inr (y, e, h) ↦ inr (y, e, omega arith)
  ]

  pub All-index {κ} :
      (P : A → Type κ) (s : List A) (i : ℕ) {x : A} → All P s → index s i ≡ ok x → P x
  All-index P [] i h e = cc
  All-index P (y ∷ s) zero h e = subst P (cc) h.0
  All-index P (y ∷ s) (suc i) h e = All-index P s i h.1 e

  -- An element that is written is read back; a later write counts; writing what is there is nothing.
  pub index-set_self : (s : List A) (i : ℕ) (v : A) → i < length s → index (set s i v) i ≡ ok v
  index-set_self [] i v h = elim h [ ]
  index-set_self (x ∷ s) zero v h = refl
  index-set_self (x ∷ s) (suc i) v h = index-set_self s i v (omega arith)

  pub set-set : (s : List A) (i : ℕ) (v w : A) → set (set s i v) i w ≡ set s i w
  set-set [] i v w = refl
  set-set (x ∷ s) zero v w = refl
  set-set (x ∷ s) (suc i) v w = ap (λ r. x ∷ r) (set-set s i v w)

  pub set-index : (s : List A) (i : ℕ) (v : A) → index s i ≡ ok v → set s i v ≡ s
  set-index [] i v e = refl
  set-index (x ∷ s) zero v e = cc
  set-index (x ∷ s) (suc i) v e = ap (λ r. x ∷ r) (set-index s i v e)

  pub index-lt : (s : List A) (i : ℕ) {x : A} → index s i ≡ ok x → i < length s
  index-lt s i e = elim (index_inv s i) [ inl (p, h) ↦ cc | inr (y, p, h) ↦ h ]

  pub index-append : (s t : List A) (i : ℕ) → i < length s → index (s ++ t) i ≡ index s i
  index-append [] t i h = elim h [ ]
  index-append (x ∷ s) t zero h = refl
  index-append (x ∷ s) t (suc i) h = index-append s t i (omega arith)

  pub index-append_length : (s : List A) (x : A) → index (s ++ (x ∷ [])) (length s) ≡ ok x
  index-append_length [] x = refl
  index-append_length (y ∷ s) x = index-append_length s x

  pub index-set_other : (s : List A) (i j : ℕ) (v : A) → i ≢ j → index (set s i v) j ≡ index s j
  index-set_other [] i j v h = refl
  index-set_other (x ∷ s) zero zero v h = elim (h refl) [ ]
  index-set_other (x ∷ s) zero (suc j) v h = refl
  index-set_other (x ∷ s) (suc i) zero v h = refl
  index-set_other (x ∷ s) (suc i) (suc j) v h = index-set_other s i j v (λ e. h (ap suc e))
