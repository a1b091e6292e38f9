-- ===== src/Trie/Tree/Keys.antt =====
-- Keys of nibbles that end at the nibble 16, their prefixes, and the place where two of them part.
use thelonious.Base.{
  ℕ, suc, ◌==◌, ==_iff, ◌<◌, ◌≡◌, ◌≢◌, ◌⊎◌, inl, inr, refl, sym, ap, ◌∙◌, arith, List, [], ◌∷◌,
  ◌++◌, length, if◌then◌else◌, true, false, Bool-cases, none, some, get_or, drop, All,
}
use thelonious.Trie.Slices.{compare_int_slice, compare_int_slice_iff, matching_nibble_length}
use thelonious.Trie.Tree.{strip}

abbrev pub IsNibbles : List ℕ → Type 0
IsNibbles k = All (λ x. x < 16) k

-- Nibbles, and 16 behind them.
abbrev pub IsKey : List ℕ → Type 0
IsKey [] = ⊥
IsKey (x ∷ k) = ((x ≡ 16) × (k ≡ [])) ⊎ ((x < 16) × IsKey k)

pub IsNibbles-not_IsKey : (k : List ℕ) → IsNibbles k → IsKey k → ⊥
IsNibbles-not_IsKey [] h k = k
IsNibbles-not_IsKey (x ∷ k) h (inl e) = omega (arith, h.0, e.0)
IsNibbles-not_IsKey (x ∷ k) h (inr e) = IsNibbles-not_IsKey k h.1 e.1

-- A proper prefix of a key has nibbles only, and leaves a key behind.
pub IsKey-append : (p k : List ℕ) → k ≢ [] → IsKey (p ++ k) → IsNibbles p × IsKey k
IsKey-append [] k n h = (tt, h)
IsKey-append (x ∷ p) [] n h = absurd (n refl)
IsKey-append (x ∷ []) (y ∷ k) n (inl e) = let f : y ∷ k ≡ [] = e.1 in cc
IsKey-append (x ∷ z ∷ p) (y ∷ k) n (inl e) = let f : z ∷ (p ++ (y ∷ k)) ≡ [] = e.1 in cc
IsKey-append (x ∷ p) (y ∷ k) n (inr e) = let r = IsKey-append p (y ∷ k) n e.1 in ((e.0, r.0), r.1)

IsKey-append_nibbles : (p k : List ℕ) → IsNibbles p → IsKey k → IsKey (p ++ k)
IsKey-append_nibbles [] k h e = e
IsKey-append_nibbles (x ∷ p) k h e = inr (h.0, IsKey-append_nibbles p k h.1 e)

pub IsNibbles-append : (p k : List ℕ) → IsNibbles (p ++ k) → IsNibbles p × IsNibbles k
IsNibbles-append [] k h = (tt, h)
IsNibbles-append (x ∷ p) k h = let r = IsNibbles-append p k h.1 in ((h.0, r.0), r.1)

pub strip-append : (p k q : List ℕ) → strip (p ++ k) (p ++ q) ≡ strip k q
unfolding strip
strip-append [] k q = refl
strip-append (x ∷ p) k q =
    let e : (x == x) ≡ true = (==_iff x x).1 refl in rw e (strip-append p k q)

-- A key is a prefix, or it is not.
pub strip_cases :
    (k q : List ℕ) → ((r : List ℕ) × (q ≡ k ++ r)) ⊎ ((s : List ℕ) → strip (k ++ s) q ≡ none)
unfolding strip
strip_cases [] q = inl (q, refl)
strip_cases (a ∷ k) [] = inr (λ s. refl)
strip_cases (a ∷ k) (b ∷ q) = elim (Bool-cases (a == b)) [
  | inr e ↦ inr (λ s. rw e refl)
  | inl e ↦ elim (strip_cases k q) [
    | inl (r, p) ↦ let same : a ≡ b = (==_iff a b).0 e in inl (r, cc)
    | inr n ↦ inr (λ s. rw e (n s))
  ]
]

-- No key is a prefix of another.
pub strip-IsKey :
    (k q : List ℕ)
    → IsKey k
    → IsKey q
    → ((k ≡ q) × (strip k q ≡ some [])) ⊎ ((k ≢ q) × (strip k q ≡ none))
unfolding strip
strip-IsKey [] q h e = absurd h
strip-IsKey (a ∷ k) [] h e = absurd e
strip-IsKey (a ∷ k) (b ∷ q) h e = elim (Bool-cases (a == b)) [
  | inr n ↦ inr (
    (λ f. let g : true ≡ false = sym ((==_iff a b).1 (ap (λ l. get_or l 0 0) f)) ∙ n in cc),
    rw n refl,
  )
  | inl s ↦
      let same : a ≡ b = (==_iff a b).0 s in rw s (tails same h e (λ x y. strip-IsKey k q x y))
]
  where
    drop_head : {x y : ℕ} {l m : List ℕ} → x ∷ l ≡ y ∷ m → l ≡ m
    drop_head f = ap (drop 1) f

    tails :
        a ≡ b
        → IsKey (a ∷ k)
        → IsKey (b ∷ q)
        → (IsKey k → IsKey q → ((k ≡ q) × (strip k q ≡ some [])) ⊎ ((k ≢ q) × (strip k q ≡ none)))
        → (((a ∷ k) ≡ (b ∷ q)) × (strip k q ≡ some [])) ⊎ (((a ∷ k) ≢ (b ∷ q)) × (strip k q ≡ none))
    tails same (inl (x, x')) (inl (y, y')) deeper = inl (cc, rw (x', y') refl)
    tails same (inl (x, x')) (inr (y, y')) deeper = absurd (omega (arith, x, y, same))
    tails same (inr (x, x')) (inl (y, y')) deeper = absurd (omega (arith, x, y, same))
    tails same (inr (x, x')) (inr (y, y')) deeper = elim (deeper x' y') [
      | inl (s, t) ↦ inl (cc, t)
      | inr (s, t) ↦ inr ((λ f. s (drop_head f)), t)
    ]

-- Where two lists part: the common prefix and what stands behind it in each.
abbrev pub Parted : List ℕ → List ℕ → Type 0
Parted [] b = Unit
Parted (x ∷ a) [] = Unit
Parted (x ∷ a) (y ∷ b) = x ≢ y

pub matching_split :
    (a b : List ℕ)
    → (p a' b' : List ℕ) × (a ≡ p ++ a')
      × (b ≡ p ++ b')
      × (matching_nibble_length a b ≡ length p)
      × Parted a' b'
unfolding matching_nibble_length
matching_split [] b = ([], [], b, refl, refl, refl, tt)
matching_split (x ∷ a) [] = ([], x ∷ a, [], refl, refl, refl, tt)
matching_split (x ∷ a) (y ∷ b) = elim (Bool-cases (x == y)) [
  | inr n ↦ (
    [],
    x ∷ a,
    y ∷ b,
    refl,
    refl,
    rw n refl,
    (λ f. let g : true ≡ false = sym ((==_iff x y).1 f) ∙ n in cc),
  )
  | inl s ↦
      let same : x ≡ y = (==_iff x y).0 s in
      let (p, a', b', e, f, m, d) = matching_split a b in
      (x ∷ p, a', b', ap (λ l. x ∷ l) e, cc, rw s (ap suc m), d)
]

-- A choice by equality of keys.
abbrev pub chosen : List ℕ → List ℕ → List ℕ → List ℕ → List ℕ
chosen k q v w = if compare_int_slice k q then v else w

pub chosen_eq : (k q v w : List ℕ) → k ≡ q → chosen k q v w ≡ v
chosen_eq k q v w e = rw ((compare_int_slice_iff k q).1 e) refl

pub chosen_ne : (k q v w : List ℕ) → k ≢ q → chosen k q v w ≡ w
chosen_ne k q v w n = elim (Bool-cases (compare_int_slice k q)) [
  | inl e ↦ absurd (n ((compare_int_slice_iff k q).0 e))
  | inr e ↦ rw e refl
]

pub chosen_cases : (k q : List ℕ) → (k ≡ q) ⊎ (k ≢ q)
chosen_cases k q = elim (Bool-cases (compare_int_slice k q)) [
  | inl e ↦ inl ((compare_int_slice_iff k q).0 e)
  | inr e ↦ inr (λ f. let g : true ≡ false = sym ((compare_int_slice_iff k q).1 f) ∙ e in cc)
]
