-- ===== src/Chain/Bloom.antt =====
-- monkchain/bloom.go: a filter of 256 bytes, one for each value of the last eight bytes of an address.
-- An index beyond the bytes panics.
use thelonious.Base.{
  ℕ, zero, suc, ◌-◌, ◌≡◌, ◌≤◌, ◌<◌, refl, sym, ◌∙◌, arith, List, [], ◌∷◌, length, length-set, drop,
  replicate, set, ltb, ◌==◌, if◌then◌else◌, Bool, true, false, Bool-cases, Outcome, ok, panic,
  ◌>>=◌, index, index_inv, index-set_self, index-set_other, All, inl, inr, Option, none, some,
  ==_iff,
}
use mathlib.Core.Path.{subst}
use thelonious.Util.Big.{IsByte}

-- `none` is nil.
unfoldable pub new_bloom_filter : Option (List ℕ) → List ℕ
new_bloom_filter none = replicate {A = ℕ} 256 0
new_bloom_filter (some bin) = bin

unfoldable pub mark_all : List ℕ → List ℕ → Outcome (List ℕ)
mark_all [] bin = ok bin
mark_all (i ∷ is) bin = index bin i >>= λ old. mark_all is (set bin i 1)

unfoldable pub all_marked : List ℕ → List ℕ → Outcome Bool
all_marked [] bin = ok true
all_marked (i ∷ is) bin =
    let rest = all_marked is bin in index bin i >>= λ b. if b == 0 then ok false else rest

-- BloomFilter.Set
unfoldable pub set_address : List ℕ → List ℕ → Outcome (List ℕ)
unfolding mark_all
set_address bin addr =
    if ltb (length addr) 8 then ok bin else mark_all (drop (length addr - 8) addr) bin

-- BloomFilter.Search
unfoldable pub search_address : List ℕ → List ℕ → Outcome Bool
unfolding all_marked
search_address bin addr =
    if ltb (length addr) 8 then ok false else all_marked (drop (length addr - 8) addr) bin

abbrev pub IsMarked : List ℕ → ℕ → Type 0
IsMarked bin i = (b : ℕ) × (index bin i ≡ ok (suc b))

mark-IsMarked :
    (bin : List ℕ) (i j : ℕ) → i < length bin → IsMarked bin j → IsMarked (set bin i 1) j
mark-IsMarked bin i j h (b, e) = elim (Bool-cases (i == j)) [
  | inl q ↦
      let same : i ≡ j = (==_iff i j).0 q in
      (0, subst (λ k. index (set bin i 1) k ≡ ok 1) same (index-set_self bin i 1 h))
  | inr q ↦ (
    b,
    index-set_other bin i j 1 (λ same. let f : true ≡ false = sym ((==_iff i j).1 same) ∙ q in cc)
        ∙ e,
  )
]

mark_all-IsMarked :
    (is bin : List ℕ)
    → All (λ i. i < length bin) is
    → (bin' : List ℕ) × (mark_all is bin ≡ ok bin')
      × (length bin' ≡ length bin)
      × ((j : ℕ) → IsMarked bin j → IsMarked bin' j)
      × All (IsMarked bin') is
unfolding mark_all
mark_all-IsMarked [] bin h = (bin, refl, refl, (λ j m. m), tt)
mark_all-IsMarked (i ∷ is) bin (h, k) = elim (index_inv bin i) [
  | inl (e, far) ↦ absurd (omega arith)
  | inr (old, e, near) ↦
      let bin1 = set bin i 1 in
      let same = length-set bin i 1 in
      let (bin', e', n, keeps, marked) =
        mark_all-IsMarked is bin1 (subst (λ n. All (λ i. i < n) is) (sym same) k) in
      let here : IsMarked bin1 i = (0, index-set_self bin i 1 near) in
      (
        bin',
        rw e e',
        n ∙ same,
        (λ j m. keeps j (mark-IsMarked bin i j near m)),
        (keeps i here, marked),
      )
]

all_marked-IsMarked : (is bin : List ℕ) → All (IsMarked bin) is → all_marked is bin ≡ ok true
unfolding all_marked
all_marked-IsMarked [] bin h = refl
all_marked-IsMarked (i ∷ is) bin ((b, e), h) =
    let more : (suc b == 0) ≡ false = ground arith in rw e (rw more (all_marked-IsMarked is bin h))

IsMarked-all_marked : (is bin : List ℕ) → all_marked is bin ≡ ok true → All (IsMarked bin) is
unfolding all_marked
IsMarked-all_marked [] bin h = tt
IsMarked-all_marked (i ∷ is) bin h = elim (index_inv bin i) [
  | inl (e, far) ↦ let f : panic ≡ ok true = rw e at h in cc
  | inr (zero, e, near) ↦ let f : ok false ≡ ok true = rw e at h in cc
  | inr (suc b, e, near) ↦
      let more : (suc b == 0) ≡ false = ground arith in
      ((b, e), IsMarked-all_marked is bin (rw more at (rw e at h)))
]

All-IsMarked :
    (bin bin' is : List ℕ)
    → ((j : ℕ) → IsMarked bin j → IsMarked bin' j)
    → All (IsMarked bin) is
    → All (IsMarked bin') is
All-IsMarked bin bin' [] keeps h = tt
All-IsMarked bin bin' (i ∷ is) keeps h = (keeps i h.0, All-IsMarked bin bin' is keeps h.1)

All-drop_lem : (n : ℕ) (P : ℕ → Type 0) (xs : List ℕ) → All P xs → All P (drop n xs)
All-drop_lem zero P xs h = h
All-drop_lem (suc n) P [] h = tt
All-drop_lem (suc n) P (x ∷ xs) h = All-drop_lem n P xs h.1

-- In a filter of 256 bytes, setting an address of eight bytes or more does not panic; the address is
-- then found, and so is every address that was found before.
pub search_address-set_address :
    (bin addr other : List ℕ)
    → length bin ≡ 256
    → All IsByte addr
    → 8 ≤ length addr
    → search_address bin other ≡ ok true
    → (bin' : List ℕ) × (set_address bin addr ≡ ok bin')
      × (length bin' ≡ 256)
      × (search_address bin' addr ≡ ok true)
      × (search_address bin' other ≡ ok true)
unfolding set_address search_address
search_address-set_address bin addr other n bytes long found =
    let is = drop (length addr - 8) addr in
    let near =
      subst (λ k. All (λ i. i < k) is) (sym n) (All-drop_lem (length addr - 8) IsByte addr bytes) in
    let (bin', e, same, keeps, marked) = mark_all-IsMarked is bin near in
    let far : ltb (length addr) 8 ≡ false = ground arith in
    elim (Bool-cases (ltb (length other) 8)) [
      | inl q ↦ let f : ok false ≡ ok true = rw q at found in cc
      | inr q ↦
          let others = drop (length other - 8) other in
          let old = IsMarked-all_marked others bin (rw q at found) in
          (
            bin',
            rw far e,
            same ∙ n,
            rw far (all_marked-IsMarked is bin' marked),
            rw q (all_marked-IsMarked others bin' (All-IsMarked bin bin' others keeps old)),
          )
    ]
