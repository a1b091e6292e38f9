-- ===== src/Crypto/Mnemonic/Numbers.antt =====
-- monkcrypto/mnemonic.go: that three words give back the number that they were made of.
use native.Mathlib.Nat.{
  mod-eq_of_lt, mod-lt, mod-add-mod, mod-eq-sub-mod, div-add-mod, div-lt_iff_lt-mul, mul-add,
  mul_assoc,
}
use mathlib.Core.Path.{ap₂}
use thelonious.Base.{
  ℕ, suc, ◌+◌, ◌-◌, ◌*◌, ◌/◌, ◌%◌, ◌<◌, ◌≤◌, ◌≡◌, refl, sym, ap, ◌∙◌, inl, inr, if◌then◌else◌, true,
  false, Bool-cases, leb, ltb, arith,
}
use thelonious.Base.Int.{ℤ, pos, negsuc, ◌+ℤ◌, ◌-ℤ◌, ◌*ℤ◌, sub_ℕ, ltb_ℤ}
use thelonious.Crypto.Mnemonic.{rem, place_behind}

pos_plus : (a b : ℕ) → pos a +ℤ pos b ≡ pos (a + b)
unfolding ◌+ℤ◌
pos_plus a b = ground arith

pos_times : (a b : ℕ) → pos a *ℤ pos b ≡ pos (a * b)
unfolding ◌*ℤ◌
pos_times a b = ground arith

-- The distance from one place to another, around the table.
abbrev around : ℕ → ℕ → ℕ → ℕ
around n b a = if leb a b then b - a else b + n - a

-- Adding the size of the table to what is below 0.
abbrev raised : ℕ → ℤ → ℤ
raised n y = if ltb_ℤ y (pos 0) then y +ℤ pos n else y

raised-pos : (n k : ℕ) → raised n (pos k) ≡ pos k
raised-pos n k = ground arith

raised-below : (n k : ℕ) → 0 < k → k ≤ n → raised n (sub_ℕ 0 k) ≡ pos (n - k)
unfolding ◌+ℤ◌
raised-below n k lo hi = ground arith

minus_up : (b a : ℕ) → leb a b ≡ true → pos b -ℤ pos a ≡ pos (b - a)
unfolding ◌-ℤ◌
minus_up b a e = ground arith

minus_down : (b a : ℕ) → leb a b ≡ false → pos b -ℤ pos a ≡ negsuc (a - b - 1)
unfolding ◌-ℤ◌
minus_down b a e = ground arith

rem-below : (n a b : ℕ) → a < n → leb a b ≡ false → rem (negsuc (a - b - 1)) n ≡ sub_ℕ 0 (a - b)
unfolding rem
rem-below n a b la e =
    let s : suc (a - b - 1) ≡ a - b = ground arith in
    ap (λ x. sub_ℕ 0 (x % n)) s ∙ ap (sub_ℕ 0) (mod-eq_of_lt (omega arith))

rem-up : (n a b : ℕ) → b < n → rem (pos (b - a)) n ≡ pos (b - a)
unfolding rem
rem-up n a b lb = ap pos (mod-eq_of_lt (omega arith))

place_behind-around :
    (n b a : ℕ) → b < n → a < n → place_behind n (pos b) (pos a) ≡ pos (around n b a)
unfolding place_behind
place_behind-around n b a lb la = elim (Bool-cases (leb a b)) [
  | inl e ↦
      ap (λ z. raised n (rem z n)) (minus_up b a e)
      ∙ ap (raised n) (rem-up n a b lb)
      ∙ raised-pos n (b - a)
      ∙ ap pos (rw e refl)
  | inr e ↦
      ap (λ z. raised n (rem z n)) (minus_down b a e)
      ∙ ap (raised n) (rem-below n a b la e)
      ∙ raised-below n (a - b) (ground arith) (omega arith)
      ∙ ap pos (rw e (ground arith))
]

-- The place that lies a number behind another one tells the number, up to the table's size.
around-sum : (n r w : ℕ) → w < n → r < n → around n ((r + w) % n) w ≡ r
around-sum n r w lw lr = elim (Bool-cases (ltb (r + w) n)) [
  | inl e ↦
      let s : (r + w) % n ≡ r + w = mod-eq_of_lt (ground arith) in
      ap (λ x. around n x w) s ∙ ground arith
  | inr e ↦
      let s : (r + w) % n ≡ r + w - n =
        mod-eq-sub-mod (ground arith) ∙ mod-eq_of_lt (ground arith) in
      ap (λ x. around n x w) s ∙ ground arith
]

around-mod : (n q w : ℕ) → w < n → around n ((q + w) % n) w ≡ q % n
around-mod n q w lw =
    ap (λ x. around n x w) (sym (mod-add-mod q n w))
    ∙ around-sum n (q % n) w lw (mod-lt q (omega arith))

sum_back : (n bit : ℕ) → bit % n + n * (bit / n % n) + n * n * (bit / n / n) ≡ bit
sum_back n bit =
    let q = bit / n in
    let e : n * (n * (q / n) + q % n) ≡ n * (n * (q / n)) + n * (q % n) =
      mul-add n (n * (q / n)) (q % n) in
    let f : n * (n * (q / n) + q % n) ≡ n * q = ap (λ x. n * x) (div-add-mod q n) in
    let g : n * n * (q / n) ≡ n * (n * (q / n)) = mul_assoc n n (q / n) in
    omega (arith, e, f, g, div-add-mod bit n)

third-below : (n bit : ℕ) → 0 < n → bit < n * n * n → bit / n / n % n ≡ bit / n / n
third-below n bit lo lt =
    let e : bit / n < n * n = (div-lt_iff_lt-mul lo).1 lt in
    let f : bit / n / n < n = (div-lt_iff_lt-mul lo).1 e in mod-eq_of_lt f

-- What the places of the three words give is the number that they were made of.
pub number_back :
    (n bit : ℕ)
    → 0 < n
    → bit < n * n * n
    → let w1 = bit % n in
      let w2 = (bit / n + w1) % n in
      let w3 = (bit / n / n + w2) % n in
      pos w1
        +ℤ pos n *ℤ place_behind n (pos w2) (pos w1)
        +ℤ pos (n * n) *ℤ place_behind n (pos w3) (pos w2)
      ≡ pos bit
number_back n bit lo lt =
    let w1 = bit % n in
    let w2 = (bit / n + w1) % n in
    let w3 = (bit / n / n + w2) % n in
    let l1 : w1 < n = mod-lt bit lo in
    let l2 : w2 < n = mod-lt (bit / n + w1) lo in
    let l3 : w3 < n = mod-lt (bit / n / n + w2) lo in
    let y : place_behind n (pos w2) (pos w1) ≡ pos (bit / n % n) =
      place_behind-around n w2 w1 l2 l1 ∙ ap pos (around-mod n (bit / n) w1 l1) in
    let z : place_behind n (pos w3) (pos w2) ≡ pos (bit / n / n) =
      place_behind-around n w3 w2 l3 l2
      ∙ ap pos (around-mod n (bit / n / n) w2 l2 ∙ third-below n bit lo lt) in
    ap₂ (λ y z. pos w1 +ℤ pos n *ℤ y +ℤ pos (n * n) *ℤ z) y z
    ∙ ap₂ (λ y z. pos w1 +ℤ y +ℤ z) (pos_times n (bit / n % n)) (pos_times (n * n) (bit / n / n))
    ∙ ap (λ y. y +ℤ pos (n * n * (bit / n / n))) (pos_plus w1 (n * (bit / n % n)))
    ∙ pos_plus (w1 + n * (bit / n % n)) (n * n * (bit / n / n))
    ∙ ap pos (sum_back n bit)
