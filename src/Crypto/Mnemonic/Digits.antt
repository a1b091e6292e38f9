-- ===== src/Crypto/Mnemonic/Digits.antt =====
-- monkcrypto/mnemonic.go: that printing a number gives back the digits that it was read from.
use native.Mathlib.Nat.{mul-le-mul_right, mul_assoc, pow-succ'}
use mathlib.Core.Path.{subst}
use thelonious.Base.{
  ℕ, suc, ◌+◌, ◌*◌, ◌/◌, ◌%◌, ◌^◌, ◌<◌, ◌≤◌, ◌≡◌, refl, sym, ap, ◌∙◌, List, [], ◌∷◌, ◌++◌, length,
  All, append_assoc, append-nil, false, ◌==◌, some, ok, arith,
}
use thelonious.Crypto.Mnemonic.{
  digit_value, digits_value, digit_char, print_digits, magnitude, parse_group, or_zero,
}

-- A character that Sprintf writes for a digit.
abbrev pub IsDigit : ℕ → Type 0
IsDigit c = (v : ℕ) × (v < 16) × (c ≡ digit_char v)

digit_value-digit_char : (v : ℕ) → v < 16 → digit_value (digit_char v) ≡ some v
unfolding digit_value
digit_value-digit_char v lt = ground arith

shifted : (acc v : ℕ) → v < 16 → ((acc * 16 + v) % 16 ≡ v) × ((acc * 16 + v) / 16 ≡ acc)
shifted acc v lt = (omega arith, omega arith)

print_next :
    (k acc v : ℕ) (cs : List ℕ)
    → v < 16
    → print_digits (suc k) (acc * 16 + v) ++ cs ≡ print_digits k acc ++ (digit_char v ∷ cs)
unfolding print_digits
print_next k acc v cs lt =
    let (m, d) = shifted acc v lt in
    ap (λ x. (print_digits k x ++ (digit_char ((acc * 16 + v) % 16) ∷ [])) ++ cs) d
    ∙ ap (λ x. (print_digits k acc ++ (digit_char x ∷ [])) ++ cs) m
    ∙ append_assoc (print_digits k acc) (digit_char v ∷ []) cs

-- The number that digits are read as, in front of which `acc` was read, prints as them, and is as large
-- as digits allow.
digits_value-print_digits :
    (acc : ℕ) (cs : List ℕ)
    → All IsDigit cs
    → (x : ℕ) × (digits_value acc cs ≡ some x)
      × (x < suc acc * 16 ^ length cs)
      × ((k : ℕ) → print_digits (k + length cs) x ≡ print_digits k acc ++ cs)
unfolding digits_value
digits_value-print_digits acc [] h = (
  acc,
  refl,
  omega arith,
  λ k. ap (λ j. print_digits j acc) (omega arith) ∙ sym (append-nil (print_digits k acc)),
)
digits_value-print_digits acc (c ∷ cs) ((v, lt, e), h) =
    let (x, f, b, g) = digits_value-print_digits (acc * 16 + v) cs h in
    let w : digit_value c ≡ some v = ap digit_value e ∙ digit_value-digit_char v lt in
    let wide : suc (acc * 16 + v) * 16 ^ length cs ≤ suc acc * 16 * 16 ^ length cs =
      mul-le-mul_right (16 ^ length cs) (omega arith) in
    let shape : suc acc * 16 * 16 ^ length cs ≡ suc acc * 16 ^ suc (length cs) =
      mul_assoc (suc acc) 16 (16 ^ length cs)
      ∙ ap (λ p. suc acc * p) (sym (pow-succ' 16 (length cs))) in
    (
      x,
      rw (w, digits_value) f,
      omega (arith, b, wide, shape),
      λ k.
          ap (λ j. print_digits j x) (omega arith)
          ∙ g (suc k)
          ∙ print_next k acc v cs lt
          ∙ ap (λ d. print_digits k acc ++ (d ∷ cs)) (sym e),
    )

-- Eight digits are read as a number that prints as them.
pub parse_group-print_digits :
    (cs : List ℕ)
    → All IsDigit cs
    → length cs ≡ 8
    → (x : ℕ) × (parse_group cs ≡ ok x) × (x < 2 ^ 32) × (print_digits 8 x ≡ cs)
unfolding parse_group magnitude print_digits
parse_group-print_digits [] h e = absurd (omega arith)
parse_group-print_digits (c ∷ cs) h e =
    let (x, f, b, g) = digits_value-print_digits 0 (c ∷ cs) h in
    let (v, lt, d) = h.0 in
    let plus : (c == 43) ≡ false = ground arith in
    let minus : (c == 45) ≡ false = ground arith in
    let small : x < 1 * 16 ^ 8 = subst (λ l. x < 1 * 16 ^ l) e b in
    (
      x,
      rw plus (rw minus (ap (λ o. ok (or_zero o)) f)),
      omega arith,
      ap (λ j. print_digits j x) eight ∙ g 0,
    )
  where
    eight : 8 ≡ 0 + length (c ∷ cs)
    eight = omega arith
