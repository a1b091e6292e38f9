-- ===== src/Util/Big.antt =====
-- Big-endian numbers as Go's math/big writes and reads them (`Bytes`, `SetBytes`), and what
-- encoding/binary reads. monkutil/big.go.
use thelonious.Base.{
  ℕ, zero, suc, ◌+◌, ◌*◌, ◌/◌, ◌%◌, ◌^◌, ◌≤◌, ◌<◌, ◌≡◌, refl, ◌∙◌, arith, List, [], ◌∷◌, ◌++◌,
  length, length-append, All, All-append, replicate,
}
use native.Mathlib.Nat.{pow-suc, le_trans}

abbrev pub IsByte : ℕ → Type 0
IsByte b = b < 256

-- A number read from the most significant byte on.
unfoldable pub from_be : ℕ → List ℕ → ℕ
from_be acc [] = acc
from_be acc (b ∷ bs) = from_be (acc * 256 + b) bs

-- `new(big.Int).SetBytes(bs)`
abbrev pub set_bytes : List ℕ → ℕ
set_bytes bs = from_be 0 bs

-- The bytes of `n`, most significant first and with no leading zero.
unfoldable pub be_bytes : ℕ → ℕ → List ℕ
be_bytes zero n = []
be_bytes (suc f) zero = []
be_bytes (suc f) (suc n) = be_bytes f (suc n / 256) ++ (suc n % 256 ∷ [])

-- `n.Bytes()`: the number of bytes never exceeds the number.
unfoldable pub big_bytes : ℕ → List ℕ
unfolding be_bytes
big_bytes n = be_bytes n n

pub from_be-append :
    (acc : ℕ) (xs ys : List ℕ) → from_be acc (xs ++ ys) ≡ from_be (from_be acc xs) ys
unfolding from_be
from_be-append acc [] ys = refl
from_be-append acc (x ∷ xs) ys = from_be-append (acc * 256 + x) xs ys

pub from_be-snoc :
    (acc : ℕ) (xs : List ℕ) (y : ℕ) → from_be acc (xs ++ (y ∷ [])) ≡ from_be acc xs * 256 + y
unfolding from_be
from_be-snoc acc xs y = from_be-append acc xs (y ∷ [])

pub from_be-zeros : (k : ℕ) (xs : List ℕ) → from_be 0 (replicate k 0 ++ xs) ≡ from_be 0 xs
unfolding from_be
from_be-zeros zero xs = refl
from_be-zeros (suc k) xs = from_be-zeros k xs

from_be-be_bytes : (f n : ℕ) → n ≤ f → from_be 0 (be_bytes f n) ≡ n
unfolding from_be be_bytes
from_be-be_bytes zero n h = omega arith
from_be-be_bytes (suc f) zero h = refl
from_be-be_bytes (suc f) (suc n) h =
    from_be-snoc 0 (be_bytes f (suc n / 256)) (suc n % 256)
    ∙ omega (arith, from_be-be_bytes f (suc n / 256) (omega arith))

be_bytes-IsByte : (f n : ℕ) → All IsByte (be_bytes f n)
unfolding be_bytes
be_bytes-IsByte zero n = tt
be_bytes-IsByte (suc f) zero = tt
be_bytes-IsByte (suc f) (suc n) =
    All-append IsByte (be_bytes f (suc n / 256)) _ (be_bytes-IsByte f (suc n / 256)) (omega arith)

length-be_bytes : (k f n : ℕ) → n < 256 ^ k → length (be_bytes f n) ≤ k
unfolding be_bytes
length-be_bytes k zero n h = omega arith
length-be_bytes k (suc f) zero h = omega arith
length-be_bytes zero (suc f) (suc n) h = absurd (omega arith)
length-be_bytes (suc k) (suc f) (suc n) h = omega (
  arith,
  length-append (be_bytes f (suc n / 256)) (suc n % 256 ∷ []),
  length-be_bytes k f (suc n / 256) (omega arith),
)

-- Reading back what `Bytes` wrote.
pub set_bytes-big_bytes : (n : ℕ) → set_bytes (big_bytes n) ≡ n
unfolding big_bytes
set_bytes-big_bytes n = from_be-be_bytes n n (omega arith)

pub big_bytes-IsByte : (n : ℕ) → All IsByte (big_bytes n)
unfolding big_bytes
big_bytes-IsByte n = be_bytes-IsByte n n

pub length-big_bytes : (k n : ℕ) → n < 256 ^ k → length (big_bytes n) ≤ k
unfolding big_bytes
length-big_bytes k n h = length-be_bytes k n n h

pub length-big_bytes_pos : (n : ℕ) → 0 < n → 0 < length (big_bytes n)
unfolding big_bytes be_bytes
length-big_bytes_pos zero h = h
length-big_bytes_pos (suc n) h =
    omega (arith, length-append (be_bytes n (suc n / 256)) (suc n % 256 ∷ []))

scale : (a b p : ℕ) → b < 256 → (a * 256 + b + 1) * p ≤ (a + 1) * (p * 256)
scale a b p h = grind arith

-- A number read from bytes keeps within their length.
pub from_be-lt :
    (acc : ℕ) (bs : List ℕ) → All IsByte bs → from_be acc bs < (acc + 1) * 256 ^ length bs
unfolding from_be
from_be-lt acc [] h = omega arith
from_be-lt acc (b ∷ bs) (hb, h) =
    rw (pow-suc) (le_trans (from_be-lt (acc * 256 + b) bs h) (scale acc b (256 ^ length bs) hb))
