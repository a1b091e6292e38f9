-- ===== src/Rlp/Total.antt =====
-- `_Decode` on any input, well formed or not.
use thelonious.Base.{
  ℕ, zero, suc, ◌+◌, ◌-◌, ◌*◌, ◌%◌, ◌^◌, ◌<◌, ◌≤◌, ◌≡◌, refl, sym, ap, ◌∙◌, arith, List, [], ◌∷◌,
  length, ltb, Bool, true, false, Outcome, ok, panic, out_of_fuel, ◌>>=◌, index, get_elem?,
  Bool-cases, ◌⊎◌, inl, inr, none, some, slice_inv, index_inv,
}
use mathlib.Core.Path.{subst}
use thelonious.Base
use thelonious.Rlp.Values.{Value, Values, slice, empty, item}
use thelonious.Rlp.Decode.{
  add64, sub64, kind, Kind, direct, short_bytes, long_bytes, short_list, long_list, unsupported,
  decode_short_bytes, decode_long_bytes, index_within, decode_head, decode_at, decode_items, decode,
}

-- The call ended within its fuel: it panicked, or it gave a position in the range.
abbrev pub Ends : {A : Type 0} → ℕ → ℕ → Outcome (A × ℕ) → Type 0
Ends lo hi (ok (a, q)) = (lo ≤ q) × (q ≤ hi)
Ends lo hi panic = Unit
Ends lo hi out_of_fuel = ⊥

Ends-weaken :
    {A : Type 0} (lo lo' hi : ℕ) (r : Outcome (A × ℕ)) → lo ≤ lo' → Ends lo' hi r → Ends lo hi r
Ends-weaken lo lo' hi (ok (a, q)) h k = omega arith
Ends-weaken lo lo' hi panic h k = tt
Ends-weaken lo lo' hi out_of_fuel h k = k

Ends-slice :
    (lo hi : ℕ) (r : Outcome (Values × ℕ))
    → Ends lo hi r
    → Ends lo hi (r >>= λ (vs, q). ok (slice vs, q))
Ends-slice lo hi (ok (a, q)) k = k
Ends-slice lo hi panic k = tt
Ends-slice lo hi out_of_fuel k = k

-- What follows a slice expression runs only where the bounds are in order.
after_slice :
    (input : List ℕ) (a b lo hi : ℕ) (k : List ℕ → Outcome (Value × ℕ))
    → ((s : List ℕ) → a ≤ b → b ≤ length input → Ends lo hi (k s))
    → Ends lo hi (Base.slice input a b >>= k)
after_slice input a b lo hi k h = elim (slice_inv input a b) [
  | inl e ↦ rw e tt
  | inr (s, e, low, high) ↦ rw e (h s low high)
]

module _ (input : List ℕ) (pos : ℕ) (small : length input < 2 ^ 63)
    (inside : pos < length input) where
  decode_short_bytes-Ends : (b : ℕ) → Ends (pos + 1) (length input) (decode_short_bytes input pos b)
  unfolding decode_short_bytes add64
  decode_short_bytes-Ends b =
      after_slice input _ _ (pos + 1) (length input) _ (λ s low high. omega arith)

  decode_long_bytes-Ends : (b : ℕ) → Ends (pos + 1) (length input) (decode_long_bytes input pos b)
  unfolding decode_long_bytes add64
  decode_long_bytes-Ends b = after_slice input _ _ (pos + 1) (length input) _ (λ size low high.
      after_slice input _ _ (pos + 1) (length input) _ (λ s low' high'. omega arith))

  -- The switch, over a loop that ends from every position behind `pos`.
  module _ (items : ℕ → ℕ → ℕ → Outcome (Values × ℕ))
      (ends : (p b : ℕ) → pos < p → p ≤ length input → Ends p (length input) (items p 0 b)) where
    items-Ends :
        (p b : ℕ)
        → pos < p
        → p ≤ length input
        → Ends (pos + 1) (length input) (items p 0 b >>= λ (vs, q). ok (slice vs, q))
    items-Ends p b low high =
        Ends-slice (pos + 1) (length input) (items p 0 b)
          (Ends-weaken (pos + 1) p (length input) (items p 0 b) (omega arith) (ends p b low high))

    decode_head-Ends :
        (k : Kind) (char : ℕ) → Ends (pos + 1) (length input) (decode_head items k input pos char)
    unfolding add64
    decode_head-Ends direct char = omega arith
    decode_head-Ends short_bytes char = decode_short_bytes-Ends (char - 0x80)
    decode_head-Ends long_bytes char = decode_long_bytes-Ends (char - 0xb7)
    decode_head-Ends short_list char = items-Ends _ _ (omega arith) (omega arith)
    decode_head-Ends long_list char =
        after_slice input _ _ (pos + 1) (length input) _
          (λ size low high. items-Ends _ _ (omega arith) (omega arith))
    decode_head-Ends unsupported char = tt

-- The loop's next round, from what the item left.
next_round :
    (p hi : ℕ) (r : Outcome (Value × ℕ)) (k : ℕ → Outcome (Values × ℕ))
    → Ends (p + 1) hi r
    → ((q : ℕ) → p + 1 ≤ q → q ≤ hi → Ends q hi (k q))
    → Ends p hi (r >>= λ (v, q). k q >>= λ (vs, q'). ok (item v vs, q'))
next_round p hi (ok (v, q)) k e h = go (k q) (h q e.0 e.1)
  where
    go : (s : Outcome (Values × ℕ)) → Ends q hi s → Ends p hi (s >>= λ (vs, q'). ok (item v vs, q'))
    go (ok (vs, q')) t = omega arith
    go panic t = tt
    go out_of_fuel t = t
next_round p hi panic k e h = tt
next_round p hi out_of_fuel k e h = e

index_within_inv :
    (len : ℕ) (input : List ℕ) (p : ℕ)
    → (index_within len input p ≡ panic)
      ⊎ ((c : ℕ) × (index_within len input p ≡ ok c) × (p < length input))
unfolding index_within
index_within_inv len input p = elim (Bool-cases (ltb p len)) [
  | inr b ↦ inl (rw b refl)
  | inl b ↦ elim (index_inv input p) [
    | inl (e, _) ↦ inl (rw (b, e) refl)
    | inr (c, e, inside) ↦ inr (c, rw (b, e) refl, inside)
  ]
]

decode_at_panic :
    (f len : ℕ) (input : List ℕ) (p : ℕ)
    → index_within len input p ≡ panic
    → decode_at (suc f) len input p ≡ panic
unfolding decode_at
decode_at_panic f len input p e = rw e

decode_at_step :
    (f len : ℕ) (input : List ℕ) (p : ℕ) {c : ℕ}
    → index_within len input p ≡ ok c
    → decode_at (suc f) len input p ≡ decode_head (decode_items f len input) (kind c) input p c
unfolding decode_at
decode_at_step f len input p e = rw e

decode_items_done :
    (f len : ℕ) (input : List ℕ) (p i b : ℕ)
    → ltb i b ≡ false
    → decode_items (suc f) len input p i b ≡ ok (empty, p)
unfolding decode_items
decode_items_done f len input p i b h = ground arith

decode_items_step :
    (f len : ℕ) (input : List ℕ) (p i b : ℕ)
    → ltb i b ≡ true
    → decode_items (suc f) len input p i b ≡ (
        decode_at f len input p >>= λ (v, q).
        decode_items f len input q (add64 i (sub64 q p)) b >>= λ (vs, q'). ok (item v vs, q'))
unfolding decode_items
decode_items_step f len input p i b h = ground arith

mutual
  decode_at-Ends :
      (f len : ℕ) (input : List ℕ) (p : ℕ)
      → length input < 2 ^ 63
      → 2 * (length input - p) < f
      → Ends (p + 1) (length input) (decode_at f len input p)
  decode_at-Ends zero len input p small h = absurd (omega arith)
  decode_at-Ends (suc f) len input p small h = elim (index_within_inv len input p) [
    | inl e ↦ subst (Ends (p + 1) (length input)) (sym (decode_at_panic f len input p e)) tt
    | inr (char, e, inside) ↦
        subst (Ends (p + 1) (length input)) (sym (decode_at_step f len input p e)) (
          decode_head-Ends input p small inside (decode_items f len input)
            (λ q b low high. decode_items-Ends f len input q 0 b small high (omega arith))
            (kind char) char)
  ]

  decode_items-Ends :
      (f len : ℕ) (input : List ℕ) (p i b : ℕ)
      → length input < 2 ^ 63
      → p ≤ length input
      → suc (2 * (length input - p)) < f
      → Ends p (length input) (decode_items f len input p i b)
  decode_items-Ends zero len input p i b small inside h = absurd (omega arith)
  decode_items-Ends (suc f) len input p i b small inside h = elim (Bool-cases (ltb i b)) [
    | inl more ↦ subst (Ends p (length input)) (sym (decode_items_step f len input p i b more)) (
        next_round p (length input) (decode_at f len input p)
          (λ q. decode_items f len input q (add64 i (sub64 q p)) b)
          (decode_at-Ends f len input p small (omega arith))
          (λ q low high.
            decode_items-Ends f len input q (add64 i (sub64 q p)) b small high (omega arith)))
    | inr done ↦
        subst (Ends p (length input)) (sym (decode_items_done f len input p i b done)) (omega arith)
  ]

-- On every slice of an array below 2^63 bytes and at every position Decode ends: it panics, or gives
-- a later position no further than the end of the array, which is the slice's capacity.
pub decode-Ends :
    (len : ℕ) (input : List ℕ) (p : ℕ)
    → length input < 2 ^ 63
    → Ends (p + 1) (length input) (decode len input p)
unfolding decode
decode-Ends len input p small = decode_at-Ends _ len input p small (omega arith)
