-- ===== src/Chain/Rewards/Balances.antt =====
-- monkchain/block_manager.go: what a reward does to the balance at each address.
use thelonious.Base.{
  ℕ, List, [], ◌∷◌, ◌++◌, ◌==◌, if◌then◌else◌, true, false, ◌≡◌, refl, sym, ap, ◌∙◌, inl, inr,
  Bool-cases, arith,
}
use thelonious.Base.Int.{ℤ, pos, ◌+ℤ◌, int_laws}
use thelonious.State.Objects.{Account, new_account, add_amount, set_balance}
use thelonious.State.Accounts.{get_state_object, update, has, get_or_new, has-get_or_new}
use thelonious.Chain.Transition.{balance_of}
use thelonious.Chain.Rewards.{credit}

-- What an address gets of an amount that goes to another, or to itself.
abbrev pub part : ℕ → ℕ → ℕ → ℕ
part a b n = if a == b then n else 0

plus_zero : (z : ℤ) → z ≡ z +ℤ pos 0
plus_zero z = omega int_laws

part-same : (a b n : ℕ) → a ≡ b → part a b n ≡ n
part-same a b n e = ground (arith, e)

part-other : (a b c n : ℕ) → (c == a) ≡ true → (c == b) ≡ false → part a b n ≡ 0
part-other a b c n e f = ground (arith, e, f)

part-elsewhere : (a b c n : ℕ) → (c == a) ≡ false → (c == b) ≡ true → part a b n ≡ 0
part-elsewhere a b c n e f = ground (arith, e, f)

with_nothing : (z : ℤ) (k : ℕ) → k ≡ 0 → z ≡ z +ℤ pos k
with_nothing z k e = plus_zero z ∙ ap (λ n. z +ℤ pos n) (sym e)

balance_of-update :
    (a b n : ℕ) (cs : List Account)
    → has a cs ≡ true
    → balance_of b (update a (add_amount n) cs) ≡ balance_of b cs +ℤ pos (part a b n)
unfolding balance_of get_state_object update has add_amount set_balance
balance_of-update a b n [] h = let f : false ≡ true = h in absurd (cc)
balance_of-update a b n (c ∷ cs) h = elim (Bool-cases (c.address == a)) [
  | inl e ↦ elim (Bool-cases (c.address == b)) [
    | inl f ↦
        rw (e, f, balance_of)
          (ap (λ k. c.balance +ℤ pos k) (sym (part-same a b n (same c.address e f))))
    | inr f ↦ rw (e, f, balance_of) (with_nothing _ (part a b n) (part-other a b c.address n e f))
  ]
  | inr e ↦ elim (Bool-cases (c.address == b)) [
    | inl f ↦
        rw (e, f, balance_of) (with_nothing _ (part a b n) (part-elsewhere a b c.address n e f))
    | inr f ↦ rw (e, f, balance_of) (balance_of-update a b n cs (rw e at h))
  ]
]
  where
    same : (c : ℕ) → (c == a) ≡ true → (c == b) ≡ true → a ≡ b
    same c e f = ground (arith, e, f)

balance_of-append :
    (a b : ℕ) (cs : List Account) → balance_of b (cs ++ (new_account a ∷ [])) ≡ balance_of b cs
unfolding balance_of get_state_object new_account
balance_of-append a b [] = elim (Bool-cases (a == b)) [
  | inl e ↦ rw (e, balance_of) refl
  | inr e ↦ rw (e, balance_of) refl
]
balance_of-append a b (c ∷ cs) = elim (Bool-cases (c.address == b)) [
  | inl e ↦ rw (e, balance_of) refl
  | inr e ↦ rw (e, balance_of) (balance_of-append a b cs)
]

pub balance_of-credit :
    (a b n : ℕ) (cs : List Account)
    → balance_of b (credit a n cs) ≡ balance_of b cs +ℤ pos (part a b n)
unfolding credit
balance_of-credit a b n cs =
    balance_of-update a b n (get_or_new a cs) (has-get_or_new a cs)
    ∙ ap (λ z. z +ℤ pos (part a b n)) (made cs)
  where
    made : (cs : List Account) → balance_of b (get_or_new a cs) ≡ balance_of b cs
    made cs = elim (Bool-cases (has a cs)) [
      | inl e ↦ rw (e, get_or_new) refl
      | inr e ↦ rw (e, get_or_new) (balance_of-append a b cs)
    ]
