-- ===== src/State/Objects.antt =====
-- monkstate/state_object.go: balance, gas pool, nonce and code of a state object. A balance may go
-- below zero; gas, prices, amounts and the gas pool are not negative. Addresses are numbers.
use thelonious.Base.{
  ℕ, ◌+◌, ◌*◌, ◌≤◌, ◌≡◌, refl, arith, List, [], ltb, if◌then◌else◌, true, Option, none, some, ◌∙◌,
  sym, Bool-cases, inl, inr, ◌⊎◌,
}
use mathlib.Core.Path.{subst}
use thelonious.Base.Int.{ℤ, pos, ◌+ℤ◌, ◌-ℤ◌, ltb_ℤ, int_laws, +ℤ_cancel, -ℤ-enough, neg_part}

pub record Account : Type 0 where
  pub address : ℕ
  pub balance : ℤ
  pub nonce : ℕ
  pub gas_pool : ℕ
  pub code : List ℕ
  pub init_code : List ℕ

unfoldable pub new_account : ℕ → Account
new_account a = record {
  address = a;
  balance = pos 0;
  nonce = 0;
  gas_pool = 0;
  code = [];
  init_code = [];
}

unfoldable pub set_balance : ℤ → Account → Account
set_balance amount c = record c { balance = amount }

unfoldable pub add_amount : ℕ → Account → Account
unfolding set_balance
add_amount amount c = set_balance (c.balance +ℤ pos amount) c

unfoldable pub sub_amount : ℕ → Account → Account
unfolding set_balance
sub_amount amount c = set_balance (c.balance -ℤ pos amount) c

-- `none` is the error of insufficient amount.
unfoldable pub convert_gas : ℕ → ℕ → Account → Option Account
unfolding sub_amount
convert_gas gas price c =
    if ltb_ℤ c.balance (pos (gas * price)) then none else some (sub_amount (gas * price) c)

unfoldable pub set_gas_pool : ℕ → Account → Account
set_gas_pool limit c = record c { gas_pool = limit }

-- `none` is the GasLimitError.
unfoldable pub buy_gas : ℕ → ℕ → Account → Option Account
unfolding add_amount
buy_gas gas price c = if ltb c.gas_pool gas then none else some (add_amount (gas * price) c)

unfoldable pub refund_gas : ℕ → ℕ → Account → Account
refund_gas gas price c = record c {
  gas_pool = c.gas_pool + gas;
  balance = c.balance -ℤ pos (gas * price);
}

-- Gas that was bought and is refunded at the price leaves the balance as it was and the gas pool
-- larger by that gas, which buying did not take from it.
refund_gas-buy_gas :
    (gas price : ℕ) (c d : Account)
    → buy_gas gas price c ≡ some d
    → ((refund_gas gas price d).balance ≡ c.balance)
      × ((refund_gas gas price d).gas_pool ≡ c.gas_pool + gas)
      × (d.gas_pool ≡ c.gas_pool)
      × (gas ≤ c.gas_pool)
unfolding buy_gas refund_gas add_amount set_balance
refund_gas-buy_gas gas price c d e = elim (Bool-cases (ltb c.gas_pool gas)) [
  | inl b ↦ cc
  | inr b ↦
      let f : some (add_amount (gas * price) c) ≡ some d = sym (rw b) ∙ e in
      let enough : gas ≤ c.gas_pool = ground arith in
      let same : add_amount (gas * price) c ≡ d = cc in
      subst
        (λ d.
          (d.balance -ℤ pos (gas * price) ≡ c.balance)
          × (d.gas_pool + gas ≡ c.gas_pool + gas)
          × (d.gas_pool ≡ c.gas_pool)
          × (gas ≤ c.gas_pool))
        same (+ℤ_cancel c.balance (pos (gas * price)), refl, refl, enough)
]

-- Converting gas fails exactly when the price of it is above the balance, and leaves a balance that is
-- not negative otherwise.
convert_gas_lem :
    (gas price : ℕ) (c : Account)
    → ((convert_gas gas price c ≡ none) × (ltb_ℤ c.balance (pos (gas * price)) ≡ true))
      ⊎ ((d : Account) × (convert_gas gas price c ≡ some d)
          × (d.balance +ℤ pos (gas * price) ≡ c.balance)
          × (neg_part d.balance ≡ 0))
unfolding convert_gas sub_amount set_balance
convert_gas_lem gas price c = elim (Bool-cases (ltb_ℤ c.balance (pos (gas * price)))) [
  | inl b ↦ inl (rw b, b)
  | inr b ↦
      inr (sub_amount (gas * price) c, rw b, omega int_laws, -ℤ-enough c.balance (gas * price) b)
]
