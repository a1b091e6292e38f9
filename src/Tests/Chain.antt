-- ===== src/Tests/Chain.antt =====
-- State objects and state transitions at concrete inputs.
use thelonious.Base.{
  ℕ, ◌+◌, ◌-◌, ◌*◌, ◌<◌, ◌≤◌, ◌≡◌, ◌⊎◌, refl, arith, List, [], ◌∷◌, length, Bool, true, false,
  Option, some, none,
}
use thelonious.Base.Int.{ℤ, pos, ◌+ℤ◌, ltb_ℤ, neg_part}
use thelonious.State.Objects.{Account, add_amount, sub_amount, buy_gas, set_balance}
use thelonious.State.Accounts.{total, update, get_or_new, get_state_object, has}
use thelonious.Chain.Transition.{
  Tx, Evaluated, failed, returned, transition_state, buy, gas_value, balance_of,
}
use thelonious.Chain.Transition.Creations.{total-transition_state_creating}
use thelonious.Chain.Transition.Totals.{total-transition_state}

abbrev miner : Account
miner = record {
  address = 1;
  balance = pos 50;
  nonce = 0;
  gas_pool = 1000;
  code = [];
  init_code = [];
}

abbrev user : Account
user = record {
  address = 2;
  balance = pos 5000;
  nonce = 7;
  gas_pool = 0;
  code = [];
  init_code = [];
}

abbrev contract : Account
contract = record {
  address = 3;
  balance = pos 0;
  nonce = 0;
  gas_pool = 0;
  code = 0 ∷ 0 ∷ [];
  init_code = [];
}

abbrev accounts : List Account
accounts = miner ∷ user ∷ contract ∷ []

abbrev message : Tx
message = record {
  sender = 2;
  recipient = 3;
  creation_address = 9;
  creates = false;
  to_nobody = false;
  value = 100;
  gas = 600;
  gas_price = 2;
  input = [];
}

abbrev always : Tx → List Account → Bool
always tx cs = true

-- Code that fails, and code that a call fails in, both of which leave 40 of the gas.
abbrev broken : Tx → ℕ → List ℕ → ℕ → List Account → Evaluated
broken tx at code gas cs = failed cs 40

abbrev calling : Tx → ℕ → List ℕ → ℕ → List Account → Evaluated
calling tx at code gas cs = returned false cs 40 []

total-transition_state_example :
    total (transition_state always calling 1 message accounts).0 ≡ total accounts
total-transition_state_example =
    total-transition_state always calling 1 message accounts refl
      (λ bought d gas e f. ((refl, λ a h. h), (refl, λ a h. h)))

abbrev after_purchase : List Account
after_purchase = add_amount 1200 miner ∷ sub_amount 1200 user ∷ contract ∷ []

abbrev balance_after : List Account × Bool → ℤ
balance_after r = balance_of 2 r.0

-- The sender gets no refund where the code fails, and none where a call within it fails.
refund_lost :
    (balance_after (transition_state always broken 1 message accounts)
      ≡ balance_after (transition_state always calling 1 message accounts))
    × (balance_after (transition_state always calling 1 message accounts) +ℤ pos 1300
        ≡ balance_of 2 accounts)
unfolding transition_state buy gas_value balance_of get_or_new has get_state_object buy_gas
    add_amount sub_amount set_balance update thelonious.Base.Int.◌-ℤ◌ ◌+ℤ◌
refund_lost = (refl, refl)

abbrev creation : Tx
creation = record {
  sender = 2;
  recipient = 0;
  creation_address = 9;
  creates = true;
  to_nobody = true;
  value = 100;
  gas = 600;
  gas_price = 2;
  input = [];
}

purchase_of_creation : buy 1 creation accounts ≡ some after_purchase
unfolding buy gas_value balance_of get_or_new has get_state_object buy_gas add_amount sub_amount
    set_balance update
purchase_of_creation = refl

nobody_there : has 9 after_purchase ≡ false
unfolding has add_amount sub_amount set_balance
nobody_there = refl

total-transition_state_creating_example :
    (total (transition_state always broken 1 creation accounts).0 ≡ total accounts)
    ⊎ ((total (transition_state always broken 1 creation accounts).0 +ℤ pos 100 ≡ total accounts)
        × ((transition_state always broken 1 creation accounts).1 ≡ true))
total-transition_state_creating_example =
    total-transition_state_creating always broken 1 creation accounts after_purchase refl refl
      purchase_of_creation nobody_there (λ d gas e. ((refl, λ a h. h), (refl, λ a h. h)))
