-- ===== src/Chain/Transition.antt =====
-- monkchain/state_transition.go, the application of a transaction to the state. Parameters stand for
-- the permission model (genDoug.ValidateTx) and for the virtual machine with the messages that it
-- leaves (Eval). `Sender`, `Coinbase` and `Receiver` cache pointers to objects of the state, so they
-- are addresses here, of the accounts that the transition started on.
pub mod Balances
pub mod Totals
pub mod Creations
use thelonious.Base.{
  ℕ, ◌+◌, ◌*◌, ◌-◌, ◌%◌, ◌^◌, List, [], ◌∷◌, length, ltb, if◌then◌else◌, Bool, true, false, Option,
  none, some,
}
use thelonious.Base.Int.{ℤ, pos, ltb_ℤ}
use thelonious.State.Objects.{Account, add_amount, sub_amount, buy_gas, refund_gas}
use thelonious.State.Accounts.{get_state_object, get_or_new, new_state_object, update}

abbrev pub gas_tx : ℕ
gas_tx = 500

abbrev pub gas_data : ℕ
gas_data = 5

-- `creates` is `contractCreation`, `to_nobody` that the recipient has no bytes, and
-- `creation_address` is CreationAddress().
pub record Tx : Type 0 where
  pub sender : ℕ
  pub recipient : ℕ
  pub creation_address : ℕ
  pub creates : Bool
  pub to_nobody : Bool
  pub value : ℕ
  pub gas : ℕ
  pub gas_price : ℕ
  pub input : List ℕ

unfoldable pub gas_value : Tx → ℕ
gas_value tx = tx.gas * tx.gas_price

-- What Eval does to the accounts and to the gas, with what it returns, its error or its panic. The
-- first part says whether the state still holds the objects that it held before: a CALL or a CREATE
-- that fails within the code sets the state to a copy of it.
pub data Evaluated : Type 0 where
  returned : Bool → List Account → ℕ → List ℕ → Evaluated
  failed : List Account → ℕ → Evaluated
  panicked : Bool → List Account → ℕ → Evaluated

-- The accounts of the state, whether they are the objects that the pointers reach, the gas left, the
-- snapshot that the state was set to afterwards, if any, and whether there is an error.
pub record Run : Type 0 where
  pub accounts : List Account
  pub reached : Bool
  pub gas : ℕ
  pub snapshot : Option (List Account)
  pub has_error : Bool

-- `none` is OutOfGasError.
unfoldable pub use_gas : ℕ → ℕ → Option ℕ
use_gas amount gas = if ltb gas amount then none else some (gas - amount)

unfoldable pub balance_of : ℕ → List Account → ℤ
balance_of a cs = elim (get_state_object a cs) [ none ↦ pos 0 | some c ↦ c.balance ]

-- The coinbase sells the gas to the sender; `none` is an error of either.
unfoldable pub buy : ℕ → Tx → List Account → Option (List Account)
unfolding balance_of gas_value
buy coinbase tx cs0 =
    let cs = get_or_new tx.sender cs0 in
    if ltb_ℤ (balance_of tx.sender cs) (pos (gas_value tx))
    then none
    else elim (get_state_object coinbase cs) [
      | none ↦ none
      | some c ↦ elim (buy_gas tx.gas tx.gas_price c) [
        | none ↦ none
        | some d ↦ some (update tx.sender (sub_amount (gas_value tx)) (update coinbase (λ e. d) cs))
      ]
    ]

unfoldable pub refund : ℕ → Tx → ℕ → List Account → List Account
refund coinbase tx gas cs =
    update tx.sender (add_amount (gas * tx.gas_price))
      (update coinbase (refund_gas gas tx.gas_price) cs)

unfoldable pub next_nonce : Account → Account
next_nonce c = record c { nonce = (c.nonce + 1) % 2 ^ 64 }

unfoldable pub make_contract : Tx → List Account → List Account
make_contract tx cs =
    update tx.creation_address (λ c. record c { init_code = tx.input })
      (new_state_object tx.creation_address cs)

-- `receiver.AddAmount` of the value, on the new contract, and the move of it to the recipient.
unfoldable pub fund : Tx → List Account → List Account
unfolding make_contract
fund tx snap = update tx.creation_address (add_amount tx.value) (make_contract tx snap)

unfoldable pub move_value : Tx → List Account → List Account
move_value tx cs =
    update tx.recipient (add_amount tx.value)
      (update tx.sender (sub_amount tx.value) (get_or_new tx.recipient cs))

-- Where nothing sets the state to a snapshot.
abbrev pub run_to : Bool → List Account → ℕ → Bool → Run
run_to reached cs gas has_error = record {
  accounts = cs;
  reached = reached;
  gas = gas;
  snapshot = none;
  has_error = has_error;
}

abbrev pub undone : List Account → List Account → ℕ → Run
undone snap cs gas = record {
  accounts = cs;
  reached = false;
  gas = gas;
  snapshot = some snap;
  has_error = true;
}

-- What follows the evaluation of init code: an error sets the state to the snapshot. The code goes to
-- the object that the receiver was.
unfoldable pub settle_init : ℕ → List Account → Evaluated → Run
settle_init receiver snap (returned reached cs gas code) =
    run_to reached (if reached then update receiver (λ c. record c { code = code }) cs else cs) gas
      false
settle_init receiver snap (failed cs gas) = undone snap cs gas
settle_init receiver snap (panicked reached cs gas) = run_to reached cs gas true

-- And of the code of the receiver.
unfoldable pub settle_code : List Account → Evaluated → Run
settle_code snap (returned reached cs gas ret) = run_to reached cs gas false
settle_code snap (failed cs gas) = undone snap cs gas
settle_code snap (panicked reached cs gas) = run_to reached cs gas true

module _ (validate : Tx → List Account → Bool)
    (eval : Tx → ℕ → List ℕ → ℕ → List Account → Evaluated) (coinbase : ℕ) where
  -- The code of the receiver, or its init code, with the snapshot to go back to.
  unfoldable pub run_code : Tx → ℕ → ℕ → List Account → List Account → Run
  unfolding get_state_object settle_init settle_code
  run_code tx receiver gas snap cs = elim (get_state_object receiver cs) [
    | none ↦ run_to true cs gas false
    | some c ↦
        if tx.to_nobody
        then settle_init receiver snap (eval tx receiver c.init_code gas cs)
        else if ltb 0 (length c.code)
        then settle_code snap (eval tx receiver c.code gas cs)
        else run_to true cs gas false
  ]

  -- The transfer of the value and the code; `sender` has bought the gas.
  unfoldable pub transfer : Tx → ℕ → List Account → Run
  unfolding balance_of run_code fund move_value
  transfer tx gas cs =
      if ltb_ℤ (balance_of tx.sender cs) (pos tx.value)
      then run_to true cs gas true
      else if tx.creates
      then (let snap = update tx.sender (sub_amount tx.value) cs in
          run_code tx tx.creation_address gas snap (fund tx snap))
      else run_code tx tx.recipient gas (move_value tx cs) (move_value tx cs)

  unfoldable pub pay_and_transfer : Tx → List Account → Run
  unfolding use_gas transfer next_nonce
  pay_and_transfer tx cs0 =
      let cs = update tx.sender next_nonce cs0 in
      elim (use_gas gas_tx tx.gas) [
        | none ↦ run_to true cs tx.gas true
        | some gas1 ↦ elim (use_gas (length tx.input * gas_data) gas1) [
          | none ↦ run_to true cs gas1 true
          | some gas2 ↦ transfer tx gas2 cs
        ]
      ]

  -- The deferred refund goes to the objects that the pointers reach, not to those of a snapshot.
  unfoldable pub finish : Tx → Run → List Account × Bool
  unfolding refund
  finish tx r = (
    elim r.snapshot [
      | none ↦ if r.reached then refund coinbase tx r.gas r.accounts else r.accounts
      | some snap ↦ snap
    ],
    r.has_error,
  )

  -- The accounts of the state afterwards, and whether there is an error.
  unfoldable pub transition_state : Tx → List Account → List Account × Bool
  unfolding buy pay_and_transfer finish
  transition_state tx cs =
      if validate tx cs
      then elim (buy coinbase tx cs) [
        | none ↦ (get_or_new tx.sender cs, true)
        | some cs' ↦ finish tx (pay_and_transfer tx cs')
      ]
      else (cs, true)
