-- ===== src/Chain/Transition/Creations.antt =====
-- What a transaction that creates a contract does to the sum of all balances.
use thelonious.Base.{
  true, ℕ, ◌≡◌, ◌⊎◌, refl, sym, ap, ◌∙◌, List, Bool, false, some, Bool-cases, inl, inr,
}
use mathlib.Core.Path.{subst}
use thelonious.Base.Int.{ℤ, pos, ◌+ℤ◌, ◌-ℤ◌, ltb_ℤ, int_laws}
use thelonious.State.Objects.{set_balance, Account, add_amount, sub_amount}
use thelonious.State.Accounts.{
  get_state_object, has, total, has-update, new-get_or_new, get_or_new, update, total,
  total-get_or_new, has-get_or_new, has-get_or_new_other,
}
use thelonious.Chain.Transition.{
  Tx, make_contract, fund, Evaluated, balance_of, buy, next_nonce, run_code, transfer,
  pay_and_transfer, finish, transition_state,
}
use thelonious.Chain.Transition.Totals.{
  run_code-IsBalanced, nonce-Holds, pay_and_transfer-IsBalanced, finish-total,
}
use thelonious.Chain.Transition.Balances.{
  Holds, Holds-update, Holds-add, Holds-sub, buy-Holds, Conserves, IsBalanced, stopped, plus_zero,
}

module _ (validate : Tx → List Account → Bool)
    (eval : Tx → ℕ → List ℕ → ℕ → List Account → Evaluated) (coinbase : ℕ) where
  funded-Holds :
      (t : ℤ) (tx : Tx) (cs : List Account)
      → Holds t tx.sender coinbase coinbase cs
      → has tx.creation_address cs ≡ false
      → let snap = update tx.sender (sub_amount tx.value) cs in
        Holds t tx.sender coinbase tx.creation_address (fund tx snap)
        × (total snap ≡ t +ℤ (pos 0 -ℤ pos tx.value))
  unfolding fund make_contract sub_amount set_balance
  funded-Holds t tx cs h fresh =
      let a = tx.creation_address in
      let less = t +ℤ (pos 0 -ℤ pos tx.value) in
      let snap = update tx.sender (sub_amount tx.value) cs in
      let one = Holds-sub t tx.sender coinbase coinbase tx.sender tx.value cs h h.1 in
      let none_there : has a snap ≡ false =
        has-update tx.sender a (sub_amount tx.value) cs (λ c e. e) ∙ fresh in
      let placed = get_or_new a snap in
      let two : Holds less tx.sender coinbase a placed = (
        total-get_or_new a snap ∙ one.0,
        has-get_or_new_other a tx.sender snap one.1,
        has-get_or_new_other a coinbase snap one.2,
        has-get_or_new a snap,
      ) in
      let three =
        Holds-update less (pos 0) tx.sender coinbase a a (λ c. record c { init_code = tx.input })
          placed two two.3 (λ c. refl) (λ c. sym (plus_zero c.balance)) in
      let four =
        Holds-add (less +ℤ pos 0) tx.sender coinbase a a tx.value
          (update a (λ c. record c { init_code = tx.input }) placed) three three.3 in
      let back : less +ℤ pos 0 +ℤ pos tx.value ≡ t = omega int_laws in
      let all : Holds t tx.sender coinbase a (
          update a (add_amount tx.value)
            (update a (λ c. record c { init_code = tx.input }) placed)) =
        (four.0 ∙ back, four.1, four.2, four.3) in
      (rw (new-get_or_new a snap none_there) all, one.0)

  creation-IsBalanced :
      (t : ℤ) (gas : ℕ) (tx : Tx) (cs : List Account)
      → tx.creates ≡ true
      → Holds t tx.sender coinbase coinbase cs
      → has tx.creation_address cs ≡ false
      → let made = fund tx (update tx.sender (sub_amount tx.value) cs) in
        ((d : Account)
          → get_state_object tx.creation_address made ≡ some d
          → Conserves made (eval tx tx.creation_address d.init_code gas made)
            × Conserves made (eval tx tx.creation_address d.code gas made))
        → (b : ℕ) × IsBalanced t
            (t +ℤ (pos 0 -ℤ pos tx.value))
            tx.sender
            coinbase
            b
            (transfer validate eval coinbase tx gas cs)
  unfolding transfer
  creation-IsBalanced t gas tx cs n h fresh fair =
      let u = t +ℤ (pos 0 -ℤ pos tx.value) in
      elim (Bool-cases (ltb_ℤ (balance_of tx.sender cs) (pos tx.value))) [
        | inl e ↦
            let q : transfer validate eval coinbase tx gas cs ≡ stopped gas cs =
              rw (e, transfer) refl in
            (coinbase, subst (IsBalanced t u tx.sender coinbase coinbase) (sym q) (h, tt))
        | inr e ↦
            let snap = update tx.sender (sub_amount tx.value) cs in
            let a = tx.creation_address in
            let made = funded-Holds t tx cs h fresh in
            let q : transfer validate eval coinbase tx gas cs
                ≡ run_code validate eval coinbase tx a gas snap (fund tx snap) =
              rw (e, transfer) (rw n refl) in
            (
              a,
              subst (IsBalanced t u tx.sender coinbase a) (sym q) (
                  run_code-IsBalanced validate eval coinbase t u tx.sender coinbase a gas tx snap
                    (fund tx snap) made.1 made.0 fair),
            )
      ]

  -- A transaction that creates a contract at an address that no account has, once the gas is bought,
  -- leaves the sum of all balances as it was, or fails with the value gone from it: the snapshot that
  -- failing init code is undone to already lacks the value. The code of the new contract, on the
  -- accounts that it is run on and whatever the gas, is to move value and delete no account.
  pub total-transition_state_creating :
      (tx : Tx) (cs bought : List Account)
      → tx.creates ≡ true
      → validate tx cs ≡ true
      → buy coinbase tx cs ≡ some bought
      → has tx.creation_address bought ≡ false
      → ((d : Account) (gas : ℕ)
          → let made =
              fund tx
                (update tx.sender (sub_amount tx.value) (update tx.sender next_nonce bought)) in
            get_state_object tx.creation_address made ≡ some d
            → Conserves made (eval tx tx.creation_address d.init_code gas made)
              × Conserves made (eval tx tx.creation_address d.code gas made))
      → (total (transition_state validate eval coinbase tx cs).0 ≡ total cs)
        ⊎ ((total (transition_state validate eval coinbase tx cs).0 +ℤ pos tx.value ≡ total cs)
            × ((transition_state validate eval coinbase tx cs).1 ≡ true))
  unfolding transition_state next_nonce
  total-transition_state_creating tx cs cs' n v e fresh fair =
      let t = total cs in
      let u = t +ℤ (pos 0 -ℤ pos tx.value) in
      let bought = buy-Holds t coinbase tx cs cs' refl e in
      let ready = nonce-Holds validate eval coinbase t tx cs' bought in
      let still = has-update tx.sender tx.creation_address next_nonce cs' (λ c q. q) ∙ fresh in
      let paid = pay_and_transfer-IsBalanced validate eval coinbase t u tx cs' bought (λ gas.
        creation-IsBalanced t gas tx (update tx.sender next_nonce cs') n ready still
          (λ d. fair d gas)) in
      let r = pay_and_transfer validate eval coinbase tx cs' in
      let done : transition_state validate eval coinbase tx cs
          ≡ finish validate eval coinbase tx r =
        rw (v, transition_state) (rw e refl) in
      let back : u +ℤ pos tx.value ≡ t = omega int_laws in
      elim (finish-total validate eval coinbase t u paid.0 tx r paid.1) [
        | inl q ↦ inl (ap (λ s. total s.0) done ∙ q)
        | inr (q, err) ↦ inr (
          ap (λ s. total s.0 +ℤ pos tx.value) done ∙ (ap (λ z. z +ℤ pos tx.value) q ∙ back),
          ap (λ s. s.1) done ∙ err,
        )
      ]
