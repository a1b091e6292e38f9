-- ===== src/Chain/Transition/Totals.antt =====
-- What a transaction does to the sum of all balances.
use thelonious.Base.{
  true, ℕ, ◌*◌, ◌≡◌, ◌⊎◌, refl, sym, ap, ◌∙◌, List, length, ltb, Bool, false, Option, none, some,
  if◌then◌else◌, Bool-cases, Option-cases, inl, inr,
}
use mathlib.Core.Path.{subst}
use thelonious.Base.Int.{ℤ, pos, ◌+ℤ◌, ◌-ℤ◌, ltb_ℤ, int_laws}
use thelonious.State.Objects.{Account, sub_amount}
use thelonious.State.Accounts.{
  get_state_object, get_or_new, update, total, total-get_or_new, has-get_or_new,
  has-get_or_new_other,
}
use thelonious.Chain.Transition.{
  Tx, Evaluated, Run, run_to, move_value, balance_of, use_gas, buy, refund, next_nonce, settle_init,
  settle_code, run_code, transfer, pay_and_transfer, finish, transition_state, gas_tx, gas_data,
}
use thelonious.Chain.Transition.Balances.{
  Holds, Holds-update, Holds-add, Holds-sub, refund-Holds, buy-Holds, Conserves, Kept, IsBalanced,
  settle_init-IsBalanced, settle_code-IsBalanced, stopped, plus_zero,
}

module _ (validate : Tx → List Account → Bool)
    (eval : Tx → ℕ → List ℕ → ℕ → List Account → Evaluated) (coinbase : ℕ) where
  run_code_cases :
      (c gas : ℕ) (tx : Tx) (snap cs : List Account)
      → let r = run_code validate eval coinbase tx c gas snap cs in
        (r ≡ run_to true cs gas false)
        ⊎ (((d : Account) × (get_state_object c cs ≡ some d)
              × (r ≡ settle_init c snap (eval tx c d.init_code gas cs)))
            ⊎ ((d : Account) × (get_state_object c cs ≡ some d)
                × (r ≡ settle_code snap (eval tx c d.code gas cs))))
  unfolding run_code
  run_code_cases c gas tx snap cs = elim (Option-cases (get_state_object c cs)) [
    | inl e ↦ inl (rw (e, run_code) refl)
    | inr (d, e) ↦ elim (Bool-cases tx.to_nobody) [
      | inl n ↦ inr (inl (d, e, rw (e, run_code) (rw n refl)))
      | inr n ↦ elim (Bool-cases (ltb 0 (length d.code))) [
        | inl l ↦ inr (inr (d, e, rw (e, run_code) (rw n (rw l refl))))
        | inr l ↦ inl (rw (e, run_code) (rw n (rw l refl)))
      ]
    ]
  ]

  pub run_code-IsBalanced :
      (t u : ℤ) (a b c gas : ℕ) (tx : Tx) (snap cs : List Account)
      → total snap ≡ u
      → Holds t a b c cs
      → ((d : Account)
          → get_state_object c cs ≡ some d
          → Conserves cs (eval tx c d.init_code gas cs) × Conserves cs (eval tx c d.code gas cs))
      → IsBalanced t u a b c (run_code validate eval coinbase tx c gas snap cs)
  run_code-IsBalanced t u a b c gas tx snap cs s h fair = elim (run_code_cases c gas tx snap cs) [
    | inl e ↦ subst (IsBalanced t u a b c) (sym e) (h, tt)
    | inr (inl (d, g, e)) ↦
        subst (IsBalanced t u a b c) (sym e)
          (settle_init-IsBalanced t u a b c snap cs (eval tx c d.init_code gas cs) s h (fair d g).0)
    | inr (inr (d, g, e)) ↦
        subst (IsBalanced t u a b c) (sym e)
          (settle_code-IsBalanced t u a b c snap cs (eval tx c d.code gas cs) s h (fair d g).1)
  ]

  moved-Holds :
      (t : ℤ) (tx : Tx) (cs : List Account)
      → Holds t tx.sender coinbase coinbase cs
      → Holds t tx.sender coinbase tx.recipient (move_value tx cs)
  unfolding move_value
  moved-Holds t tx cs h =
      let all = get_or_new tx.recipient cs in
      let start : Holds t tx.sender coinbase tx.recipient all = (
        total-get_or_new tx.recipient cs ∙ h.0,
        has-get_or_new_other tx.recipient tx.sender cs h.1,
        has-get_or_new_other tx.recipient coinbase cs h.2,
        has-get_or_new tx.recipient cs,
      ) in
      let one = Holds-sub t tx.sender coinbase tx.recipient tx.sender tx.value all start start.1 in
      let two =
        Holds-add (t +ℤ (pos 0 -ℤ pos tx.value)) tx.sender coinbase tx.recipient tx.recipient
          tx.value (update tx.sender (sub_amount tx.value) all) one one.3 in
      let back : t +ℤ (pos 0 -ℤ pos tx.value) +ℤ pos tx.value ≡ t = omega int_laws in
      (two.0 ∙ back, two.1, two.2, two.3)

  -- A message: the value goes from the sender to the recipient.
  transfer-IsBalanced :
      (t : ℤ) (gas : ℕ) (tx : Tx) (cs : List Account)
      → tx.creates ≡ false
      → Holds t tx.sender coinbase coinbase cs
      → ((d : Account)
          → get_state_object tx.recipient (move_value tx cs) ≡ some d
          → Conserves (move_value tx cs) (eval tx tx.recipient d.init_code gas (move_value tx cs))
            × Conserves (move_value tx cs) (eval tx tx.recipient d.code gas (move_value tx cs)))
      → (b : ℕ) × IsBalanced t t tx.sender coinbase b (transfer validate eval coinbase tx gas cs)
  unfolding transfer
  transfer-IsBalanced t gas tx cs n h fair =
      elim (Bool-cases (ltb_ℤ (balance_of tx.sender cs) (pos tx.value))) [
        | inl e ↦
            let q : transfer validate eval coinbase tx gas cs ≡ stopped gas cs =
              rw (e, transfer) refl in
            (coinbase, subst (IsBalanced t t tx.sender coinbase coinbase) (sym q) (h, tt))
        | inr e ↦
            let m = move_value tx cs in
            let q : transfer validate eval coinbase tx gas cs
                ≡ run_code validate eval coinbase tx tx.recipient gas m m =
              rw (e, transfer) (rw n refl) in
            (
              tx.recipient,
              subst (IsBalanced t t tx.sender coinbase tx.recipient) (sym q) (
                  run_code-IsBalanced t t tx.sender coinbase tx.recipient gas tx m m
                    (moved-Holds t tx cs h).0 (moved-Holds t tx cs h) fair),
            )
      ]

  pub nonce-Holds :
      (t : ℤ) (tx : Tx) (cs : List Account)
      → Holds t tx.sender coinbase coinbase cs
      → Holds t tx.sender coinbase coinbase (update tx.sender next_nonce cs)
  unfolding next_nonce
  nonce-Holds t tx cs h =
      subst (λ t. Holds t tx.sender coinbase coinbase (update tx.sender next_nonce cs))
        (plus_zero t)
        (Holds-update t (pos 0) tx.sender coinbase coinbase tx.sender next_nonce cs h h.1
          (λ d. refl) (λ d. sym (plus_zero d.balance)))

  pub pay_and_transfer-IsBalanced :
      (t u : ℤ) (tx : Tx) (cs : List Account)
      → Holds t tx.sender coinbase coinbase cs
      → ((gas : ℕ)
          → (b : ℕ) × IsBalanced t u tx.sender coinbase b
              (transfer validate eval coinbase tx gas (update tx.sender next_nonce cs)))
      → (b : ℕ) × IsBalanced t u tx.sender coinbase b
          (pay_and_transfer validate eval coinbase tx cs)
  unfolding pay_and_transfer
  pay_and_transfer-IsBalanced t u tx cs0 h0 sends =
      let cs = update tx.sender next_nonce cs0 in
      let h = nonce-Holds t tx cs0 h0 in
      elim (Option-cases (use_gas gas_tx tx.gas)) [
        | inl e ↦
            let q : pay_and_transfer validate eval coinbase tx cs0 ≡ stopped tx.gas cs =
              rw (e, pay_and_transfer) refl in
            (coinbase, subst (IsBalanced t u tx.sender coinbase coinbase) (sym q) (h, tt))
        | inr (g, e) ↦ elim (Option-cases (use_gas (length tx.input * gas_data) g)) [
          | inl e1 ↦
              let q : pay_and_transfer validate eval coinbase tx cs0 ≡ stopped g cs =
                rw (e, pay_and_transfer) (rw e1 refl) in
              (coinbase, subst (IsBalanced t u tx.sender coinbase coinbase) (sym q) (h, tt))
          | inr (g2, e1) ↦
              let done = sends g2 in
              let q : pay_and_transfer validate eval coinbase tx cs0
                  ≡ transfer validate eval coinbase tx g2 cs =
                rw (e, pay_and_transfer) (rw e1 refl) in
              (done.0, subst (IsBalanced t u tx.sender coinbase done.0) (sym q) done.1)
        ]
      ]

  pub finish-total :
      (t u : ℤ) (b : ℕ) (tx : Tx) (r : Run)
      → IsBalanced t u tx.sender coinbase b r
      → (total (finish validate eval coinbase tx r).0 ≡ t)
        ⊎ ((total (finish validate eval coinbase tx r).0 ≡ u)
            × ((finish validate eval coinbase tx r).1 ≡ true))
  unfolding finish
  finish-total t u b tx r h = go r.snapshot h.1
    where
      go :
          (o : Option (List Account))
          → Kept u o r.has_error
          → let left : List Account = elim o [
            | none ↦ if r.reached then refund coinbase tx r.gas r.accounts else r.accounts
            | some snap ↦ snap
          ] in
            (total left ≡ t) ⊎ ((total left ≡ u) × (r.has_error ≡ true))
      go none k = elim (Bool-cases r.reached) [
        | inl e ↦ inl (rw e (refund-Holds t coinbase b r.gas tx r.accounts h.0).0)
        | inr e ↦ inl (rw e h.0.0)
      ]
      go (some snap) k = inr k

  -- A transaction that creates no contract leaves the sum of all balances as it was, whether it is
  -- invalid, fails or succeeds, also where a call within the code fails, if the code of the
  -- recipient, on the accounts that it is run on and whatever the gas, moves value and deletes no
  -- account.
  pub total-transition_state :
      (tx : Tx) (cs : List Account)
      → tx.creates ≡ false
      → ((bought : List Account) (d : Account) (gas : ℕ)
          → buy coinbase tx cs ≡ some bought
          → let arrived = move_value tx (update tx.sender next_nonce bought) in
            get_state_object tx.recipient arrived ≡ some d
            → Conserves arrived (eval tx tx.recipient d.init_code gas arrived)
              × Conserves arrived (eval tx tx.recipient d.code gas arrived))
      → total (transition_state validate eval coinbase tx cs).0 ≡ total cs
  unfolding transition_state
  total-transition_state tx cs n fair = elim (Bool-cases (validate tx cs)) [
    | inr v ↦ ap total (rw (v, transition_state) refl)
    | inl v ↦ elim (Option-cases (buy coinbase tx cs)) [
      | inl e ↦ rw (v, transition_state) (rw e (total-get_or_new tx.sender cs))
      | inr (cs', e) ↦
          let t = total cs in
          let bought = buy-Holds t coinbase tx cs cs' refl e in
          let ready = nonce-Holds t tx cs' bought in
          let paid = pay_and_transfer-IsBalanced t t tx cs' bought (λ gas.
            transfer-IsBalanced t gas tx (update tx.sender next_nonce cs') n ready
              (λ d. fair cs' d gas e)) in
          let r = pay_and_transfer validate eval coinbase tx cs' in
          let same : total (finish validate eval coinbase tx r).0 ≡ t =
            elim (finish-total t t paid.0 tx r paid.1) [ inl q ↦ q | inr q ↦ q.0 ] in
          rw (v, transition_state) (rw e same)
    ]
  ]
