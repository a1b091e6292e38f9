-- ===== src/Chain/Transition/Balances.antt =====
-- The sum of all balances after each part of a transaction: gas bought and refunded, amounts moved,
-- and what follows the evaluation of code.
use thelonious.Base.{
  Bool, false, ℕ, ◌*◌, ◌≡◌, refl, sym, ap, ◌∙◌, List, ltb, true, Option, none, some, Bool-cases,
  Option-cases, inl, inr,
}
use mathlib.Core.Path.{subst}
use thelonious.Base.Int.{ℤ, pos, ◌+ℤ◌, ◌-ℤ◌, ltb_ℤ, int_laws}
use thelonious.State.Objects.{Account, add_amount, sub_amount, buy_gas, refund_gas, set_balance}
use thelonious.State.Accounts.{
  get_state_object, get_or_new, update, has, total, total-update, total-replace, has-update,
  get_state_object-has, total-get_or_new, has-get_or_new,
}
use thelonious.Chain.Transition.{
  Tx, gas_value, Evaluated, returned, failed, panicked, Run, balance_of, buy, refund, settle_init,
  run_to, settle_code,
}

-- Accounts with a given sum of balances, among them three that are in use.
abbrev pub Holds : ℤ → ℕ → ℕ → ℕ → List Account → Type 0
Holds t a b c cs = (total cs ≡ t) × (has a cs ≡ true) × (has b cs ≡ true) × (has c cs ≡ true)

pub Holds-update :
    (t d : ℤ) (a b c at : ℕ) (f : Account → Account) (cs : List Account)
    → Holds t a b c cs
    → has at cs ≡ true
    → ((c : Account) → (f c).address ≡ c.address)
    → ((c : Account) → (f c).balance ≡ c.balance +ℤ d)
    → Holds (t +ℤ d) a b c (update at f cs)
Holds-update t d a b c at f cs h k keeps adds =
    let still = λ (x : ℕ). has-update at x f cs (λ c e. keeps c ∙ e) in
    (
      total-update at f d cs k adds ∙ ap (λ t. t +ℤ d) h.0,
      still a ∙ h.1,
      still b ∙ h.2,
      still c ∙ h.3,
    )

minus : (z : ℤ) (n : ℕ) → z -ℤ pos n ≡ z +ℤ (pos 0 -ℤ pos n)
minus z n = omega int_laws

pub Holds-add :
    (t : ℤ) (a b c at n : ℕ) (cs : List Account)
    → Holds t a b c cs
    → has at cs ≡ true
    → Holds (t +ℤ pos n) a b c (update at (add_amount n) cs)
unfolding add_amount set_balance
Holds-add t a b c at n cs h k =
    Holds-update t (pos n) a b c at (add_amount n) cs h k (λ c. refl) (λ c. refl)

pub Holds-sub :
    (t : ℤ) (a b c at n : ℕ) (cs : List Account)
    → Holds t a b c cs
    → has at cs ≡ true
    → Holds (t +ℤ (pos 0 -ℤ pos n)) a b c (update at (sub_amount n) cs)
unfolding sub_amount set_balance
Holds-sub t a b c at n cs h k =
    Holds-update t (pos 0 -ℤ pos n) a b c at (sub_amount n) cs h k (λ c. refl)
      (λ c. minus c.balance n)

-- The refund moves what is left of the gas from the coinbase to the sender.
pub refund-Holds :
    (t : ℤ) (coinbase c gas : ℕ) (tx : Tx) (cs : List Account)
    → Holds t tx.sender coinbase c cs
    → Holds t tx.sender coinbase c (refund coinbase tx gas cs)
unfolding refund refund_gas
refund-Holds t coinbase c gas tx cs h =
    let n = gas * tx.gas_price in
    let one =
      Holds-update t (pos 0 -ℤ pos n) tx.sender coinbase c coinbase (refund_gas gas tx.gas_price) cs
        h h.2 (λ c. refl) (λ c. minus c.balance n) in
    let two =
      Holds-add (t +ℤ (pos 0 -ℤ pos n)) tx.sender coinbase c tx.sender n
        (update coinbase (refund_gas gas tx.gas_price) cs) one one.1 in
    let back : t +ℤ (pos 0 -ℤ pos n) +ℤ pos n ≡ t = omega int_laws in
    (two.0 ∙ back, two.1, two.2, two.3)

-- What buying does where it succeeds.
buy_inv :
    (coinbase : ℕ) (tx : Tx) (cs0 cs' : List Account)
    → buy coinbase tx cs0 ≡ some cs'
    → let cs = get_or_new tx.sender cs0 in
      (c : Account) × (get_state_object coinbase cs ≡ some c)
      × (update tx.sender
            (sub_amount (gas_value tx))
            (update coinbase (λ e. add_amount (gas_value tx) c) cs)
          ≡ cs')
unfolding buy buy_gas gas_value
buy_inv coinbase tx cs0 cs' e =
    let cs = get_or_new tx.sender cs0 in
    elim (Bool-cases (ltb_ℤ (balance_of tx.sender cs) (pos (gas_value tx)))) [
      | inl b ↦ let f : none ≡ some cs' = rw b at e in cc
      | inr b ↦
          let e1 = rw b at e in
          elim (Option-cases (get_state_object coinbase cs)) [
            | inl n ↦ let f : none ≡ some cs' = rw n at e1 in cc
            | inr (c, g) ↦
                let e2 = rw g at e1 in
                elim (Bool-cases (ltb c.gas_pool tx.gas)) [
                  | inl l ↦ let f : none ≡ some cs' = rw l at e2 in cc
                  | inr l ↦
                      let f : some (
                            update tx.sender (sub_amount (gas_value tx))
                              (update coinbase (λ e. add_amount (gas_value tx) c) cs))
                          ≡ some cs' =
                        rw l at e2 in
                      (c, g, cc)
                ]
          ]
    ]

pub buy-Holds :
    (t : ℤ) (coinbase : ℕ) (tx : Tx) (cs cs' : List Account)
    → total cs ≡ t
    → buy coinbase tx cs ≡ some cs'
    → Holds t tx.sender coinbase coinbase cs'
unfolding add_amount set_balance
buy-Holds t coinbase tx cs0 cs' h e =
    let cs = get_or_new tx.sender cs0 in
    let (c, found, same) = buy_inv coinbase tx cs0 cs' e in
    let there = get_state_object-has coinbase c cs found in
    let d = add_amount (gas_value tx) c in
    let sold = update coinbase (λ e. d) cs in
    let still = λ (x : ℕ). has-update coinbase x (λ e. d) cs (λ e q. there.1) in
    let sum : total sold ≡ t +ℤ pos (gas_value tx) =
      total-replace coinbase c d (pos (gas_value tx)) cs found refl
      ∙ ap (λ t. t +ℤ pos (gas_value tx)) (total-get_or_new tx.sender cs0 ∙ h) in
    let one : Holds (t +ℤ pos (gas_value tx)) tx.sender coinbase coinbase sold = (
      sum,
      still tx.sender ∙ has-get_or_new tx.sender cs0,
      still coinbase ∙ there.0,
      still coinbase ∙ there.0,
    ) in
    let two =
      Holds-sub (t +ℤ pos (gas_value tx)) tx.sender coinbase coinbase tx.sender (gas_value tx) sold
        one one.1 in
    let back : t +ℤ pos (gas_value tx) +ℤ (pos 0 -ℤ pos (gas_value tx)) ≡ t = omega int_laws in
    subst (λ cs. Holds t tx.sender coinbase coinbase cs) same (two.0 ∙ back, two.1, two.2, two.3)

abbrev pub accounts_of : Evaluated → List Account
accounts_of (returned k cs gas code) = cs
accounts_of (failed cs gas) = cs
accounts_of (panicked k cs gas) = cs

-- Code moves value between accounts: it neither makes nor destroys it, and deletes no account.
abbrev pub Conserves : List Account → Evaluated → Type 0
Conserves cs r =
    (total (accounts_of r) ≡ total cs) × ((a : ℕ) → has a cs ≡ true → has a (accounts_of r) ≡ true)

-- The sum of a snapshot that the state was set to, where there was an error.
abbrev pub Kept : ℤ → Option (List Account) → Bool → Type 0
Kept u none err = Unit
Kept u (some s) err = (total s ≡ u) × (err ≡ true)

abbrev pub IsBalanced : ℤ → ℤ → ℕ → ℕ → ℕ → Run → Type 0
IsBalanced t u a b c r = Holds t a b c r.accounts × Kept u r.snapshot r.has_error

Holds-Conserves :
    (t : ℤ) (a b c : ℕ) (cs : List Account) (r : Evaluated)
    → Holds t a b c cs
    → Conserves cs r
    → Holds t a b c (accounts_of r)
Holds-Conserves t a b c cs r h k = (k.0 ∙ h.0, k.1 a h.1, k.1 b h.2, k.1 c h.3)

abbrev pub stopped : ℕ → List Account → Run
stopped gas cs = run_to true cs gas true

pub plus_zero : (t : ℤ) → t +ℤ pos 0 ≡ t
plus_zero t = omega int_laws

pub settle_init-IsBalanced :
    (t u : ℤ) (a b c : ℕ) (snap cs : List Account) (r : Evaluated)
    → total snap ≡ u
    → Holds t a b c cs
    → Conserves cs r
    → IsBalanced t u a b c (settle_init c snap r)
unfolding settle_init
settle_init-IsBalanced t u a b c snap cs (returned true cs' gas code) s h k =
    let h' = Holds-Conserves t a b c cs (returned true cs' gas code) h k in
    (
      subst (λ t. Holds t a b c (update c (λ d. record d { code = code }) cs')) (plus_zero t)
          (Holds-update t (pos 0) a b c c (λ d. record d { code = code }) cs' h' h'.3 (λ d. refl)
            (λ d. sym (plus_zero d.balance))),
      tt,
    )
settle_init-IsBalanced t u a b c snap cs (returned false cs' gas code) s h k =
    (Holds-Conserves t a b c cs (returned false cs' gas code) h k, tt)
settle_init-IsBalanced t u a b c snap cs (failed cs' gas) s h k =
    (Holds-Conserves t a b c cs (failed cs' gas) h k, (s, refl))
settle_init-IsBalanced t u a b c snap cs (panicked q cs' gas) s h k =
    (Holds-Conserves t a b c cs (panicked q cs' gas) h k, tt)

pub settle_code-IsBalanced :
    (t u : ℤ) (a b c : ℕ) (snap cs : List Account) (r : Evaluated)
    → total snap ≡ u
    → Holds t a b c cs
    → Conserves cs r
    → IsBalanced t u a b c (settle_code snap r)
unfolding settle_code
settle_code-IsBalanced t u a b c snap cs (returned q cs' gas ret) s h k =
    (Holds-Conserves t a b c cs (returned q cs' gas ret) h k, tt)
settle_code-IsBalanced t u a b c snap cs (failed cs' gas) s h k =
    (Holds-Conserves t a b c cs (failed cs' gas) h k, (s, refl))
settle_code-IsBalanced t u a b c snap cs (panicked q cs' gas) s h k =
    (Holds-Conserves t a b c cs (panicked q cs' gas) h k, tt)
