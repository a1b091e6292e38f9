-- ===== src/Chain/Rewards/Sums.antt =====
-- monkchain/block_manager.go: what AccumelateRewards adds to the sum of all balances, and which uncles it
-- accepts.
use thelonious.Base.{
  take, ℕ, suc, ◌+◌, ◌*◌, ◌≤◌, ◌<◌, List, [], ◌∷◌, length, All, ltb, false, Bool-cases, none, some,
  Option-cases, ◌≡◌, refl, sym, ap, ◌∙◌, inl, inr, arith,
}
use thelonious.Base.Int.{ℤ, pos, ◌+ℤ◌, int_laws}
use thelonious.State.Objects.{Account, add_amount, set_balance}
use thelonious.State.Accounts.{total, total-update, get_or_new, total-get_or_new, has-get_or_new}
use thelonious.Chain.Manager.{Block, ChainManager, get_block}
use thelonious.Chain.Transition.{balance_of}
use thelonious.Chain.Rewards.Balances.{part, balance_of-credit}
use thelonious.Chain.Rewards.{
  Uncle, UncleError, Rewarded, paid, refused, block_reward, uncle_reward, inclusion_reward,
  includes, uncle_error, credit, pay_uncles, accumelate_rewards,
}

total-credit :
    (a amount : ℕ) (cs : List Account) → total (credit a amount cs) ≡ total cs +ℤ pos amount
unfolding credit add_amount set_balance
total-credit a amount cs =
    total-update a (add_amount amount) (pos amount) (get_or_new a cs) (has-get_or_new a cs)
      (λ c. refl)
    ∙ ap (λ t. t +ℤ pos amount) (total-get_or_new a cs)

-- An uncle whose parent is known and at most six numbers below the parent of the block, and that is no
-- uncle of that parent.
abbrev pub IsRecent : ChainManager → ℕ → List (List ℕ) → Uncle → Type 0
IsRecent m number known u =
    (p : Block) × (get_block u.prev_hash m ≡ some p)
    × (number ≤ p.number + 6)
    × (includes known u.hash ≡ false)

-- No uncle has a nonce of one before it, or one of `nonces`.
abbrev pub IsFresh : List (List ℕ) → List Uncle → Type 0
IsFresh nonces [] = Unit
IsFresh nonces (u ∷ us) = (includes nonces u.nonce ≡ false) × IsFresh (u.nonce ∷ nonces) us

uncle_error-none :
    (m : ChainManager) (number : ℕ) (known nonces : List (List ℕ)) (u : Uncle)
    → uncle_error m number known nonces u ≡ none
    → IsRecent m number known u × (includes nonces u.nonce ≡ false)
unfolding uncle_error
uncle_error-none m number known nonces u e = elim (Bool-cases (includes nonces u.nonce)) [
  | inl a ↦ no_error (rw (a, uncle_error) at e)
  | inr a ↦
      let e1 = rw (a, uncle_error) at e in
      elim (Option-cases (get_block u.prev_hash m)) [
        | inl b ↦ no_error (rw b at e1)
        | inr (p, b) ↦
            let e2 = rw b at e1 in
            elim (Bool-cases (ltb (p.number + 6) number)) [
              | inl c ↦ no_error (rw c at e2)
              | inr c ↦
                  let e3 = rw c at e2 in
                  elim (Bool-cases (includes known u.hash)) [
                    | inl d ↦ no_error (rw d at e3)
                    | inr d ↦ ((p, b, ground arith, d), a)
                  ]
            ]
      ]
]
  where
    no_error : {A : Type 0} {x : UncleError} → some x ≡ none → A
    no_error e = absurd (cc)

-- What an address gets as the coinbase of uncles.
abbrev pub uncle_part : List Uncle → ℕ → ℕ
uncle_part [] a = 0
uncle_part (u ∷ us) a = part u.coinbase a uncle_reward + uncle_part us a

-- What paying the rest of the uncles, and then the coinbase, does.
abbrev pub IsPaid :
    ChainManager
    → ℕ
    → List (List ℕ)
    → ℕ
    → List (List ℕ)
    → List Uncle
    → ℕ
    → List Account
    → Rewarded
    → Type 0
IsPaid m number known coinbase nonces us reward cs (paid cs') =
    ((a : ℕ)
      → balance_of a cs'
        ≡ balance_of a cs
          +ℤ pos (part coinbase a (reward + length us * inclusion_reward) + uncle_part us a))
    × (total cs' ≡ total cs +ℤ pos (reward + length us * (uncle_reward + inclusion_reward)))
    × All (IsRecent m number known) us
    × IsFresh nonces us
IsPaid m number known coinbase nonces us reward cs (refused e cs') =
    (k : ℕ) × (k < length us)
    × ((a : ℕ) → balance_of a cs' ≡ balance_of a cs +ℤ pos (uncle_part (take k us) a))
    × (total cs' ≡ total cs +ℤ pos (k * uncle_reward))

plus_none : (t : ℤ) → t +ℤ pos 0 ≡ t
plus_none t = omega int_laws

pos_pos : (t : ℤ) (a b : ℕ) → t +ℤ pos a +ℤ pos b ≡ t +ℤ pos (a + b)
pos_pos t a b = omega int_laws

total-paid :
    (u : Uncle) (cs : List Account) (b c : ℕ)
    → uncle_reward + b ≡ c
    → total (credit u.coinbase uncle_reward cs) +ℤ pos b ≡ total cs +ℤ pos c
total-paid u cs b c e =
    ap (λ t. t +ℤ pos b) (total-credit u.coinbase uncle_reward cs)
    ∙ pos_pos (total cs) uncle_reward b
    ∙ ap (λ n. total cs +ℤ pos n) e

balance_of-paid :
    (u : Uncle) (cs : List Account) (a b c : ℕ)
    → part u.coinbase a uncle_reward + b ≡ c
    → balance_of a (credit u.coinbase uncle_reward cs) +ℤ pos b ≡ balance_of a cs +ℤ pos c
balance_of-paid u cs a b c e =
    ap (λ t. t +ℤ pos b) (balance_of-credit u.coinbase a uncle_reward cs)
    ∙ pos_pos (balance_of a cs) (part u.coinbase a uncle_reward) b
    ∙ ap (λ n. balance_of a cs +ℤ pos n) e

swapped : (x y z : ℕ) → x + (y + z) ≡ y + (x + z)
swapped x y z = omega arith

more-IsPaid :
    (m : ChainManager) (number : ℕ) (known : List (List ℕ)) (coinbase : ℕ) (nonces : List (List ℕ))
    (u : Uncle) (us : List Uncle) (reward : ℕ) (cs : List Account) (r : Rewarded)
    → IsRecent m number known u × (includes nonces u.nonce ≡ false)
    → IsPaid m number known coinbase
        (u.nonce ∷ nonces)
        us
        (reward + inclusion_reward)
        (credit u.coinbase uncle_reward cs)
        r
    → IsPaid m number known coinbase nonces (u ∷ us) reward cs r
more-IsPaid m number known coinbase nonces u us reward cs (paid cs') (a, b) (bal, t, all, fresh) = (
  λ x.
      let n = reward + suc (length us) * inclusion_reward in
      let more : reward + inclusion_reward + length us * inclusion_reward ≡ n = omega arith in
      bal x
      ∙ balance_of-paid u cs x
          (part coinbase x (reward + inclusion_reward + length us * inclusion_reward)
            + uncle_part us x)
          (part coinbase x n + uncle_part (u ∷ us) x)
          (swapped (part u.coinbase x uncle_reward)
              (part coinbase x (reward + inclusion_reward + length us * inclusion_reward))
              (uncle_part us x)
            ∙ ap (λ k. part coinbase x k + uncle_part (u ∷ us) x) more),
  t
      ∙ total-paid u cs (reward + inclusion_reward + length us * (uncle_reward + inclusion_reward))
          (reward + suc (length us) * (uncle_reward + inclusion_reward)) (omega arith),
  (a, all),
  (b, fresh),
)
more-IsPaid m number known coinbase nonces u us reward cs (refused e cs') ab (k, lt, bal, t) = (
  suc k,
  omega arith,
  λ x. bal x ∙ balance_of-paid u cs x (uncle_part (take k us) x) _ refl,
  t ∙ total-paid u cs (k * uncle_reward) (suc k * uncle_reward) (omega arith),
)

pay_uncles-IsPaid :
    (m : ChainManager) (number : ℕ) (known : List (List ℕ)) (coinbase : ℕ) (nonces : List (List ℕ))
    (us : List Uncle) (reward : ℕ) (cs : List Account)
    → IsPaid m number known coinbase nonces us reward cs
        (pay_uncles m number known coinbase nonces us reward cs)
unfolding pay_uncles
pay_uncles-IsPaid m number known coinbase nonces [] reward cs = (
  λ a.
      let e : reward ≡ reward + 0 * inclusion_reward = omega arith in
      let g : part coinbase a reward ≡ part coinbase a (reward + 0 * inclusion_reward) + 0 =
        ap (part coinbase a) e ∙ plain (part coinbase a (reward + 0 * inclusion_reward)) in
      balance_of-credit coinbase a reward cs ∙ ap (λ n. balance_of a cs +ℤ pos n) g,
  total-credit coinbase reward cs ∙ ap (λ n. total cs +ℤ pos n) (omega arith),
  tt,
  tt,
)
  where
    plain : (n : ℕ) → n ≡ n + 0
    plain n = omega arith
pay_uncles-IsPaid m number known coinbase nonces (u ∷ us) reward cs =
    elim (Option-cases (uncle_error m number known nonces u)) [
      | inr (e, f) ↦
          rw (f, IsPaid)
            (0, omega arith, λ a. sym (plus_none (balance_of a cs)), sym (plus_none (total cs)))
      | inl f ↦
          rw (f, IsPaid)
            (more-IsPaid m number known coinbase nonces u us reward cs _
              (uncle_error-none m number known nonces u f)
              (pay_uncles-IsPaid m number known coinbase (u.nonce ∷ nonces) us
                (reward + inclusion_reward) (credit u.coinbase uncle_reward cs)))
    ]

-- Where AccumelateRewards returns no error, the balance at each address has grown by fifteen
-- sixteenths of the block reward for each uncle that it is the coinbase of and, at the block's
-- coinbase, by the block reward and one thirty-second of it for each uncle, and the sum of all
-- balances by as much; no two uncles have one nonce, none has the block's, and each has a known
-- parent that is at most six numbers below the block's parent and is itself no uncle of that parent.
-- Where it returns an error, the coinbases of the uncles before one of the block's have their
-- rewards, and no other balance has changed.
pub accumelate_rewards-IsPaid :
    (m : ChainManager) (number : ℕ) (known : List (List ℕ)) (nonce : List ℕ) (coinbase : ℕ)
    (us : List Uncle) (cs : List Account)
    → IsPaid m number known coinbase
        (nonce ∷ [])
        us
        block_reward
        cs
        (accumelate_rewards m number known nonce coinbase us cs)
unfolding accumelate_rewards
accumelate_rewards-IsPaid m number known nonce coinbase us cs =
    pay_uncles-IsPaid m number known coinbase (nonce ∷ []) us block_reward cs
