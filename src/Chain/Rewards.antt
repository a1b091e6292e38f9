-- ===== src/Chain/Rewards.antt =====
-- monkchain/block_manager.go, AccumelateRewards: what a block pays to its coinbase and to those of its
-- uncles. The sets of hashes and nonces are lists; an uncle's own hash is carried with it.
pub mod Balances
pub mod Sums
use thelonious.Base.{
  ℕ, ◌+◌, ◌*◌, ◌/◌, ◌^◌, List, [], ◌∷◌, ltb, if◌then◌else◌, Bool, true, false, Option, none, some,
}
use thelonious.Base.Int.{pos}
use thelonious.Trie.Slices.{compare_int_slice}
use thelonious.State.Objects.{Account, add_amount}
use thelonious.State.Accounts.{update, get_or_new}
use thelonious.Chain.Manager.{Block, ChainManager, get_block}

pub record Uncle : Type 0 where
  pub hash : List ℕ
  pub prev_hash : List ℕ
  pub nonce : List ℕ
  pub coinbase : ℕ

pub data UncleError : Type 0 where
  not_unique unknown_parent too_old in_chain : UncleError

-- The state where an error is returned keeps what was paid before it.
pub data Rewarded : Type 0 where
  paid : List Account → Rewarded
  refused : UncleError → List Account → Rewarded

abbrev pub block_reward : ℕ
block_reward = 15 * 10 ^ 17

abbrev pub uncle_reward : ℕ
uncle_reward = block_reward * 15 / 16

abbrev pub inclusion_reward : ℕ
inclusion_reward = block_reward / 32

unfoldable pub includes : List (List ℕ) → List ℕ → Bool
unfolding compare_int_slice
includes [] k = false
includes (j ∷ js) k = let rest = includes js k in if compare_int_slice j k then true else rest

-- The tests of the loop. Six is taken off the parent's number as a signed number.
unfoldable pub uncle_error :
    ChainManager → ℕ → List (List ℕ) → List (List ℕ) → Uncle → Option UncleError
unfolding includes get_block
uncle_error m number known nonces u =
    if includes nonces u.nonce then some not_unique else elim (get_block u.prev_hash m) [
      | none ↦ some unknown_parent
      | some p ↦
          if ltb (p.number + 6) number
          then some too_old
          else if includes known u.hash
          then some in_chain
          else none
    ]

unfoldable pub credit : ℕ → ℕ → List Account → List Account
unfolding update get_or_new add_amount
credit a amount cs = update a (add_amount amount) (get_or_new a cs)

unfoldable pub pay_uncles :
    ChainManager → ℕ → List (List ℕ) → ℕ → List (List ℕ) → List Uncle → ℕ → List Account → Rewarded
unfolding uncle_error credit
pay_uncles m number known coinbase nonces [] reward cs = paid (credit coinbase reward cs)
pay_uncles m number known coinbase nonces (u ∷ us) reward cs =
    elim (uncle_error m number known nonces u) [
      | some e ↦ refused e cs
      | none ↦
          pay_uncles m number known coinbase (u.nonce ∷ nonces) us (reward + inclusion_reward)
            (credit u.coinbase uncle_reward cs)
    ]

-- A block of the nonce, the coinbase and the uncles, behind a parent of the number and with the uncles
-- `known`.
unfoldable pub accumelate_rewards :
    ChainManager → ℕ → List (List ℕ) → List ℕ → ℕ → List Uncle → List Account → Rewarded
unfolding pay_uncles
accumelate_rewards m number known nonce coinbase uncles cs =
    pay_uncles m number known coinbase (nonce ∷ []) uncles block_reward cs
