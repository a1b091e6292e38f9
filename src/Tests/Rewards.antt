-- ===== src/Tests/Rewards.antt =====
-- Rewards behind the second of two blocks.
use thelonious.Base.{ℕ, ◌+◌, ◌≡◌, refl, List, [], ◌∷◌, Option, none, some}
use thelonious.Base.Int.{ℤ, pos, ◌+ℤ◌}
use thelonious.State.Accounts.{get_state_object}
use thelonious.Chain.Manager.{get_block}
use thelonious.Chain.Manager.Adding.{add, set_total_difficulty}
use thelonious.Chain.Rewards.{
  Uncle, UncleError, not_unique, Rewarded, paid, refused, block_reward, uncle_reward,
  inclusion_reward, accumelate_rewards,
}
use thelonious.Chain.Rewards.Sums.{IsPaid, accumelate_rewards-IsPaid}
use thelonious.Tests.Walks.{two_blocks}

abbrev uncle : ℕ → ℕ → Uncle
uncle nonce coinbase = record {
  hash = 12 ∷ [];
  prev_hash = 1 ∷ [];
  nonce = nonce ∷ [];
  coinbase = coinbase;
}

abbrev balance_at : ℕ → Rewarded → Option ℤ
balance_at a (paid cs) = elim (get_state_object a cs) [ none ↦ none | some c ↦ some c.balance ]
balance_at a (refused e cs) = elim (get_state_object a cs) [ none ↦ none | some c ↦ some c.balance ]

abbrev error_of : Rewarded → Option UncleError
error_of (paid cs) = none
error_of (refused e cs) = some e

abbrev rewarded : List Uncle → Rewarded
rewarded us = accumelate_rewards two_blocks 1 [] (5 ∷ []) 70 us []

-- One uncle.
with_uncle :
    (balance_at 70 (rewarded (uncle 6 71 ∷ [])) ≡ some (pos (block_reward + inclusion_reward)))
    × (balance_at 71 (rewarded (uncle 6 71 ∷ [])) ≡ some (pos uncle_reward))
unfolding accumelate_rewards get_block add set_total_difficulty get_state_object ◌+ℤ◌
with_uncle = (refl, refl)

-- The second uncle has the nonce of the first, which keeps its reward.
same_nonce :
    (error_of (rewarded (uncle 6 71 ∷ uncle 6 72 ∷ [])) ≡ some not_unique)
    × (balance_at 71 (rewarded (uncle 6 71 ∷ uncle 6 72 ∷ [])) ≡ some (pos uncle_reward))
unfolding accumelate_rewards get_block add set_total_difficulty get_state_object ◌+ℤ◌
same_nonce = (refl, refl)

accumelate_rewards-IsPaid_example :
    IsPaid two_blocks 1 [] 70
      ((5 ∷ []) ∷ [])
      (uncle 6 71 ∷ [])
      block_reward
      []
      (rewarded (uncle 6 71 ∷ []))
accumelate_rewards-IsPaid_example =
    accumelate_rewards-IsPaid two_blocks 1 [] (5 ∷ []) 70 (uncle 6 71 ∷ []) []
