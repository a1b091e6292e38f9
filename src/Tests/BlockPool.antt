-- ===== src/Tests/BlockPool.antt =====
-- The block pool at concrete inputs.
use thelonious.Base.{ℕ, ◌≡◌, ◌==◌, refl, ap, arith, List, [], ◌∷◌, Bool, false}
use thelonious.Trie.Cache.{find}
use thelonious.Chain.BlockPool.{
  Block, BlockPool, ChainView, reset, add_hash, add, remove, choose_blocks,
}
use thelonious.Chain.BlockPool.Pairs.{occurrences, IsPaired, steps-IsPaired}
use thelonious.Chain.BlockPool.Chosen.{IsAttached, choose_blocks-IsAttached, choose_blocks_parted}

abbrev fork_a : Block
fork_a = record { hash = 2 ∷ []; prev_hash = 1 ∷ []; number = 5 }

abbrev fork_b : Block
fork_b = record { hash = 3 ∷ []; prev_hash = 1 ∷ []; number = 5 }

abbrev next_block : Block
next_block = record { hash = 4 ∷ []; prev_hash = 2 ∷ []; number = 6 }

-- The chain has the block of hash 1.
abbrev known : List ℕ → Bool
known [] = false
known (x ∷ h) = x == 1

abbrev view : ChainView
view = record { waiting = false; latest = 0; has_block = known }

abbrev empty_pool : BlockPool
empty_pool = record { hash_pool = []; pool = []; blocks_processed = 0 }

empty-IsPaired : IsPaired empty_pool
unfolding occurrences find
empty-IsPaired h = refl

steps-IsPaired_example :
    IsPaired (add_hash (2 ∷ []) empty_pool)
    × IsPaired (add view fork_a empty_pool)
    × IsPaired (remove (2 ∷ []) empty_pool)
    × IsPaired (reset empty_pool)
steps-IsPaired_example = steps-IsPaired view (2 ∷ []) fork_a empty_pool empty-IsPaired

choose_blocks-IsAttached_example :
    IsAttached known (choose_blocks known (fork_a ∷ next_block ∷ fork_b ∷ []))
choose_blocks-IsAttached_example =
    choose_blocks-IsAttached known (fork_a ∷ next_block ∷ fork_b ∷ [])

choose_blocks_parted_example : choose_blocks known (fork_a ∷ fork_b ∷ next_block ∷ []) ≡ []
choose_blocks_parted_example =
    choose_blocks_parted known fork_a fork_b (next_block ∷ []) refl
      (λ e. let f : 1 ≡ 2 = ap head e in absurd (omega (arith, f)))
  where
    head : List ℕ → ℕ
    head [] = 0
    head (x ∷ l) = x

-- Of two blocks that follow each other, before one that does not, the second is left out.
choose_blocks_runs : choose_blocks known (fork_a ∷ next_block ∷ fork_b ∷ []) ≡ fork_a ∷ []
unfolding choose_blocks
choose_blocks_runs = refl
