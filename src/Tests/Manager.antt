-- ===== src/Tests/Manager.antt =====
-- The chain manager on a first block and the blocks behind it.
use thelonious.Base.{
  ◌≢◌, ◌+◌, ℕ, ◌≡◌, refl, ◌<◌, List, [], ◌∷◌, true, false, Option, none, some, Outcome, ok, panic,
  out_of_fuel, Holds, arith,
}
use thelonious.Trie.Cache.{find}
use thelonious.Chain.Manager.{
  block_info, sum, Block, ChainManager, total_of, get_block_working, get_block_canonical,
  calc_total_diff,
}
use thelonious.Chain.Manager.Adding.{set_total_difficulty, add, new_links}
use thelonious.Chain.Manager.Testing.{
  Processor, Verdict, passed, low, Tested, add_chain_to_working_tree, test_chain,
}
use thelonious.Chain.Manager.Inserting.{insert_chain}
use thelonious.Chain.Manager.Checkpoints.{check_point, load_checkpoint, receive_check_point_block}
use thelonious.Chain.Manager.Kept.{canonical, test_chain-canonical}
use thelonious.Chain.Manager.Lengthens.{IsHead}
use thelonious.Chain.Manager.Totals.{HasAnswers}
use thelonious.Chain.Manager.Taken.{IsNext, tested_chain_is_inserted}
use thelonious.Chain.Manager.Sound.{IsSound, first-IsSound, test_chain-IsSound, new_links-IsSound}
use thelonious.Chain.Manager.Branches.{insert_chain-IsSound}
use thelonious.Chain.Manager.Checked.{IsChecked, checkpoints-IsChecked}
use thelonious.Chain.Manager.Shares.{fork_links_share_total}

abbrev pub block : ℕ → ℕ → ℕ → ℕ → Block
block h p n d = record {
  hash = h ∷ [];
  prev_hash = p ∷ [];
  number = n;
  time = n;
  difficulty = d;
  uncles = [];
}

abbrev pub first_block : Block
first_block = block 1 0 0 100

abbrev pub second_block : Block
second_block = block 2 1 1 100

abbrev third_block : Block
third_block = block 3 2 2 100

-- Two blocks of a fork behind the first one.
abbrev pub other_second : Block
other_second = block 12 1 1 150

abbrev pub other_third : Block
other_third = block 13 12 2 150

abbrev pub empty_manager : ChainManager
empty_manager = record {
  blocks = [];
  infos = [];
  last_block = none;
  known_td = 0;
  td = 0;
  current_block_number = 0;
  current_block = first_block;
  current_block_hash = [];
  genesis_block = first_block;
  check_point_key = none;
  latest_check_point_hash = 1 ∷ [];
  latest_check_point_block = some first_block;
  latest_check_point_number = 0;
  waiting_for_check_point = false;
  working_tree = [];
  working_chain = none;
  links = λ a. record { block = first_block; td = none; parent = none; children = [] };
  totals = λ a. 0;
  next_link = 0;
  next_total = 0;
}

abbrev pub started : ChainManager
started = add first_block (set_total_difficulty 100 empty_manager)

abbrev pub answered : Outcome (Option ℕ) → Option (Option ℕ)
answered (ok o) = some o
answered panic = none
answered out_of_fuel = none

abbrev pub processor : Processor
processor m b p = answered (calc_total_diff b m)

-- The first block with two links behind it.
abbrev with_links : List ℕ × ChainManager
with_links = new_links (second_block ∷ third_block ∷ []) started

abbrev is_td : Verdict → Option ℕ
is_td (passed td) = some td
is_td (low a b) = some a
is_td _ = none

abbrev outcome_td : Outcome Tested → Option ℕ
outcome_td (ok t) = is_td t.verdict
outcome_td _ = none

chain_passes : outcome_td (test_chain processor with_links.0 with_links.1) ≡ some 300
unfolding new_links add set_total_difficulty test_chain calc_total_diff
chain_passes = refl

-- The second block on the canonical chain, with a fork behind the first one.
abbrev with_fork : List ℕ × ChainManager
with_fork =
    new_links (other_second ∷ other_third ∷ [])
      (add second_block (set_total_difficulty 200 started))

fork_passes : outcome_td (test_chain processor with_fork.0 with_fork.1) ≡ some 400
unfolding new_links add set_total_difficulty test_chain calc_total_diff
fork_passes = refl

abbrev tested_manager : Outcome Tested → ChainManager
tested_manager (ok t) = t.manager
tested_manager _ = empty_manager

abbrev forked : ChainManager
forked = tested_manager (test_chain processor with_fork.0 with_fork.1)

-- The fork's two links have one total, which is that of its last block less what its first block is
-- harder than its parent.
fork_totals : (total_of 0 forked ≡ some 350) × (total_of 1 forked ≡ some 350)
unfolding new_links add set_total_difficulty test_chain calc_total_diff total_of
fork_totals = (refl, refl)

abbrev manager_of : Outcome ChainManager → ChainManager
manager_of (ok m) = m
manager_of _ = empty_manager

abbrev reorganised : ChainManager
reorganised = manager_of (insert_chain processor 5 with_fork.0 forked)

-- The head is the fork's last block, and the old second block is in the working tree. The number that
-- is kept beside the head is one more than the head's.
reorganises :
    (reorganised.current_block.number ≡ 2)
    × (reorganised.td ≡ 400)
    × (reorganised.current_block_number ≡ 3)
    × (get_block_working (2 ∷ []) reorganised ≡ some second_block)
unfolding new_links add set_total_difficulty test_chain calc_total_diff insert_chain
    get_block_working
reorganises = (refl, refl, refl, refl)

test_chain-canonical_example :
    Holds
      (λ t. canonical t.manager ≡ canonical with_fork.1)
      (test_chain processor with_fork.0 with_fork.1)
test_chain-canonical_example = test_chain-canonical processor with_fork.0 with_fork.1

second_block-IsNext : IsNext with_links.1 second_block
unfolding IsNext get_block_canonical new_links add set_total_difficulty
second_block-IsNext = (first_block, refl, refl)

abbrev pub tested_of : Outcome Tested → Tested
tested_of (ok t) = t
tested_of _ = record { chain = []; manager = empty_manager; verdict = passed 0 }

abbrev passing : Tested
passing = tested_of (test_chain processor with_links.0 with_links.1)

processor-HasAnswers : HasAnswers processor
unfolding calc_total_diff
processor-HasAnswers m b p e = rw (e, calc_total_diff) (of_total (block_info p m).td)
  where
    of_total :
        (o : Option ℕ)
        → answered (elim o [ none ↦ panic | some t ↦ ok (some (t + sum b.uncles + b.difficulty)) ])
          ≢ some none
    of_total none q = let f : none ≡ some none = q in absurd (cc)
    of_total (some t) q =
        let f : some (some (t + sum b.uncles + b.difficulty)) ≡ some none = q in absurd (cc)

tested_chain_is_inserted_example :
    (m' : ChainManager) × (insert_chain processor 0 passing.chain passing.manager ≡ ok m')
    × IsHead third_block 300 m'
    × (100 < 300)
unfolding new_links add set_total_difficulty test_chain calc_total_diff
tested_chain_is_inserted_example =
    tested_chain_is_inserted processor 0 0 (1 ∷ []) with_links.1 passing 300 processor-HasAnswers
      second_block-IsNext refl refl

started-IsSound : IsSound started
unfolding find
started-IsSound =
    first-IsSound first_block 100 empty_manager
      (record {
        keyed = λ k b e. let f : none ≡ some b = e in absurd (cc);
        informed = λ k b e. let f : none ≡ some b = e in absurd (cc);
      })
      (refl, λ k a e. let f : none ≡ some a = e in absurd (cc))

passing-IsSound : IsSound passing.manager
unfolding new_links add set_total_difficulty test_chain calc_total_diff
passing-IsSound =
    (test_chain-IsSound processor with_links.0 with_links.1 (omega arith, (omega arith, tt))
      (new_links-IsSound (second_block ∷ third_block ∷ []) started started-IsSound)).0

insert_chain-IsSound_example :
    IsSound (manager_of (insert_chain processor 5 passing.chain passing.manager))
unfolding new_links add set_total_difficulty test_chain calc_total_diff insert_chain
insert_chain-IsSound_example =
    insert_chain-IsSound processor 5 passing.chain passing.manager
      (manager_of (insert_chain processor 5 passing.chain passing.manager)) passing-IsSound refl

checkpoints-IsChecked_example :
    IsChecked (check_point (λ h m. true) (some (2 ∷ [])) started)
    × IsChecked (load_checkpoint started)
    × IsChecked (receive_check_point_block (some first_block) started).1
unfolding IsChecked add set_total_difficulty
checkpoints-IsChecked_example =
    checkpoints-IsChecked (λ h m. true) (some (2 ∷ [])) (some first_block) started started-IsSound
      started-IsChecked
  where
    started-IsChecked : IsChecked started
    started-IsChecked w = (first_block, refl, refl, refl)

abbrev pair_of : Outcome (List ℕ × ChainManager) → List ℕ × ChainManager
pair_of (ok r) = r
pair_of _ = ([], empty_manager)

-- Links with totals, as a test leaves them.
abbrev added : List ℕ × ChainManager
added = pair_of (add_chain_to_working_tree with_fork.0 with_fork.1)

fork_links_share_total_example : total_of 0 added.1 ≡ total_of 1 added.1
unfolding new_links add set_total_difficulty add_chain_to_working_tree find
fork_links_share_total_example =
    fork_links_share_total with_fork.0 added.0 with_fork.1 added.1 (12 ∷ []) (13 ∷ []) 0 1 refl refl
      refl refl refl
