-- ===== src/Tests/Summed.antt =====
-- The total difficulty of a chain on a fork.
use thelonious.Base.{
  ℕ, ◌+◌, ◌≡◌, refl, List, [], ◌∷◌, Option, none, some, Outcome, ok, panic, out_of_fuel,
}
use thelonious.Trie.Cache.{find}
use thelonious.Chain.Manager.{ChainManager, in_chain, get_block_canonical, calc_total_diff}
use thelonious.Chain.Manager.Adding.{set_total_difficulty, add, new_links}
use thelonious.Chain.Manager.Testing.{Tested, test_chain}
use thelonious.Chain.Manager.Taken.{block_at}
use thelonious.Chain.Manager.News.{IsCalculating, IsNew}
use thelonious.Chain.Manager.Summed.{difficulties, total-test_chain}
use thelonious.Tests.Manager.{
  first_block, second_block, other_second, other_third, answered, started, processor, tested_of,
}

processor-IsCalculating : IsCalculating processor
processor-IsCalculating m b p t e = of_answer (calc_total_diff b m) e
  where
    of_answer : (o : Outcome (Option ℕ)) → answered o ≡ some t → o ≡ ok t
    of_answer (ok a) e = cc
    of_answer panic e = let f : none ≡ some t = e in absurd (cc)
    of_answer out_of_fuel e = let f : none ≡ some t = e in absurd (cc)

-- A fork behind the first block, whose first block has an uncle.
abbrev with_uncle : List ℕ × ChainManager
with_uncle =
    new_links (record other_second { uncles = 8 ∷ [] } ∷ other_third ∷ [])
      (add second_block (set_total_difficulty 200 started))

abbrev after_uncle : Tested
after_uncle = tested_of (test_chain processor with_uncle.0 with_uncle.1)

first_link-IsNew : IsNew (0 ∷ 1 ∷ []) with_uncle.1 0
unfolding new_links add set_total_difficulty find in_chain
first_link-IsNew = record { unstored = refl; uninformed = refl; unlinked = refl; own = refl }

second_link-IsNew : IsNew (0 ∷ 1 ∷ []) with_uncle.1 1
unfolding new_links add set_total_difficulty find in_chain
second_link-IsNew = record { unstored = refl; uninformed = refl; unlinked = refl; own = refl }

total-test_chain_example : 408 ≡ 100 + difficulties (block_at with_uncle.1) (0 ∷ 1 ∷ [])
unfolding new_links add set_total_difficulty test_chain calc_total_diff find get_block_canonical
total-test_chain_example =
    total-test_chain processor 0 (1 ∷ []) with_uncle.1 first_block
      (record { number = 0; hash = 1 ∷ []; parent = 0 ∷ []; td = some 100 }) 100
      processor-IsCalculating refl refl refl (first_link-IsNew, (second_link-IsNew, tt)) (refl, tt)
      after_uncle 408 refl refl
