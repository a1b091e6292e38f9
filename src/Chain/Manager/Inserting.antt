-- ===== src/Chain/Manager/Inserting.antt =====
-- monkchain/chain_manager.go: InsertChain and the change to another branch.
use thelonious.Base.{
  ℕ, zero, suc, List, [], ◌∷◌, leb, if◌then◌else◌, Option, none, some, Outcome, ok, panic,
  out_of_fuel, ◌>>=◌,
}
use thelonious.Trie.Slices.{compare_int_slice}
use thelonious.Trie.Cache.{erase}
use thelonious.Chain.Manager.{Block, ChainManager, total_of, get_block, get_block_canonical}
use thelonious.Chain.Manager.Adding.{lengthen, new_links}
use thelonious.Chain.Manager.Testing.{Processor, Verdict, passed, test_chain}

abbrev pub last_of : ℕ → List ℕ → ℕ
last_of a [] = a
last_of a (b ∷ c) = last_of b c

-- InsertChain, with what it does to take another branch.
unfoldable pub insert_with :
    (List ℕ → ChainManager → Outcome ChainManager) → List ℕ → ChainManager → Outcome ChainManager
unfolding get_block compare_int_slice lengthen total_of
insert_with re_org [] m = panic
insert_with re_org (a ∷ c) m = elim (get_block (m.links a).block.prev_hash m) [
  | none ↦ panic
  | some parent ↦
      if compare_int_slice m.current_block.hash parent.hash
      then lengthen (a ∷ c) m
      else elim (total_of (last_of a c) m) [
        | none ↦ panic
        | some td ↦ if leb td m.td then ok m else re_org (a ∷ c) m
      ]
]

-- The blocks from the branch point on, which are taken out of the working tree.
unfoldable pub pop_branch :
    ℕ → Option ℕ → List Block → ChainManager → Outcome (List Block × ChainManager)
unfolding erase
pop_branch fuel none bs m = ok (bs, m)
pop_branch zero (some a) bs m = out_of_fuel
pop_branch (suc n) (some a) bs m =
    let l = m.links a in
    pop_branch n l.parent (l.block ∷ bs)
      (record m { working_tree = erase l.block.hash m.working_tree })

-- The blocks from behind the ancestor up to `b`; an unknown block is a nil pointer.
unfoldable pub collect_back : ℕ → List ℕ → Block → List Block → ChainManager → Outcome (List Block)
unfolding get_block compare_int_slice
collect_back zero ancestor b bs m = out_of_fuel
collect_back (suc n) ancestor b bs m =
    if compare_int_slice b.hash ancestor then ok bs else elim (get_block b.prev_hash m) [
      | none ↦ panic
      | some p ↦ collect_back n ancestor p (b ∷ bs) m
    ]

-- The old chain is tested as a fork, which puts it into the working tree.
unfoldable pub keep_old : Processor → ℕ → List ℕ → Block → ChainManager → Outcome ChainManager
unfolding collect_back new_links test_chain
keep_old process n ancestor old_head m = collect_back n ancestor old_head [] m >>= λ bs.
    let (chain, m') = new_links bs m in test_chain process chain m' >>= λ t. ok t.manager

-- The new branch is tested with the head set to the ancestor; an error sets it back.
unfoldable pub after_test :
    Processor
    → (List ℕ → ChainManager → Outcome ChainManager)
    → ℕ
    → List ℕ
    → Block
    → List ℕ
    → Verdict
    → List ℕ
    → ChainManager
    → Outcome ChainManager
unfolding insert_with keep_old
after_test process again n ancestor_hash old_head old_hash (passed td) chain m =
    insert_with again chain m >>= keep_old process n ancestor_hash old_head
after_test process again n ancestor_hash old_head old_hash _ chain m =
    ok (record m { current_block = old_head; current_block_hash = old_hash })

unfoldable pub switch_to :
    Processor
    → (List ℕ → ChainManager → Outcome ChainManager)
    → ℕ
    → List Block × ChainManager
    → Outcome ChainManager
unfolding get_block_canonical new_links test_chain after_test
switch_to process again n ([], m) = panic
switch_to process again n (b ∷ bs, m) = elim (get_block_canonical b.prev_hash m) [
  | none ↦ panic
  | some ancestor ↦ elim (get_block_canonical m.current_block_hash m) [
    | none ↦ panic
    | some old_head ↦
        let (chain, m') = new_links (b ∷ bs) m in
        test_chain process chain
          (record m' { current_block = ancestor; current_block_hash = b.prev_hash })
        >>= λ t.
            after_test process again n b.prev_hash old_head m.current_block_hash t.verdict t.chain
              t.manager
  ]
]

unfoldable pub re_org : Processor → ℕ → List ℕ → ChainManager → Outcome ChainManager
unfolding pop_branch switch_to
re_org process zero chain m = out_of_fuel
re_org process (suc n) [] m = panic
re_org process (suc n) (a ∷ c) m =
    pop_branch n (some (last_of a c)) [] m >>= switch_to process (re_org process n) n

unfoldable pub insert_chain : Processor → ℕ → List ℕ → ChainManager → Outcome ChainManager
unfolding insert_with re_org
insert_chain process n chain m = insert_with (re_org process n) chain m
