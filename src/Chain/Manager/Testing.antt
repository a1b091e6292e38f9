-- ===== src/Chain/Manager/Testing.antt =====
-- monkchain/chain_manager.go: the check of an incoming chain, and the working tree that it is added to
-- where it is a fork. The processor of blocks is a parameter, as it is for the chain manager: its
-- answer is a total difficulty, which may be nil, or `none` for an error. It is taken to leave the blocks
-- as they are: that the block manager writes the gas of the block into its parent, which is part of the
-- parent's hash, is not modelled.
use thelonious.Base.{
  ℕ, suc, ◌+◌, List, [], ◌∷◌, leb, if◌then◌else◌, Bool, false, not, Option, none, some, Outcome, ok,
  panic, ◌>>=◌,
}
use thelonious.Trie.Slices.{compare_int_slice}
use thelonious.Trie.Cache.{find, store, erase}
use thelonious.Chain.Manager.{
  Block, ChainManager, total_of, write, get_block, get_block_canonical, block_info_by_hash,
}

abbrev pub Processor : Type 0
Processor = ChainManager → Block → Block → Option (Option ℕ)

-- `low` is the TDError, whose two numbers are the chain's total and the manager's.
pub data Verdict : Type 0 where
  passed : ℕ → Verdict
  broken : List ℕ → Verdict
  failed : Verdict
  low : ℕ → ℕ → Verdict

unfoldable pub is_fork : ChainManager → Block → Bool
unfolding get_block compare_int_slice
is_fork m oldest = elim (get_block oldest.prev_hash m) [
  | none ↦ false
  | some parent ↦ not (compare_int_slice m.current_block.hash parent.hash)
]

-- `l.td = td`, where `td` is a number of its own.
unfoldable pub set_total : ℕ → ℕ → ChainManager → ChainManager
unfolding write
set_total a td m = record m {
  links = write m.links a (record (m.links a) { td = some m.next_total });
  totals = write m.totals m.next_total td;
  next_total = suc m.next_total;
}

-- `l.td = td`, where `td` is nil.
unfoldable pub unset_total : ℕ → ChainManager → ChainManager
unfolding write
unset_total a m = record m { links = write m.links a (record (m.links a) { td = none }) }

-- How far the loop over the chain comes: to the end with a total, or to an error.
pub data Checked : Type 0 where
  all_passed : Option ℕ → Checked
  broken_on : List ℕ → Checked
  failed_at : Block → Checked

unfoldable pub process_chain :
    Processor → List ℕ → Option ℕ → ChainManager → Outcome (ChainManager × Checked)
unfolding get_block set_total unset_total
process_chain process [] td m = ok (m, all_passed td)
process_chain process (a ∷ c) td m =
    let b = (m.links a).block in
    elim (get_block b.prev_hash m) [
      | none ↦ ok (m, broken_on b.prev_hash)
      | some parent ↦ elim (process m b parent) [
        | none ↦ ok (m, failed_at b)
        | some none ↦ process_chain process c none (unset_total a m)
        | some (some t) ↦ process_chain process c (some t) (set_total a t m)
      ]
    ]

-- The parent of a link in the tree, which is none on the canonical chain, and the total that its own is
-- counted from with what is added to it: the difficulty of the block, but behind a canonical parent
-- that of the parent. `none` is a chain without a known parent.
unfoldable pub base_of : Option ℕ → Block → ChainManager → Option (Option ℕ × Option ℕ × ℕ)
unfolding find total_of get_block_canonical block_info_by_hash
base_of (some f) b m = some (some f, total_of f m, b.difficulty)
base_of none b m = elim (find b.prev_hash m.working_tree) [
  | some p ↦ some (some p, total_of p m, b.difficulty)
  | none ↦ elim (get_block_canonical b.prev_hash m) [
    | none ↦ none
    | some parent ↦ some (none, (block_info_by_hash parent.hash m).td, parent.difficulty)
  ]
]

abbrev pub first_of : List ℕ → List ℕ
first_of [] = []
first_of (a ∷ c) = a ∷ []

-- `base.Add(t, d)` sets the number at `base`, which the link's `td` then points to.
unfoldable pub put_link : ℕ → ℕ → Option ℕ → ℕ → List ℕ → ChainManager → ChainManager
unfolding write erase
put_link base a parent td behind m =
    let l = record (m.links a) { parent = parent; td = some base; children = first_of behind } in
    record m {
      links = write m.links a l;
      totals = write m.totals base td;
      working_tree = store (m.links a).block.hash a m.working_tree;
    }

-- The loop of addChainToWorkingTree with the link in front of the rest of the chain. It ends at a link
-- that it removes from the chain, whose `Next` is nil from then on.
unfoldable pub add_links : ℕ → Option ℕ → List ℕ → ChainManager → Outcome (List ℕ × ChainManager)
unfolding find base_of put_link
add_links base prev [] m = ok ([], m)
add_links base prev (a ∷ c) m = elim (find (m.links a).block.hash m.working_tree) [
  | some _ ↦ ok (c, m)
  | none ↦ elim (base_of prev (m.links a).block m) [
    | none ↦ ok (a ∷ c, m)
    | some (parent, none, d) ↦ panic
    | some (parent, some t, d) ↦
        add_links base (some a) c (put_link base a parent (t + d) c m) >>= λ r. ok (a ∷ r.0, r.1)
  ]
]

-- `base := new(big.Int)` in front of the loop.
unfoldable pub add_chain_to_working_tree : List ℕ → ChainManager → Outcome (List ℕ × ChainManager)
unfolding add_links write
add_chain_to_working_tree chain m =
    add_links m.next_total none chain
      (record m { totals = write m.totals m.next_total 0; next_total = suc m.next_total })

-- The chain, from which addChainToWorkingTree may remove a link, the manager and the answer.
pub record Tested : Type 0 where
  pub chain : List ℕ
  pub manager : ChainManager
  pub verdict : Verdict

-- What the deferred function leaves.
abbrev pub tested : List ℕ → Verdict → ChainManager → Tested
tested chain v m = record {
  chain = chain;
  manager = record m { working_chain = none };
  verdict = v;
}

unfoldable pub compare_totals : Option ℕ → List ℕ × ChainManager → Outcome Tested
compare_totals none (chain, m) = panic
compare_totals (some td) (chain, m) =
    ok (tested chain (if leb td m.td then low td m.td else passed td) m)

unfoldable pub end_test : Bool → List ℕ → ChainManager × Checked → Outcome Tested
unfolding add_chain_to_working_tree compare_totals
end_test fork chain (m, broken_on hash) = ok (tested chain (broken hash) m)
end_test fork chain (m, failed_at b) = ok (tested chain failed m)
end_test fork chain (m, all_passed td) =
    (if fork then add_chain_to_working_tree chain m else ok (chain, m)) >>= compare_totals td

unfoldable pub test_chain : Processor → List ℕ → ChainManager → Outcome Tested
unfolding is_fork process_chain end_test
test_chain process [] m = panic
test_chain process (a ∷ c) m =
    let m1 = record m { working_chain = some (a ∷ c) } in
    process_chain process (a ∷ c) none m1 >>= end_test (is_fork m1 (m.links a).block) (a ∷ c)
