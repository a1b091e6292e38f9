-- ===== src/Chain/Manager/Adding.antt =====
-- monkchain/chain_manager.go: what writes the canonical chain.
use thelonious.Base.{
  ℕ, suc, ◌+◌, ◌%◌, ◌^◌, List, [], ◌∷◌, if◌then◌else◌, none, some, Outcome, ok, panic, ◌==◌,
}
use thelonious.Trie.Cache.{store, erase}
use thelonious.Chain.Manager.{Block, BlockInfo, Link, ChainManager, total_of, write}

unfoldable pub set_total_difficulty : ℕ → ChainManager → ChainManager
set_total_difficulty td m = record m { known_td = td; td = td }

-- `block.Number.Cmp(big.NewInt(0)) != 0` in front of `currentBlockNumber++` on a uint64.
unfoldable pub next_number : Block → ℕ → ℕ
next_number b n = if b.number == 0 then n else (n + 1) % 2 ^ 64

unfoldable pub write_block_info : Block → ChainManager → ChainManager
unfolding next_number erase
write_block_info b m =
    let n = next_number b m.current_block_number in
    let i : BlockInfo = record {
      number = n;
      hash = b.hash;
      parent = b.prev_hash;
      td = some m.td;
    } in
    record m { current_block_number = n; infos = store b.hash i m.infos }

unfoldable pub add : Block → ChainManager → ChainManager
unfolding write_block_info erase
add b m = record (write_block_info b m) {
  current_block = b;
  current_block_hash = b.hash;
  blocks = store b.hash b m.blocks;
  last_block = some b;
}

-- The unexported insertChain: each block's total is set and the block is added.
unfoldable pub lengthen : List ℕ → ChainManager → Outcome ChainManager
unfolding total_of set_total_difficulty add
lengthen [] m = ok m
lengthen (a ∷ c) m = elim (total_of a m) [
  | none ↦ panic
  | some td ↦ lengthen c (add (m.links a).block (set_total_difficulty td m))
]

-- Links without a total for the blocks, in their order.
unfoldable pub new_links : List Block → ChainManager → List ℕ × ChainManager
unfolding write
new_links [] m = ([], m)
new_links (b ∷ bs) m =
    let l : Link = record { block = b; td = none; parent = none; children = [] } in
    let (c, m') =
      new_links bs
        (record m { links = write m.links m.next_link l; next_link = suc m.next_link }) in
    (m.next_link ∷ c, m')
