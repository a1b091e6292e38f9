-- ===== src/Chain/Manager/Checkpoints.antt =====
-- monkchain/chain_manager.go: the checkpoint of the chain, which is a block's hash that is known before
-- the block may be. The protocol that judges a proposal is a parameter.
use thelonious.Base.{ℕ, ◌%◌, ◌^◌, List, if◌then◌else◌, Bool, true, false, Option, none, some}
use thelonious.Trie.Slices.{compare_int_slice}
use thelonious.Chain.Manager.{Block, ChainManager, get_block}
use thelonious.Chain.Manager.Adding.{add}

unfoldable pub update_checkpoint : List ℕ → ChainManager → ChainManager
unfolding get_block
update_checkpoint hash m = elim (get_block hash m) [
  | some b ↦ record m {
    latest_check_point_hash = hash;
    waiting_for_check_point = false;
    latest_check_point_block = some b;
    latest_check_point_number = b.number % 2 ^ 64;
    check_point_key = some b.hash;
  }
  | none ↦ record m { latest_check_point_hash = hash; waiting_for_check_point = true }
]

-- `proposed` is nil for `none`.
unfoldable pub check_point :
    (List ℕ → ChainManager → Bool) → Option (List ℕ) → ChainManager → ChainManager
unfolding compare_int_slice update_checkpoint
check_point accepts none m = m
check_point accepts (some proposed) m =
    if compare_int_slice m.latest_check_point_hash m.genesis_block.hash
    then update_checkpoint proposed m
    else if accepts proposed m
    then update_checkpoint proposed m
    else m

unfoldable pub is_checkpoint : List ℕ → ChainManager → Bool
unfolding compare_int_slice
is_checkpoint hash m = compare_int_slice hash m.latest_check_point_hash

unfoldable pub receive_check_point_block : Option Block → ChainManager → Bool × ChainManager
unfolding is_checkpoint add update_checkpoint
receive_check_point_block none m = (false, m)
receive_check_point_block (some b) m =
    if is_checkpoint b.hash m then (true, update_checkpoint b.hash (add b m)) else (false, m)

abbrev pub stored_or : List ℕ → Option (List ℕ) → List ℕ
stored_or genesis none = genesis
stored_or genesis (some hash) = hash

unfoldable pub load_checkpoint : ChainManager → ChainManager
unfolding update_checkpoint
load_checkpoint m = update_checkpoint (stored_or m.genesis_block.hash m.check_point_key) m

-- Reset, the start of a chain without a last block.
unfoldable pub reset_chain : ChainManager → ChainManager
unfolding add
reset_chain m =
    let b = m.genesis_block in
    record (add b m) {
      current_block = b;
      current_block_hash = b.hash;
      current_block_number = b.number % 2 ^ 64;
    }
