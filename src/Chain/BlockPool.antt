-- ===== src/Chain/BlockPool.antt =====
-- block_pool.go: the hashes that a node knows of, the blocks that it has for them, and the choice of
-- the blocks that it tries to append to its chain. Peers and times play no part in what is modelled, so
-- that an entry of the pool is a block that may be missing.
pub mod Pairs
pub mod Chosen
use thelonious.Base.{
  ◌%◌, ◌^◌, ℕ, suc, ◌+◌, List, [], ◌∷◌, ◌++◌, length, ltb, if◌then◌else◌, Bool, true, false, Option,
  none, some, take,
}
use thelonious.Util.Bytes.{delete_from_byte_slice}
use thelonious.Trie.Slices.{compare_int_slice}
use thelonious.Trie.Cache.{find, erase, store}

pub record Block : Type 0 where
  pub hash : List ℕ
  pub prev_hash : List ℕ
  pub number : ℕ

pub record BlockPool : Type 0 where
  pub hash_pool : List (List ℕ)
  pub pool : List (List ℕ × Option Block)
  pub blocks_processed : ℕ

unfoldable pub reset : BlockPool → BlockPool
reset p = record p { hash_pool = []; pool = [] }

unfoldable pub add_hash : List ℕ → BlockPool → BlockPool
unfolding find erase
add_hash hash p = elim (find hash p.pool) [
  | none ↦ record p { hash_pool = hash ∷ p.hash_pool; pool = store hash none p.pool }
  | some item ↦ p
]

-- What Add asks the chain manager; `latest` is LatestCheckPointNumber.
pub record ChainView : Type 0 where
  pub waiting : Bool
  pub latest : ℕ
  pub has_block : List ℕ → Bool

unfoldable pub put_block : Block → BlockPool → BlockPool
unfolding find erase
put_block b p = elim (find b.hash p.pool) [
  | none ↦ record p {
    hash_pool = p.hash_pool ++ (b.hash ∷ []);
    pool = store b.hash (some b) p.pool;
  }
  | some item ↦ record p { pool = store b.hash (some b) p.pool }
]

-- Add; what it does with a checkpoint is left to the chain manager.
unfoldable pub add : ChainView → Block → BlockPool → BlockPool
unfolding put_block
add v b p =
    if v.waiting
    then p
    else if ltb (b.number % 2 ^ 64) v.latest
    then p
    else if v.has_block b.hash
    then p
    else record (put_block b p) { blocks_processed = p.blocks_processed + 1 }

unfoldable pub remove : List ℕ → BlockPool → BlockPool
unfolding delete_from_byte_slice erase compare_int_slice
remove hash p = record p {
  hash_pool = delete_from_byte_slice (λ h. compare_int_slice h hash) p.hash_pool;
  pool = erase hash p.pool;
}

-- The blocks from the first one on whose parent is in the chain.
unfoldable pub from_attached : (List ℕ → Bool) → List Block → Option (List Block)
from_attached known [] = none
from_attached known (b ∷ bs) =
    let rest = from_attached known bs in if known b.prev_hash then some (b ∷ bs) else rest

-- Where in the blocks behind `b` one does not follow the one before it.
unfoldable pub broken_at : Block → List Block → Option ℕ
unfolding compare_int_slice
broken_at b [] = none
broken_at b (c ∷ cs) =
    let rest = broken_at c cs in
    if compare_int_slice c.prev_hash b.hash
    then elim rest [ none ↦ none | some i ↦ some (suc i) ]
    else some 0

-- `blocks = blocks[:i]` where the block behind the one at `i` does not follow it.
unfoldable pub first_chain : (List ℕ → Bool) → List Block → List Block
unfolding broken_at
first_chain known [] = []
first_chain known (b ∷ bs) =
    if known b.prev_hash
    then elim (broken_at b bs) [ none ↦ b ∷ bs | some i ↦ take i (b ∷ bs) ]
    else []

-- The blocks that chainThread tries to append, of the blocks of the pool in the order of their numbers.
unfoldable pub choose_blocks : (List ℕ → Bool) → List Block → List Block
unfolding from_attached first_chain
choose_blocks known blocks = elim (from_attached known blocks) [
  | none ↦ first_chain known blocks
  | some bs ↦ first_chain known bs
]
