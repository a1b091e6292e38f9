-- ===== src/Chain.antt =====
-- monkchain: how transactions change the state, the pool that they wait in, and the Bloom filter; and
-- the pool of blocks of block_pool.go.
pub mod Transition
pub mod TransactionPool
pub mod Bloom
pub mod BlockPool
pub mod Manager
pub mod Rewards
