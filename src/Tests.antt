-- ===== src/Tests.antt =====
-- Runs of the models at concrete inputs, and the theorems at concrete inputs.
mod Util
mod Rlp
mod Trie
mod Nodes
mod Cache
mod Vm
mod Loop
mod Chain
mod BlockPool
mod Manager
mod Summed
mod Walks
mod Rewards
mod Crypto
mod React
mod Pool
