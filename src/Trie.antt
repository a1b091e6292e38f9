-- ===== src/Trie.antt =====
-- monktrie: the Merkle trie, its keys, its nodes and the cache before the database.
pub mod Encoding
pub mod Slices
pub mod Tree
pub mod Nodes
pub mod Cache
