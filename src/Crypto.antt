-- ===== src/Crypto.antt =====
-- monkcrypto: the words that a key is written down with.
pub mod Mnemonic
