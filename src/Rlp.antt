-- ===== src/Rlp.antt =====
-- RLP, the serialisation of all data that is hashed, stored or sent: monkutil/rlp.go.
pub mod Values
pub mod Encode
pub mod Decode
pub mod Heads
pub mod RoundTrip
pub mod Total
pub mod Numbers
