-- ===== src/Util.antt =====
-- monkutil: byte slices, numbers and their big-endian forms.
pub mod Big
pub mod Bytes
