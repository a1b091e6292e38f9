-- ===== src/State.antt =====
-- monkstate: the objects of the world state and the map that holds them.
pub mod Objects
pub mod Accounts
