-- ===== src/Chain/Manager.antt =====
-- monkchain/chain_manager.go: the canonical chain in the database, the links of the working tree and
-- of an incoming chain, and what is looked up in them. A `*link` is a place in `links`, the `*big.Int`
-- of its `td` a place in `totals`, so that two links may share one total. `blocks`, `infos`,
-- `last_block` and `known_td` are the entries of the database: the blocks under their hashes, the
-- BlockInfos under a hash followed by "Info", "LastBlock" and "LTD", each as what was encoded, and
-- `check_point_key` is what stands under "LatestCheckPoint". A block carries its hash, and of its
-- uncles the difficulties.
pub mod Adding
pub mod Testing
pub mod Inserting
pub mod Walking
pub mod Checkpoints
pub mod Kept
pub mod Lengthens
pub mod Totals
pub mod Taken
pub mod News
pub mod Summed
pub mod Sound
pub mod Branches
pub mod Walks
pub mod Hashes
pub mod Checked
pub mod Shares
use thelonious.Base.{
  ℕ, zero, suc, ◌+◌, ◌-◌, ◌*◌, ◌/◌, ◌%◌, ◌^◌, List, [], ◌∷◌, leb, if◌then◌else◌, Bool, true, false,
  Option, none, some, Outcome, ok, panic, ◌==◌,
}
use thelonious.Trie.Slices.{compare_int_slice}
use thelonious.Trie.Cache.{find}

pub record Block : Type 0 where
  pub hash : List ℕ
  pub prev_hash : List ℕ
  pub number : ℕ
  pub time : ℕ
  pub difficulty : ℕ
  pub uncles : List ℕ

-- `td` is `none` where the code hands on a nil pointer.
pub record BlockInfo : Type 0 where
  pub number : ℕ
  pub hash : List ℕ
  pub parent : List ℕ
  pub td : Option ℕ

pub record Link : Type 0 where
  pub block : Block
  pub td : Option ℕ
  pub parent : Option ℕ
  pub children : List ℕ

pub record ChainManager : Type 0 where
  pub blocks : List (List ℕ × Block)
  pub infos : List (List ℕ × BlockInfo)
  pub last_block : Option Block
  pub known_td : ℕ
  pub td : ℕ
  pub current_block_number : ℕ
  pub current_block : Block
  pub current_block_hash : List ℕ
  pub genesis_block : Block
  pub check_point_key : Option (List ℕ)
  pub latest_check_point_hash : List ℕ
  pub latest_check_point_block : Option Block
  pub latest_check_point_number : ℕ
  pub waiting_for_check_point : Bool
  pub working_tree : List (List ℕ × ℕ)
  pub working_chain : Option (List ℕ)
  pub links : ℕ → Link
  pub totals : ℕ → ℕ
  pub next_link : ℕ
  pub next_total : ℕ

-- One place of a store.
unfoldable pub write : {A : Type 0} → (ℕ → A) → ℕ → A → ℕ → A
write f i a j = if j == i then a else f j

unfoldable pub calc_difficulty : Block → Block → ℕ
calc_difficulty block parent =
    let adjust = parent.difficulty / 2 ^ 10 in
    if leb (parent.time + 5) block.time
    then parent.difficulty - adjust
    else parent.difficulty + adjust

-- The number behind a link's pointer; `none` is the nil pointer.
unfoldable pub total_of : ℕ → ChainManager → Option ℕ
total_of a m = elim (m.links a).td [ none ↦ none | some t ↦ some (m.totals t) ]

unfoldable pub in_chain : (ℕ → Link) → List ℕ → List ℕ → Option ℕ
unfolding compare_int_slice
in_chain links hash [] = none
in_chain links hash (a ∷ c) =
    let rest = in_chain links hash c in
    if compare_int_slice (links a).block.hash hash then some a else rest

-- The first link of the working tree, or else of the working chain, with the hash.
unfoldable pub working_link : List ℕ → ChainManager → Option ℕ
unfolding find in_chain
working_link hash m = elim (find hash m.working_tree) [
  | some a ↦ some a
  | none ↦ elim m.working_chain [ none ↦ none | some chain ↦ in_chain m.links hash chain ]
]

unfoldable pub get_block_working : List ℕ → ChainManager → Option Block
unfolding working_link
get_block_working hash m = elim (working_link hash m) [
  | none ↦ none
  | some a ↦ some (m.links a).block
]

unfoldable pub get_block_canonical : List ℕ → ChainManager → Option Block
unfolding find
get_block_canonical hash m = find hash m.blocks

unfoldable pub get_block : List ℕ → ChainManager → Option Block
unfolding get_block_canonical get_block_working
get_block hash m = elim (get_block_canonical hash m) [
  | some b ↦ some b
  | none ↦ get_block_working hash m
]

-- What RlpDecode makes of no bytes.
abbrev pub no_info : BlockInfo
no_info = record { number = 0; hash = []; parent = []; td = some 0 }

unfoldable pub block_info_by_hash : List ℕ → ChainManager → BlockInfo
unfolding find
block_info_by_hash hash m = elim (find hash m.infos) [ some i ↦ i | none ↦ no_info ]

unfoldable pub link_info : ℕ → ChainManager → BlockInfo
unfolding total_of
link_info a m =
    let b = (m.links a).block in
    record { number = b.number % 2 ^ 64; hash = b.hash; parent = b.prev_hash; td = total_of a m }

unfoldable pub block_info : Block → ChainManager → BlockInfo
unfolding find working_link link_info
block_info b m = elim (find b.hash m.infos) [
  | some i ↦ i
  | none ↦ elim (working_link b.hash m) [ some a ↦ link_info a m | none ↦ no_info ]
]

unfoldable pub sum : List ℕ → ℕ
sum [] = zero
sum (u ∷ us) = u + sum us

unfoldable pub calculate_block_td : Block → ℕ
unfolding sum
calculate_block_td b = sum b.uncles + b.difficulty

-- `none` is the error of an unknown parent; adding to a nil total panics.
unfoldable pub calc_total_diff : Block → ChainManager → Outcome (Option ℕ)
unfolding get_block block_info sum
calc_total_diff b m = elim (get_block b.prev_hash m) [
  | none ↦ ok none
  | some parent ↦ elim (block_info parent m).td [
    | none ↦ panic
    | some parent_td ↦ ok (some (parent_td + sum b.uncles + b.difficulty))
  ]
]
