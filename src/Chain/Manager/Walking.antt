-- ===== src/Chain/Manager/Walking.antt =====
-- monkchain/chain_manager.go: the walks back along the hashes of the parents. A block that is not known
-- is a nil pointer, which ends the walk or panics; fuel is for a walk that a cycle would not let end.
use thelonious.Base.{
  ℕ, zero, suc, ◌%◌, ◌^◌, List, [], ◌∷◌, if◌then◌else◌, Bool, true, false, not, ◌&&◌, Option, none,
  some, Outcome, ok, panic, out_of_fuel, ◌>>=◌, ◌==◌,
}
use thelonious.Trie.Slices.{compare_int_slice}
use thelonious.Chain.Manager.{Block, ChainManager, get_block}

unfoldable pub walk_to : ℕ → ℕ → Option Block → ChainManager → Outcome (Option Block)
unfolding get_block
walk_to fuel num none m = ok none
walk_to zero num (some b) m = out_of_fuel
walk_to (suc n) num (some b) m =
    let rest = walk_to n num (get_block b.prev_hash m) m in
    if b.number % 2 ^ 64 == num then ok (some b) else rest

abbrev pub unless_genesis : ℕ → Option Block → Option Block
unless_genesis num none = none
unless_genesis num (some b) = if (b.number % 2 ^ 64 == 0) && not (num == 0) then none else some b

unfoldable pub get_block_by_number : ℕ → ℕ → ChainManager → Outcome (Option Block)
unfolding walk_to
get_block_by_number fuel num m =
    walk_to fuel num (some m.current_block) m >>= λ o. ok (unless_genesis num o)

unfoldable pub step_back : ℕ → Option Block → ChainManager → Option Block
unfolding get_block
step_back zero o m = o
step_back (suc n) none m = none
step_back (suc n) (some b) m = step_back n (get_block b.prev_hash m) m

unfoldable pub get_block_back : ℕ → ChainManager → Option Block
unfolding step_back
get_block_back num m = step_back num (some m.current_block) m

unfoldable pub has_parent : ℕ → List ℕ → Option Block → ChainManager → Outcome Bool
unfolding get_block compare_int_slice
has_parent fuel hash none m = ok false
has_parent zero hash (some b) m = out_of_fuel
has_parent (suc n) hash (some b) m =
    let rest = has_parent n hash (get_block b.prev_hash m) m in
    if compare_int_slice hash b.prev_hash then ok true else rest

unfoldable pub has_block_with_prev_hash : ℕ → List ℕ → ChainManager → Outcome Bool
unfolding has_parent
has_block_with_prev_hash fuel hash m = has_parent fuel hash (some m.current_block) m

-- `max` rounds of the loop; a block without a known parent panics in the next one.
unfoldable pub hashes_back : ℕ → Option Block → ChainManager → Outcome (List (List ℕ))
unfolding get_block
hashes_back zero o m = ok []
hashes_back (suc n) none m = panic
hashes_back (suc n) (some b) m =
    let rest = hashes_back n (get_block b.prev_hash m) m in
    if b.number == 0 then ok (b.hash ∷ []) else rest >>= λ hs. ok (b.hash ∷ hs)

unfoldable pub get_chain_hashes_from_hash : List ℕ → ℕ → ChainManager → Outcome (List (List ℕ))
unfolding get_block hashes_back
get_chain_hashes_from_hash hash max m = elim (get_block hash m) [
  | none ↦ ok []
  | some b ↦ hashes_back max (some b) m
]
