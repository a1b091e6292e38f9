-- ===== src/Tests/Nodes.antt =====
-- The trie's nodes at concrete inputs.
use thelonious.Base.{
  ℕ, ◌+◌, ◌*◌, ◌%◌, ◌≡◌, refl, arith, List, [], ◌∷◌, length, Option, none, Outcome, ok, panic,
  out_of_fuel, slice,
}
use thelonious.Trie.Encoding.{compact_hex_decode, compact_encode, compact_decode}
use thelonious.Rlp.Encode.{write_slice_header, encode_bytes}
use thelonious.Trie.Slices.{matching_nibble_length}
use thelonious.Trie.Tree.{leaf, insert}
use thelonious.Trie.Nodes.{Item, Node, text, Store, find_node, update_trie, get_trie}
use thelonious.Trie.Nodes.Histories.{
  latest, Written, fresh, written, get_trie-Written, update_trie-total, update_trie-Means,
}
use thelonious.Trie.Tree.Insertion.{IsTree}
use thelonious.Trie.Nodes.Stores.{IsSound}
use thelonious.Trie.Nodes.Refines.{Means}

-- A hash of 32 bytes, for the tests.
unfoldable digest : List ℕ → ℕ
digest [] = 7
digest (x ∷ b) = (31 * digest b + x) % 256

unfoldable toy : List ℕ → List ℕ
unfolding digest
toy b =
    digest b
    ∷ 0
    ∷ 0
    ∷ 0
    ∷ 0
    ∷ 0
    ∷ 0
    ∷ 0
    ∷ 0
    ∷ 0
    ∷ 0
    ∷ 0
    ∷ 0
    ∷ 0
    ∷ 0
    ∷ 0
    ∷ 0
    ∷ 0
    ∷ 0
    ∷ 0
    ∷ 0
    ∷ 0
    ∷ 0
    ∷ 0
    ∷ 0
    ∷ 0
    ∷ 0
    ∷ 0
    ∷ 0
    ∷ 0
    ∷ 0
    ∷ 0
    ∷ []

abbrev no_short : List ℕ → Option Node
no_short b = none

abbrev result : Outcome (Item × Store) → Item × Store
result (ok r) = r
result panic = (text [], [])
result out_of_fuel = (text [], [])

unfoldable first : Item × Store
unfolding update_trie toy
first = result (update_trie toy no_short (text []) (0x12 ∷ []) (1 ∷ 2 ∷ 3 ∷ []) [])

unfoldable second : Item × Store
unfolding update_trie toy first
second = result (update_trie toy no_short first.0 (0x13 ∷ []) (5 ∷ []) first.1)

toy_sized : (b : List ℕ) → length (toy b) ≡ 32
unfolding toy
toy_sized b = refl

first_lem :
    update_trie toy no_short (text []) (0x12 ∷ []) (1 ∷ 2 ∷ 3 ∷ []) [] ≡ ok (first.0, first.1)
unfolding update_trie toy first compact_hex_decode compact_encode write_slice_header encode_bytes
first_lem = refl

second_lem : update_trie toy no_short first.0 (0x13 ∷ []) (5 ∷ []) first.1 ≡ ok (second.0, second.1)
unfolding update_trie toy first second compact_hex_decode compact_encode write_slice_header
    encode_bytes compact_decode slice matching_nibble_length
second_lem = refl

abbrev two_updates : List (List ℕ × List ℕ)
two_updates = (0x13 ∷ [], 5 ∷ []) ∷ (0x12 ∷ [], 1 ∷ 2 ∷ 3 ∷ []) ∷ []

second-Written : Written toy no_short two_updates second.0 second.1
second-Written =
    written (0x13 ∷ []) (5 ∷ [])
      (written (0x12 ∷ []) (1 ∷ 2 ∷ 3 ∷ []) fresh (omega arith) first_lem) (omega arith) second_lem

second-IsSound : IsSound second.1
unfolding first second find_node compact_hex_decode compact_encode write_slice_header encode_bytes
    compact_decode slice matching_nibble_length
second-IsSound = ((λ m e. cc), ((λ m e. cc), tt))

get_trie-Written_example :
    get_trie toy no_short second.0 (0x12 ∷ []) second.1 ≡ ok (latest two_updates (0x12 ∷ []))
get_trie-Written_example =
    get_trie-Written toy no_short toy_sized two_updates second.0 second.1 (0x12 ∷ []) second-Written
      second-IsSound (omega arith)

latest_runs : latest two_updates (0x12 ∷ []) ≡ 1 ∷ 2 ∷ 3 ∷ []
unfolding latest
latest_runs = refl

update_trie-total_example :
    (root : Item) × (s : Store) × (update_trie toy no_short second.0 (0x12 ∷ []) (9 ∷ []) second.1
      ≡ ok (root, s))
update_trie-total_example =
    update_trie-total toy no_short toy_sized two_updates second.0 second.1 (0x12 ∷ []) (9 ∷ [])
      second-Written second-IsSound (omega arith)

first-IsSound : IsSound first.1
unfolding first find_node compact_hex_decode compact_encode write_slice_header encode_bytes
first-IsSound = ((λ m e. cc), tt)

update_trie-Means_example :
    Means toy no_short first.1 first.0
      (insert (leaf []) (compact_hex_decode (0x12 ∷ [])) (1 ∷ 2 ∷ 3 ∷ []))
    × IsTree (insert (leaf []) (compact_hex_decode (0x12 ∷ [])) (1 ∷ 2 ∷ 3 ∷ []))
update_trie-Means_example =
    update_trie-Means toy no_short toy_sized (text []) first.0 [] first.1 (leaf []) (0x12 ∷ [])
      (1 ∷ 2 ∷ 3 ∷ []) refl refl (omega arith) first_lem first-IsSound
