-- ===== src/Trie/Nodes.antt =====
-- monktrie/trie.go: the nodes of the trie, the part of the cache that holds them, and what Update and
-- Get do with them. A node is an `interface{}`: a text (a value, the empty text or the hash of a
-- node that the cache holds) or a slice. A slice of 17 is a function of the index, which is the
-- empty text from 17 on.
pub mod Stores
pub mod Refines
pub mod Rises
pub mod Histories
use thelonious.Base.{
  ℕ, zero, suc, ◌+◌, ◌==◌, List, [], ◌∷◌, length, ltb, leb, if◌then◌else◌, Bool, true, false, ◌&&◌,
  ◌||◌, Option, none, some, Outcome, ok, panic, out_of_fuel, ◌>>=◌, index, take, drop,
}
use thelonious.Rlp.Values.{Value, Values}
use thelonious.Rlp.Encode.{encode}
use thelonious.Trie.Encoding.{compact_encode, compact_decode, compact_hex_decode}
use thelonious.Trie.Slices.{compare_int_slice, matching_nibble_length}

mutual
  pub data Item : Type 0 where
    text : List ℕ → Item
    inline : Node → Item

  -- A slice of 2, with the compact form of its key, or of 17.
  pub data Node : Type 0 where
    pair : List ℕ → Item → Node
    branch : (ℕ → Item) → Node

-- EmptyStringSlice(17)
abbrev pub empty_slice : ℕ → Item
empty_slice i = text []

abbrev pub put_at : ℕ → Item → (ℕ → Item) → ℕ → Item
put_at x v g i = if i == x then v else g i

-- The slice of the first `n` answers of a function, behind those given.
unfoldable pub values_of : (ℕ → Value) → ℕ → Values → Values
values_of f zero vs = vs
values_of f (suc n) vs = values_of f n (Values.item (f n) vs)

-- The value that Encode sees.
unfoldable mutual
  unfolding values_of

  pub item_value : Item → Value
  item_value (text t) = Value.str t
  item_value (inline n) = node_value n

  pub node_value : Node → Value
  node_value (pair c v) =
      Value.slice (Values.item (Value.str c) (Values.item (item_value v) Values.empty))
  node_value (branch g) = Value.slice (values_of (λ i. item_value (g i)) 17 Values.empty)

-- The nodes of the cache, the latest first: a Go map, where a later entry hides an earlier one.
abbrev pub Store : Type 0
Store = List (List ℕ × Node)

unfoldable pub find_node : List ℕ → Store → Option Node
unfolding compare_int_slice
find_node k [] = none
find_node k ((j, n) ∷ s) =
    let rest = find_node k s in if compare_int_slice k j then some n else rest

-- `n.Len() == 0`; a slice has 2 or 17 elements.
abbrev pub is_empty : Item → Bool
is_empty (text t) = length t == 0
is_empty (inline n) = false

-- `c.Str()`: a slice has no text.
abbrev pub text_of : Item → List ℕ
text_of (text t) = t
text_of (inline n) = []

-- `sha3` is Sha3Bin. `parse_short` is the node that the RLP of a text of 1 to 31 bytes holds, which
-- is asked for where such a text stands in the place of a node.
module _ (sha3 : List ℕ → List ℕ) (parse_short : List ℕ → Option Node) where
  -- PutValue with the RLP of the node.
  unfoldable pub put_value : Node → Bool → Store → Item × Store
  unfolding node_value encode
  put_value n force s =
      let enc = encode (node_value n) in
      if leb 32 (length enc) || force then (text (sha3 enc), (sha3 enc, n) ∷ s) else (inline n, s)

  abbrev pub put : Node → Store → Item × Store
  put n s = put_value n false s

  -- `none` is a nil value, of length 0, also for a hash that the cache and the database do not have.
  unfoldable pub get_node : Item → Store → Option Node
  unfolding find_node
  get_node (inline n) s = some n
  get_node (text t) s =
      if length t == 0 then none else if ltb (length t) 32 then parse_short t else find_node t s

  -- Every round takes at least a nibble off the key, unless a node has an empty key.
  unfoldable pub get_state : ℕ → Item → List ℕ → Store → Outcome Item
  unfolding get_node
  get_state zero node key s = out_of_fuel
  get_state (suc f) node [] s = ok node
  get_state (suc f) node (x ∷ key) s = elim (is_empty node) [
    | true ↦ ok node
    | false ↦ elim (get_node node s) [
      | none ↦ ok (text [])
      | some (pair c v) ↦ compact_decode c >>= λ k.
          elim (leb (length k) (length (x ∷ key))
            && compare_int_slice k (take (length k) (x ∷ key))) [
              | true ↦ get_state f v (drop (length k) (x ∷ key)) s
              | false ↦ ok (text [])
            ]
      | some (branch g) ↦ get_state f (g x) key s
    ]
  ]

  -- InsertState at a node that is empty.
  unfoldable pub put_new : List ℕ → Item → Store → Outcome (Item × Store)
  unfolding put_value
  put_new [] value s = ok (value, s)
  put_new (x ∷ key) value s = compact_encode (x ∷ key) >>= λ c. ok (put (pair c value) s)

  -- A slice of 2 becomes one of 17 where its key and the new one part.
  unfoldable pub expand : List ℕ → Item → List ℕ → Item → ℕ → Store → Outcome (Item × Store)
  unfolding put_new put_value
  expand k v key value m s = do
    (old, s) ← put_new (drop (m + 1) k) v s
    (new, s) ← put_new (drop (m + 1) key) value s
    a ← index k m
    b ← index key m
    ok (put (branch (put_at b new (put_at a old empty_slice))) s)

  -- The case of a slice of 2 over the insertion further down.
  unfoldable pub insert_pair :
      (Item → List ℕ → Store → Outcome (Item × Store))
      → List ℕ
      → Item
      → List ℕ
      → Item
      → Store
      → Outcome (Item × Store)
  unfolding put_new expand put_value
  insert_pair deeper k v key value s =
      if compare_int_slice k key
      then put_new key value s
      else (let m = matching_nibble_length key k in
          (if m == length k then deeper v (drop m key) s else expand k v key value m s)
          >>= λ (h, s'). if m == 0 then ok (h, s') else put_new (take m key) h s')

  unfoldable pub insert_state : ℕ → Item → List ℕ → Item → Store → Outcome (Item × Store)
  unfolding get_node put_new insert_pair put_value
  insert_state zero node key value s = out_of_fuel
  insert_state (suc f) node [] value s = ok (value, s)
  insert_state (suc f) node (x ∷ key) value s = elim (is_empty node) [
    | true ↦ put_new (x ∷ key) value s
    | false ↦ elim (get_node node s) [
      | some (pair c v) ↦ compact_decode c >>= λ k.
          insert_pair (λ v' key' s'. insert_state f v' key' value s') k v (x ∷ key) value s
      | some (branch g) ↦
          insert_state f (g x) key value s >>= λ (i, s'). ok (put (branch (put_at x i g)) s')
      | none ↦ insert_state f (text []) key value s >>= λ (i, s').
          ok (put (branch (put_at x i empty_slice)) s')
    ]
  ]

  -- A root that is a slice is put in the cache, however short.
  unfoldable pub settle_root : Item × Store → Item × Store
  unfolding put_value
  settle_root (text t, s) = (text t, s)
  settle_root (inline n, s) = put_value n true s

  -- Update, over the root and the cache.
  unfoldable pub update_trie : Item → List ℕ → List ℕ → Store → Outcome (Item × Store)
  unfolding insert_state settle_root
  update_trie root key value s =
      let k = compact_hex_decode key in
      insert_state (length k + 1) root k (text value) s >>= λ r. ok (settle_root r)

  -- Get
  unfoldable pub get_trie : Item → List ℕ → Store → Outcome (List ℕ)
  unfolding get_state
  get_trie root key s =
      let k = compact_hex_decode key in get_state (length k + 1) root k s >>= λ i. ok (text_of i)
