-- ===== src/Trie/Nodes/Refines.antt =====
-- What a node of the trie stands for: a tree over nibbles, where hashes are replaced by what the cache
-- holds under them.
pub mod Reading
pub mod Parts
pub mod Writing
use thelonious.Base.{ℕ, ◌≡◌, List, [], some, ok, ◌⊎◌, Option}
use thelonious.Trie.Encoding.{compact_decode}
use thelonious.Trie.Tree.{Tree, leaf, ext}
use thelonious.Trie.Tree.Keys.{IsKey}
use thelonious.Trie.Tree.Insertion.{IsLeaf, IsTree}
use thelonious.Trie.Nodes.{Item, Node, text, pair, Store, get_node}
use thelonious.Trie.Nodes.Stores.{Keeps, get_node-Keeps}

-- A tree and a key that is read in it: the trees below a value's key are values.
abbrev pub Fits : Tree → List ℕ → Type 0
Fits t q = (IsTree t × IsKey q) ⊎ (IsLeaf t × (q ≡ []))

module _ (sha3 : List ℕ → List ℕ) (parse_short : List ℕ → Option Node) where
  abbrev pub Means : Store → Item → Tree → Type 0
  Means s i (leaf v) = i ≡ text v
  Means s i (ext k t) =
      (c : List ℕ) × (v : Item) × (get_node sha3 parse_short i s ≡ some (pair c v))
      × (compact_decode c ≡ ok k)
      × Means s v t
  Means s i (Tree.branch f) =
      (g : ℕ → Item) × (get_node sha3 parse_short i s ≡ some (Node.branch g))
      × ((x : ℕ) → Means s (g x) (f x))

  -- It still stands for it when nodes were added.
  pub Means-Keeps : (s s' : Store) → Keeps s s' → (i : Item) (t : Tree) → Means s i t → Means s' i t
  Means-Keeps s s' k i (leaf v) m = m
  Means-Keeps s s' k i (ext l t) (c, v, e, d, m) =
      (c, v, get_node-Keeps sha3 parse_short i (pair c v) s s' k e, d, Means-Keeps s s' k v t m)
  Means-Keeps s s' k i (Tree.branch f) (g, e, m) = (
    g,
    get_node-Keeps sha3 parse_short i (Node.branch g) s s' k e,
    λ x. Means-Keeps s s' k (g x) (f x) (m x),
  )
