-- ===== src/Trie/Tree.antt =====
-- What the trie of monktrie/trie.go stands for: a tree over nibbles, with no hashes and no cache.
pub mod Keys
pub mod Insertion
pub mod Lookups
pub mod Laws
pub mod Form
use thelonious.Base.{
  ℕ, zero, suc, ◌+◌, ◌==◌, List, [], ◌∷◌, length, if◌then◌else◌, Bool, true, false, Option, none,
  some, get_or, take, drop,
}
use thelonious.Trie.Slices.{compare_int_slice, matching_nibble_length}

-- `leaf []` is the empty trie.
pub data Tree : Type 0 where
  leaf : List ℕ → Tree
  ext : List ℕ → Tree → Tree
  branch : (ℕ → Tree) → Tree

-- What stands behind a prefix of a key.
unfoldable pub strip : List ℕ → List ℕ → Option (List ℕ)
strip [] key = some key
strip (a ∷ k) [] = none
strip (a ∷ k) (b ∷ key) = if a == b then strip k key else none

unfoldable pub lookup : Tree → List ℕ → List ℕ
unfolding strip
lookup (leaf v) [] = v
lookup (leaf v) (x ∷ key) = []
lookup (ext k t) key = elim (strip k key) [ none ↦ [] | some rest ↦ lookup t rest ]
lookup (branch f) [] = []
lookup (branch f) (x ∷ key) = lookup (f x) key

-- A tree behind a key that may be empty.
abbrev pub behind : List ℕ → Tree → Tree
behind [] t = t
behind (x ∷ k) t = ext (x ∷ k) t

abbrev pub fork : ℕ → Tree → (ℕ → Tree) → ℕ → Tree
fork x t f i = if i == x then t else f i

abbrev pub nothing : ℕ → Tree
nothing i = leaf []

unfoldable pub insert : Tree → List ℕ → List ℕ → Tree
unfolding compare_int_slice matching_nibble_length
insert t [] v = leaf v
insert (leaf w) (x ∷ key) v = ext (x ∷ key) (leaf v)
insert (ext k t) (x ∷ key) v =
    let m = matching_nibble_length (x ∷ key) k in
    let deeper = insert t (drop m (x ∷ key)) v in
    if compare_int_slice k (x ∷ key)
    then ext (x ∷ key) (leaf v)
    else behind (take m (x ∷ key)) (
        if m == length k
        then deeper
        else branch (
            fork (get_or (x ∷ key) m 0) (behind (drop (m + 1) (x ∷ key)) (leaf v))
              (fork (get_or k m 0) (behind (drop (m + 1) k) t) nothing)))
insert (branch f) (x ∷ key) v = let deeper = insert (f x) key v in branch (fork x deeper f)
