-- ===== src/Trie/Cache.antt =====
-- monktrie/trie.go: the cache before the database, with what is put in it and not yet committed marked
-- as dirty. A Go map is a list with no key twice; the order in which Commit goes through it is that of
-- the list.
pub mod Maps
pub mod Laws
pub mod Steps
use thelonious.Base.{
  ℕ, List, [], ◌∷◌, length, ltb, if◌then◌else◌, Bool, true, false, Option, none, some,
}
use thelonious.Trie.Slices.{compare_int_slice}

pub record Entry (V : Type 0) : Type 0 where
  pub value : V
  pub dirty : Bool

pub record Cache (V : Type 0) : Type 0 where
  pub nodes : List (List ℕ × Entry V)
  pub db : List (List ℕ × List ℕ)
  pub is_dirty : Bool

unfoldable pub find {ℓ} : {A : Type ℓ} → List ℕ → List (List ℕ × A) → Option A
unfolding compare_int_slice
find k [] = none
find k ((j, a) ∷ l) = let rest = find k l in if compare_int_slice k j then some a else rest

unfoldable pub erase {ℓ} : {A : Type ℓ} → List ℕ → List (List ℕ × A) → List (List ℕ × A)
unfolding compare_int_slice
erase k [] = []
erase k ((j, a) ∷ l) = let rest = erase k l in if compare_int_slice k j then rest else (j, a) ∷ rest

-- Setting a key of a map.
abbrev pub store {ℓ} : {A : Type ℓ} → List ℕ → A → List (List ℕ × A) → List (List ℕ × A)
store k a l = (k, a) ∷ erase k l

-- PutValue where the encoding is long or the node is forced in, under the hash of the encoding.
unfoldable pub put_entry : {V : Type 0} → List ℕ → V → Cache V → Cache V
unfolding erase
put_entry k v c = record c {
  nodes = store k (record { value = v; dirty = true }) c.nodes;
  is_dirty = true;
}

-- A key that is not there gives no bytes.
abbrev pub or_nothing : Option (List ℕ) → List ℕ
or_nothing none = []
or_nothing (some bytes) = bytes

-- The value in the database. `dec` is NewValueFromBytes, which gives the nil value for no bytes.
unfoldable pub load : {V : Type 0} → (List ℕ → V) → List ℕ → Cache V → V
unfolding find
load dec k c = dec (or_nothing (find k c.db))

-- Get
unfoldable pub get : {V : Type 0} → (List ℕ → V) → List ℕ → Cache V → V × Cache V
unfolding find erase load
get dec k c = elim (find k c.nodes) [
  | some e ↦ (e.value, c)
  | none ↦ (
    load dec k c,
    record c { nodes = store k (record { value = load dec k c; dirty = false }) c.nodes },
  )
]

-- Delete
unfoldable pub delete : {V : Type 0} → List ℕ → Cache V → Cache V
unfolding erase
delete k c = record c { nodes = erase k c.nodes; db = erase k c.db }

-- The loop of Commit over the nodes; `enc` is Value.Encode.
unfoldable pub write_dirty :
    {V : Type 0}
    → (V → List ℕ)
    → List (List ℕ × Entry V)
    → List (List ℕ × List ℕ)
    → List (List ℕ × List ℕ)
unfolding erase
write_dirty enc [] db = db
write_dirty enc ((k, e) ∷ l) db =
    write_dirty enc l (if e.dirty then store k (enc e.value) db else db)

abbrev pub clean : {V : Type 0} → Entry V → Entry V
clean e = record e { dirty = false }

unfoldable pub clean_all : {V : Type 0} → List (List ℕ × Entry V) → List (List ℕ × Entry V)
clean_all [] = []
clean_all ((k, e) ∷ l) = (k, clean e) ∷ clean_all l

-- Commit
unfoldable pub commit : {V : Type 0} → (V → List ℕ) → Cache V → Cache V
unfolding write_dirty clean_all
commit enc c =
    if c.is_dirty
    then record {
      nodes = if ltb 200 (length c.nodes) then [] else clean_all c.nodes;
      db = write_dirty enc c.nodes c.db;
      is_dirty = false;
    }
    else c

unfoldable pub drop_dirty : {V : Type 0} → List (List ℕ × Entry V) → List (List ℕ × Entry V)
drop_dirty [] = []
drop_dirty ((k, e) ∷ l) = let rest = drop_dirty l in if e.dirty then rest else (k, e) ∷ rest

-- Undo
unfoldable pub undo : {V : Type 0} → Cache V → Cache V
unfolding drop_dirty
undo c = record c { nodes = drop_dirty c.nodes; is_dirty = false }
