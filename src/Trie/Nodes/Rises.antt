-- ===== src/Trie/Nodes/Rises.antt =====
-- InsertState and Update only add nodes to the cache, whatever the nodes are.
use thelonious.Base.{
  ℕ, zero, suc, ◌+◌, ◌==◌, ◌≡◌, ◌⊎◌, inl, inr, List, [], ◌∷◌, length, if◌then◌else◌, true, false,
  Bool-cases, Option, none, some, Option-cases, Outcome, ok, panic, out_of_fuel, ◌>>=◌, index, take,
  drop,
}
use thelonious.Trie.Encoding.{compact_encode, compact_decode, compact_hex_decode}
use thelonious.Trie.Slices.{compare_int_slice, matching_nibble_length}
use thelonious.Trie.Nodes.{
  Item, Node, text, inline, pair, Store, is_empty, get_node, put_new, put_at, empty_slice, expand,
  insert_pair, insert_state, settle_root, update_trie,
}
use thelonious.Trie.Nodes.Stores.{Grows, Grows-refl, Grows-trans, put_value-Grows}

abbrev pub Rises : Store → Outcome (Item × Store) → Type 0
Rises s (ok r) = Grows s r.1
Rises s panic = Unit
Rises s out_of_fuel = Unit

Rises->>= :
    (s : Store) (o : Outcome (Item × Store)) (f : Item × Store → Outcome (Item × Store))
    → Rises s o
    → ((i : Item) (s' : Store) → Rises s' (f (i, s')))
    → Rises s (o >>= f)
Rises->>= s (ok (i, s')) f h k = after (f (i, s')) (k i s')
  where
    after : (o : Outcome (Item × Store)) → Rises s' o → Rises s o
    after (ok r) g = Grows-trans s s' r.1 h g
    after panic g = tt
    after out_of_fuel g = tt
Rises->>= s panic f h k = tt
Rises->>= s out_of_fuel f h k = tt

-- Behind a step that does not touch the cache.
Rises-behind :
    {A : Type 0} (s : Store) (o : Outcome A) (f : A → Outcome (Item × Store))
    → ((a : A) → Rises s (f a))
    → Rises s (o >>= f)
Rises-behind s (ok a) f h = h a
Rises-behind s panic f h = tt
Rises-behind s out_of_fuel f h = tt

module _ (sha3 : List ℕ → List ℕ) (parse_short : List ℕ → Option Node) where
  put_new-Rises :
      (k : List ℕ) (value : Item) (s : Store) → Rises s (put_new sha3 parse_short k value s)
  unfolding put_new
  put_new-Rises [] value s = Grows-refl s
  put_new-Rises (x ∷ k) value s =
      Rises-behind s (compact_encode (x ∷ k)) _
        (λ c. put_value-Grows sha3 parse_short (pair c value) false s)

  expand-Rises :
      (k : List ℕ) (v : Item) (key : List ℕ) (value : Item) (m : ℕ) (s : Store)
      → Rises s (expand sha3 parse_short k v key value m s)
  unfolding expand
  expand-Rises k v key value m s =
      Rises->>= s (put_new sha3 parse_short (drop (m + 1) k) v s) _
        (put_new-Rises (drop (m + 1) k) v s)
        (λ old s'.
          Rises->>= s' (put_new sha3 parse_short (drop (m + 1) key) value s') _
            (put_new-Rises (drop (m + 1) key) value s')
            (λ new s''. Rises-behind s'' (index k m) _ (λ a. Rises-behind s'' (index key m) _ (λ b.
              put_value-Grows sha3 parse_short
                (Node.branch (put_at b new (put_at a old empty_slice))) false s''))))

  insert_pair-Rises :
      (d : Item → List ℕ → Store → Outcome (Item × Store)) (k : List ℕ) (v : Item) (key : List ℕ)
      (value : Item) (s : Store)
      → ((i : Item) (q : List ℕ) (s' : Store) → Rises s' (d i q s'))
      → Rises s (insert_pair sha3 parse_short d k v key value s)
  unfolding insert_pair
  insert_pair-Rises d k v key value s h = elim (Bool-cases (compare_int_slice k key)) [
    | inl e ↦ rw e (put_new-Rises key value s)
    | inr e ↦ rw e (
        Rises->>= s _ _ (below (Bool-cases (matching_nibble_length key k == length k)))
          (λ i s'. front i s' (Bool-cases (matching_nibble_length key k == 0))))
  ]
    where
      m : ℕ
      m = matching_nibble_length key k

      below :
          ((m == length k) ≡ true) ⊎ ((m == length k) ≡ false)
          → Rises s (
              if m == length k
              then d v (drop m key) s
              else expand sha3 parse_short k v key value m s)
      below (inl e) = rw e (h v (drop m key) s)
      below (inr e) = rw e (expand-Rises k v key value m s)

      front :
          (i : Item) (s' : Store)
          → ((m == 0) ≡ true) ⊎ ((m == 0) ≡ false)
          → Rises s' (if m == 0 then ok (i, s') else put_new sha3 parse_short (take m key) i s')
      front i s' (inl e) = rw e (Grows-refl s')
      front i s' (inr e) = rw e (put_new-Rises (take m key) i s')

  insert_state-Rises :
      (f : ℕ) (i : Item) (key : List ℕ) (value : Item) (s : Store)
      → Rises s (insert_state sha3 parse_short f i key value s)
  unfolding insert_state
  insert_state-Rises zero i key value s = tt
  insert_state-Rises (suc f) i [] value s = Grows-refl s
  insert_state-Rises (suc f) i (x ∷ key) value s =
      at (Bool-cases (is_empty i)) (Option-cases (get_node sha3 parse_short i s))
        (λ j q s'. insert_state-Rises f j q value s')
    where
      at :
          (is_empty i ≡ true ⊎ is_empty i ≡ false)
          → (get_node sha3 parse_short i s ≡ none
              ⊎ ((n : Node) × (get_node sha3 parse_short i s ≡ some n)))
          → ((j : Item) (q : List ℕ) (s' : Store)
              → Rises s' (insert_state sha3 parse_short f j q value s'))
          → Rises s (insert_state sha3 parse_short (suc f) i (x ∷ key) value s)
      at (inl e) n h = rw (e, insert_state) (put_new-Rises (x ∷ key) value s)
      at (inr e) (inl n) h =
          rw (e, n, insert_state)
            (Rises->>= s (insert_state sha3 parse_short f (text []) key value s) _
              (h (text []) key s)
              (λ j s'.
                put_value-Grows sha3 parse_short (Node.branch (put_at x j empty_slice)) false s'))
      at (inr e) (inr (pair c v, n)) h =
          rw (e, n, insert_state)
            (Rises-behind s (compact_decode c) _ (λ k. insert_pair-Rises _ k v (x ∷ key) value s h))
      at (inr e) (inr (Node.branch g, n)) h =
          rw (e, n, insert_state)
            (Rises->>= s (insert_state sha3 parse_short f (g x) key value s) _ (h (g x) key s)
              (λ j s'. put_value-Grows sha3 parse_short (Node.branch (put_at x j g)) false s'))

  settle_root-Grows : (i : Item) (s : Store) → Grows s (settle_root sha3 parse_short (i, s)).1
  unfolding settle_root
  settle_root-Grows (text t) s = Grows-refl s
  settle_root-Grows (inline n) s = put_value-Grows sha3 parse_short n true s

  -- Update, too.
  pub update_trie-Rises :
      (root : Item) (key value : List ℕ) (s : Store)
      → Rises s (update_trie sha3 parse_short root key value s)
  unfolding update_trie
  update_trie-Rises root key value s =
      let k = compact_hex_decode key in
      Rises->>= s (insert_state sha3 parse_short (length k + 1) root k (text value) s) _
        (insert_state-Rises (length k + 1) root k (text value) s) (λ i s'. settle_root-Grows i s')
