-- ===== src/Trie/Nodes/Histories.antt =====
-- A trie that started empty, after any number of updates.
use thelonious.Base.{
  ℕ, ◌+◌, ◌<◌, ◌/◌, ◌%◌, ◌≡◌, ◌≢◌, inl, inr, refl, sym, ap, ◌∙◌, arith, List, [], ◌∷◌, ◌++◌, length,
  true, Option, some, Outcome, ok, panic, out_of_fuel, ◌>>=◌, All,
}
use mathlib.Core.Path.{subst}
use thelonious.Util.Big.{IsByte}
use thelonious.Trie.Encoding.{compact_hex_decode, decode_compact, index_bytes, hex_encode}
use thelonious.Trie.Encoding.RoundTrip.{decode_compact-compact_hex_decode, nibbles-cons}
use thelonious.Trie.Slices.{compare_int_slice}
use thelonious.Trie.Tree.{Tree, leaf, ext, lookup, insert}
use thelonious.Trie.Tree.Keys.{IsKey, chosen, chosen_eq, chosen_ne, chosen_cases}
use thelonious.Trie.Tree.Insertion.{IsTree}
use thelonious.Trie.Tree.Laws.{lookup-insert}
use thelonious.Trie.Tree.Form.{insert-IsTree}
use thelonious.Trie.Nodes.{
  Item, Node, text, inline, pair, Store, put_value, get_node, insert_state, settle_root,
  update_trie, get_trie,
}
use thelonious.Trie.Nodes.Stores.{IsSound, Grows-trans, put_value-Grows, get_node-put_value}
use thelonious.Trie.Nodes.Refines.{Means, Means-Keeps}
use thelonious.Trie.Nodes.Refines.Reading.{get_state-Means}
use thelonious.Trie.Nodes.Refines.Writing.{Refines, insert_state-Refines}
use thelonious.Trie.Nodes.Rises.{Rises, update_trie-Rises}

-- The nibbles of bytes, and the terminator.
nibbles-IsKey : (key : List ℕ) → All IsByte key → IsKey (index_bytes (hex_encode key) ++ (16 ∷ []))
nibbles-IsKey [] h = unfold index_bytes hex_encode in inl (refl, refl)
nibbles-IsKey (b ∷ key) h =
    let lo : b % 16 < 16 = omega arith in
    let hi : b / 16 < 16 = omega (arith, h.0) in
    rw (nibbles-cons b key h.0) (inr (hi, inr (lo, nibbles-IsKey key h.1)))

compact_hex_decode-IsKey : (key : List ℕ) → All IsByte key → IsKey (compact_hex_decode key)
unfolding compact_hex_decode
compact_hex_decode-IsKey key h = nibbles-IsKey key h

-- Different texts have different nibbles.
compact_hex_decode_ne :
    (k q : List ℕ)
    → All IsByte k
    → All IsByte q
    → k ≢ q
    → compact_hex_decode k ≢ compact_hex_decode q
compact_hex_decode_ne k q h w n e = n (
    sym (decode_compact-compact_hex_decode (λ s. s) k h)
    ∙ ap (decode_compact (λ s. s)) e
    ∙ decode_compact-compact_hex_decode (λ s. s) q w)

chosen_nibbles :
    (k q v old : List ℕ)
    → All IsByte k
    → All IsByte q
    → chosen (compact_hex_decode k) (compact_hex_decode q) v old ≡ chosen k q v old
chosen_nibbles k q v old h w = elim (chosen_cases k q) [
  | inl e ↦
      chosen_eq (compact_hex_decode k) (compact_hex_decode q) v old (ap compact_hex_decode e)
      ∙ sym (chosen_eq k q v old e)
  | inr n ↦
      chosen_ne (compact_hex_decode k) (compact_hex_decode q) v old
        (compact_hex_decode_ne k q h w n)
      ∙ sym (chosen_ne k q v old n)
]

lookup_empty : (k : List ℕ) → lookup (leaf []) k ≡ []
unfolding lookup
lookup_empty [] = refl
lookup_empty (x ∷ k) = refl

-- The value that was last put under a key, of the updates with the latest first.
unfoldable pub latest : List (List ℕ × List ℕ) → List ℕ → List ℕ
unfolding compare_int_slice
latest [] q = []
latest ((k, v) ∷ us) q = let old = latest us q in chosen k q v old

module _ (sha3 : List ℕ → List ℕ) (parse_short : List ℕ → Option Node) where
  -- The roots and caches that updates lead to.
  pub data Written : List (List ℕ × List ℕ) → Item → Store → Type 0 where
    fresh : Written [] (text []) []
    written :
        {us : List (List ℕ × List ℕ)} {root root' : Item} {s s' : Store} (key value : List ℕ)
        → Written us root s
        → All IsByte key
        → update_trie sha3 parse_short root key value s ≡ ok (root', s')
        → Written ((key, value) ∷ us) root' s'

  -- A root and a cache that stand for a tree with the values of the updates.
  Stands : Store → Item → List (List ℕ × List ℕ) → Tree → Type 0
  Stands s root us t =
      Means sha3 parse_short s root t
      × IsTree t
      × ((q : List ℕ) → All IsByte q → lookup t (compact_hex_decode q) ≡ latest us q)

  module _ (sized : (b : List ℕ) → length (sha3 b) ≡ 32) where
    -- A node that is a slice means the same once it stands in the cache.
    forced-Means :
        (n : Node) (s : Store) (t : Tree)
        → Means sha3 parse_short s (inline n) t
        → let r = put_value sha3 parse_short n true s in
          IsSound r.1 → Means sha3 parse_short r.1 r.0 t
    forced-Means n s t m w =
        let r = put_value sha3 parse_short n true s in
        again t
          (Means-Keeps sha3 parse_short s r.1 (put_value-Grows sha3 parse_short n true s w).1
            (inline n) t m)
          (get_node-put_value sha3 parse_short sized n true s)
      where
        r : Item × Store
        r = put_value sha3 parse_short n true s

        again :
            (t : Tree)
            → Means sha3 parse_short r.1 (inline n) t
            → get_node sha3 parse_short r.0 r.1 ≡ some n
            → Means sha3 parse_short r.1 r.0 t
        again (leaf v) m e = let f : inline n ≡ text v = m in cc
        again (ext k t) (c, v, e', d, m) e =
            let e'' : some n ≡ some (pair c v) = unfold get_node in e' in (c, v, e ∙ e'', d, m)
        again (Tree.branch f) (g, e', m) e =
            let e'' : some n ≡ some (Node.branch g) = unfold get_node in e' in (g, e ∙ e'', m)

    -- Update puts the value into the tree.
    update_trie-Refines :
        (root : Item) (t : Tree) (key value : List ℕ) (s : Store)
        → Means sha3 parse_short s root t
        → IsTree t
        → All IsByte key
        → Refines sha3 parse_short sized s
            (insert t (compact_hex_decode key) value)
            (update_trie sha3 parse_short root key value s)
    unfolding update_trie
    update_trie-Refines root t key value s m w h =
        let k = compact_hex_decode key in
        settle (insert_state sha3 parse_short (length k + 1) root k (text value) s) (
          insert_state-Refines sha3 parse_short sized (length k + 1) root t k value s m
            (inl (w, compact_hex_decode-IsKey key h)) (omega arith))
      where
        u : Tree
        u = insert t (compact_hex_decode key) value

        settle :
            (o : Outcome (Item × Store))
            → Refines sha3 parse_short sized s u o
            → Refines sha3 parse_short sized s u (o >>= λ r. ok (settle_root sha3 parse_short r))
        settle (ok (text x, s')) r = unfold settle_root in r
        settle (ok (inline n, s')) r =
            unfold settle_root in
            (
              Grows-trans s s' (put_value sha3 parse_short n true s').1 r.0
                  (put_value-Grows sha3 parse_short n true s'),
              λ w. forced-Means n s' u (r.1 (put_value-Grows sha3 parse_short n true s' w).0) w,
            )
        settle panic r = absurd r
        settle out_of_fuel r = absurd r

    -- After the updates they do, where no two different nodes met under one hash.
    Written-Stands :
        {us : List (List ℕ × List ℕ)} {root : Item} {s : Store}
        → Written us root s
        → IsSound s
        → (t : Tree) × Stands s root us t
    unfolding latest Stands lookup
    Written-Stands fresh w = (leaf [], (refl, refl, λ q h. lookup_empty (compact_hex_decode q)))
    Written-Stands {root = root'} {s = s'}
          (written {us = us'} {root = root} {s = s} key value b h e) w =
        let rises : Rises s (ok (root', s')) =
          subst (Rises s) e (update_trie-Rises sha3 parse_short root key value s) in
        let (t, (m, f, l)) = Written-Stands b (rises w).0 in
        let k = compact_hex_decode key in
        let done =
          subst (Refines sha3 parse_short sized s (insert t k value)) e
            (update_trie-Refines root t key value s m f h) in
        (
          insert t k value,
          (
            done.1 w,
            insert-IsTree t k value f (compact_hex_decode-IsKey key h),
            λ q hq.
                lookup-insert t f k value (compact_hex_decode q) (compact_hex_decode-IsKey key h)
                  (compact_hex_decode-IsKey q hq)
                ∙ ap (chosen k (compact_hex_decode q) value) (l q hq)
                ∙ chosen_nibbles key q value (latest us' q) h hq,
          ),
        )

    -- After any sequence of updates of an empty trie with keys of bytes, Get at a key of bytes
    -- returns, without a panic and within the fuel, the value that was last put under the key,
    -- or the empty text where none was; it holds where Sha3Bin gives 32 bytes and no two
    -- different nodes that stood in the cache have the same hash, and while the nodes are in
    -- the cache.
    pub get_trie-Written :
        (us : List (List ℕ × List ℕ)) (root : Item) (s : Store) (q : List ℕ)
        → Written us root s
        → IsSound s
        → All IsByte q
        → get_trie sha3 parse_short root q s ≡ ok (latest us q)
    unfolding get_trie Stands
    get_trie-Written us root s q b w h =
        let (t, (m, f, l)) = Written-Stands b w in
        let k = compact_hex_decode q in
        get_state-Means sha3 parse_short (length k + 1) root t k s m
          (inl (f, compact_hex_decode-IsKey q h)) (omega arith)
        ∙ ap ok (l q h)

    -- After any sequence of updates of an empty trie with keys of bytes, another Update with a
    -- key of bytes returns: it neither panics nor runs out of the fuel, which is one more than
    -- the nibbles of the key, where Sha3Bin gives 32 bytes and no two different nodes in the
    -- cache have the same hash.
    pub update_trie-total :
        (us : List (List ℕ × List ℕ)) (root : Item) (s : Store) (key value : List ℕ)
        → Written us root s
        → IsSound s
        → All IsByte key
        → (root' : Item) × (s' : Store) × (update_trie sha3 parse_short root key value s
            ≡ ok (root', s'))
    unfolding Stands
    update_trie-total us root s key value b w h =
        let (t, (m, f, l)) = Written-Stands b w in
        returns _ (update_trie sha3 parse_short root key value s)
          (update_trie-Refines root t key value s m f h)
      where
        returns :
            (u : Tree) (o : Outcome (Item × Store))
            → Refines sha3 parse_short sized s u o
            → (root' : Item) × (s' : Store) × (o ≡ ok (root', s'))
        returns u (ok (i, s')) r = (i, s', refl)
        returns u panic r = absurd r
        returns u out_of_fuel r = absurd r

    -- Update of a trie whose root stands for a tree of the right form gives, where it returns,
    -- a root that stands for the tree with the value put in, and a tree of that form: for a key
    -- of bytes, where Sha3Bin gives 32 bytes and no two different nodes in the resulting cache
    -- have the same hash.
    pub update_trie-Means :
        (root root' : Item) (s s' : Store) (t : Tree) (key value : List ℕ)
        → Means sha3 parse_short s root t
        → IsTree t
        → All IsByte key
        → update_trie sha3 parse_short root key value s ≡ ok (root', s')
        → IsSound s'
        → Means sha3 parse_short s' root' (insert t (compact_hex_decode key) value)
          × IsTree (insert t (compact_hex_decode key) value)
    update_trie-Means root root' s s' t key value m f h e w =
        let k = compact_hex_decode key in
        let done =
          subst (Refines sha3 parse_short sized s (insert t k value)) e
            (update_trie-Refines root t key value s m f h) in
        (done.1 w, insert-IsTree t k value f (compact_hex_decode-IsKey key h))
