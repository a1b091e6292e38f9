-- ===== src/Trie/Nodes/Refines/Writing.antt =====
-- monktrie/trie.go: InsertState makes nodes that stand for the tree with the value put in, and leaves
-- every node that stood in the cache.
use thelonious.Base.{
  ℕ, zero, suc, ◌==◌, ==_iff, ◌<◌, ◌≡◌, ◌≢◌, inl, inr, refl, sym, ap, arith, List, [], ◌∷◌, ◌++◌,
  length, length-append, if◌then◌else◌, true, false, Bool-cases, Option, some, Outcome, ok, panic,
  out_of_fuel, ◌>>=◌, take-append_length, drop-append_length,
}
use mathlib.Core.Path.{subst}
use thelonious.Trie.Encoding.{compact_encode, compact_decode}
use thelonious.Trie.Slices.{compare_int_slice, compare_int_slice_iff, matching_nibble_length}
use thelonious.Trie.Tree.{Tree, leaf, ext, behind, fork, nothing, insert}
use thelonious.Trie.Tree.Keys.{IsKey}
use thelonious.Trie.Tree.Insertion.{
  drop_one_past, IsTree, parting, Inserted, replaced, deeper, forked, inside, insert_ext,
}
use thelonious.Trie.Tree.Laws.{inside-IsTree, insert-nil, IsTree-ext_ne, deeper-IsTree}
use thelonious.Trie.Tree.Lookups.{IsKey-ne}
use thelonious.Trie.Nodes.{
  Item, Node, text, pair, Store, get_node, put, put_new, put_at, empty_slice, expand, insert_pair,
  insert_state,
}
use thelonious.Trie.Nodes.Stores.{
  IsSound, Grows, Grows-refl, Grows-trans, get_node-is_empty, put_value-Grows, get_node-put_value,
  compact_key,
}
use thelonious.Trie.Nodes.Refines.{Fits, Means, Means-Keeps}
use thelonious.Trie.Nodes.Refines.Reading.{Fits-deeper, Fits-branch, nonempty}
use thelonious.Trie.Nodes.Refines.Parts.{
  index-append_length, behind_key, matching_prefix, matching_parted, heads_differ, IsPart,
  IsPart-behind_key, IsPart-behind, IsPart-front,
}

module _ (sha3 : List ℕ → List ℕ) (parse_short : List ℕ → Option Node)
    (sized : (b : List ℕ) → length (sha3 b) ≡ 32) where
  -- A result stands for a tree, in a store that comes of the one given.
  abbrev pub Refines : Store → Tree → Outcome (Item × Store) → Type 0
  Refines s t (ok (i, s')) = Grows s s' × (IsSound s' → Means sha3 parse_short s' i t)
  Refines s t panic = ⊥
  Refines s t out_of_fuel = ⊥

  -- One step after another.
  Refines->>= :
      (s : Store) (t u : Tree) (o : Outcome (Item × Store))
      (f : Item × Store → Outcome (Item × Store))
      → Refines s t o
      → ((i : Item) (s' : Store)
          → Grows s s'
          → (IsSound s' → Means sha3 parse_short s' i t)
          → Refines s u (f (i, s')))
      → Refines s u (o >>= f)
  Refines->>= s t u (ok (i, s')) f h k = k i s' h.0 h.1
  Refines->>= s t u panic f h k = absurd h
  Refines->>= s t u out_of_fuel f h k = absurd h

  Refines-Grows :
      (s s' : Store) (t : Tree) (o : Outcome (Item × Store))
      → Grows s s'
      → Refines s' t o
      → Refines s t o
  Refines-Grows s s' t (ok (i, s'')) g h = (Grows-trans s s' s'' g h.0, h.1)
  Refines-Grows s s' t panic g h = absurd h
  Refines-Grows s s' t out_of_fuel g h = absurd h

  Means-Grows :
      (s s' : Store) (i : Item) (t : Tree)
      → Grows s s'
      → (IsSound s → Means sha3 parse_short s i t)
      → IsSound s'
      → Means sha3 parse_short s' i t
  Means-Grows s s' i t g m w = Means-Keeps sha3 parse_short s s' (g w).1 i t (m (g w).0)

  put-pair :
      (k : List ℕ) (value : Item) (t : Tree) (s : Store)
      → IsPart k
      → (IsSound s → Means sha3 parse_short s value t)
      → Refines s (ext k t) (compact_encode k >>= λ c. ok (put sha3 parse_short (pair c value) s))
  put-pair k value t s p m =
      let (c, e, d) = compact_key k p in
      let n = pair c value in
      let r = put sha3 parse_short n s in
      rw e (
        put_value-Grows sha3 parse_short n false s,
        λ w. (
          c,
          value,
          get_node-put_value sha3 parse_short sized n false s,
          d,
          Means-Grows s r.1 value t (put_value-Grows sha3 parse_short n false s) m w,
        ),
      )

  put-branch :
      (g : ℕ → Item) (f : ℕ → Tree) (s : Store)
      → (IsSound s → (x : ℕ) → Means sha3 parse_short s (g x) (f x))
      → Refines s (Tree.branch f) (ok (put sha3 parse_short (Node.branch g) s))
  put-branch g f s m =
      let n = Node.branch g in
      let r = put sha3 parse_short n s in
      (
        put_value-Grows sha3 parse_short n false s,
        λ w. (
          g,
          get_node-put_value sha3 parse_short sized n false s,
          λ x.
              Means-Grows s r.1 (g x) (f x) (put_value-Grows sha3 parse_short n false s)
                (λ v. m v x) w,
        ),
      )

  -- A new node in front of what a key stands before.
  put_new-Refines :
      (k : List ℕ) (value : Item) (t : Tree) (s : Store)
      → (k ≢ [] → IsPart k)
      → (IsSound s → Means sha3 parse_short s value t)
      → Refines s (behind k t) (put_new sha3 parse_short k value s)
  unfolding put_new
  put_new-Refines [] value t s p m = (Grows-refl s, m)
  put_new-Refines (x ∷ k) value t s p m = put-pair (x ∷ k) value t s (p (λ f. cc)) m

  put_at-Means :
      (s : Store) (y : ℕ) (i : Item) (t : Tree) (g : ℕ → Item) (f : ℕ → Tree)
      → Means sha3 parse_short s i t
      → ((x : ℕ) → Means sha3 parse_short s (g x) (f x))
      → (x : ℕ) → Means sha3 parse_short s (put_at y i g x) (fork y t f x)
  put_at-Means s y i t g f m n x = elim (Bool-cases (x == y)) [
    | inl e ↦ rw e m
    | inr e ↦ rw e (n x)
  ]

  -- The new slice of 17, at the place where two keys part.
  expand-Refines :
      (p k rest : List ℕ) (a b : ℕ) (v : Item) (t : Tree) (w : List ℕ) (s : Store)
      → IsTree (ext (p ++ (a ∷ k)) t)
      → IsKey (p ++ (b ∷ rest))
      → (IsSound s → Means sha3 parse_short s v t)
      → Refines s
          (parting a k t b rest w)
          (expand sha3 parse_short (p ++ (a ∷ k)) v (p ++ (b ∷ rest)) (text w) (length p) s)
  unfolding expand
  expand-Refines p k rest a b v t w s ht hk m =
      rw (drop_one_past p k a, drop_one_past p rest b)
        (Refines->>= s (behind k t) (parting a k t b rest w) (put_new sha3 parse_short k v s) _
          (put_new-Refines k v t s (IsPart-behind p k a t ht) m)
          (λ old s' g m'. Refines-Grows s s' (parting a k t b rest w) _ g (
            Refines->>= s' (behind rest (leaf w)) (parting a k t b rest w)
              (put_new sha3 parse_short rest (text w) s') _
              (put_new-Refines rest (text w) (leaf w) s' (IsPart-behind_key p rest b hk)
                (λ h. refl))
              (λ new s'' g' m''.
                rw (index-append_length p k a, index-append_length p rest b)
                  (Refines-Grows s' s'' (parting a k t b rest w)
                    (ok (
                      put sha3 parse_short (Node.branch (put_at b new (put_at a old empty_slice)))
                        s''))
                    g'
                    (put-branch (put_at b new (put_at a old empty_slice))
                      (fork b (behind rest (leaf w)) (fork a (behind k t) nothing)) s''
                      (λ h.
                        put_at-Means s'' b new (behind rest (leaf w)) (put_at a old empty_slice)
                          (fork a (behind k t) nothing) (m'' h)
                          (put_at-Means s'' a old (behind k t) empty_slice nothing
                            (Means-Grows s' s'' old (behind k t) g' m' h) (λ x. refl)))))))))

  -- What is put in front of a result.
  lead-Refines :
      (p : List ℕ) (u : Tree) (s : Store) (o : Outcome (Item × Store))
      → (p ≢ [] → IsPart p)
      → Refines s u o
      → Refines s
          (behind p u)
          (o >>= λ (h, s'). if length p == 0 then ok (h, s') else put_new sha3 parse_short p h s')
  lead-Refines [] u s o f h = Refines->>= s u u o _ h (λ i s' g m. (g, m))
  lead-Refines (x ∷ p) u s o f h = Refines->>= s u (ext (x ∷ p) u) o _ h (λ i s' g m.
      let e : (suc (length p) == 0) ≡ false = ground arith in
      rw e (
        Refines-Grows s s' (ext (x ∷ p) u) (put_new sha3 parse_short (x ∷ p) i s') g
          (put_new-Refines (x ∷ p) i u s' f m)))

  -- Insertion at a slice of 2 where the matching length is known.
  insert_pair-at :
      (d : Item → List ℕ → Store → Outcome (Item × Store)) (k : List ℕ) (v : Item) (p y : List ℕ)
      (value : Item) (s : Store)
      → k ≢ p ++ y
      → matching_nibble_length (p ++ y) k ≡ length p
      → insert_pair sha3 parse_short d k v (p ++ y) value s ≡ (
          (if length p == length k
            then d v y s
            else expand sha3 parse_short k v (p ++ y) value (length p) s)
          >>= λ (h, s'). if length p == 0 then ok (h, s') else put_new sha3 parse_short p h s')
  unfolding insert_pair
  insert_pair-at d k v p y value s n m = elim (Bool-cases (compare_int_slice k (p ++ y))) [
    | inl e ↦ absurd (n ((compare_int_slice_iff k (p ++ y)).0 e))
    | inr e ↦ rw e (rw m (rw (take-append_length p y, drop-append_length p y) refl))
  ]

  insert_pair_same :
      (d : Item → List ℕ → Store → Outcome (Item × Store)) (k : List ℕ) (v : Item) (key : List ℕ)
      (value : Item) (s : Store)
      → k ≡ key
      → insert_pair sha3 parse_short d k v key value s ≡ put_new sha3 parse_short key value s
  unfolding insert_pair
  insert_pair_same d k v key value s e = rw ((compare_int_slice_iff k key).1 e) refl

  insert_pair-Refines :
      (d : Item → List ℕ → Store → Outcome (Item × Store)) (k : List ℕ) (v : Item) (t : Tree)
      (key w : List ℕ) (s : Store)
      → IsTree (ext k t)
      → IsKey key
      → (IsSound s → Means sha3 parse_short s v t)
      → ((rest : List ℕ)
          → Fits t rest
          → length rest < length key
          → Refines s (insert t rest w) (d v rest s))
      → Inserted k t key w (insert (ext k t) key w)
      → Refines s (insert (ext k t) key w) (insert_pair sha3 parse_short d k v key (text w) s)
  insert_pair-Refines d k v t key w s ht hk m ih (replaced e er) =
      rw (er, sym (behind_key key (leaf w) (IsKey-ne key hk)))
        (rw (insert_pair_same d k v key (text w) s e)
          (put_new-Refines key (text w) (leaf w) s (λ n. inl hk) (λ h. refl)))
  insert_pair-Refines d k v t key w s ht hk m ih (deeper rest n e er) =
      let hk' : IsKey (k ++ rest) = subst IsKey e hk in
      let n' : k ≢ k ++ rest = subst (λ l. k ≢ l) e n in
      let same : (length k == length k) ≡ true = (==_iff (length k) (length k)).1 refl in
      let shorter : length rest < length key =
        omega (arith, ap length e, length-append k rest, nonempty k (IsTree-ext_ne k t ht)) in
      rw (er, e)
        (rw (insert_pair-at d k v k rest (text w) s n' (matching_prefix k rest)) (
          rw same (
            lead-Refines k (insert t rest w) s (d v rest s)
              (λ h. inr ((deeper-IsTree k t rest ht n' hk').0, h))
              (ih rest (Fits-deeper k rest t ht hk') shorter))))
  insert_pair-Refines d k v t key w s ht hk m ih (forked p k' rest a b n e e' er) =
      let hk' : IsKey (p ++ (b ∷ rest)) = subst IsKey e' hk in
      let ht' : IsTree (ext (p ++ (a ∷ k')) t) = subst (λ l. IsTree (ext l t)) e ht in
      let longer : (length p == length (p ++ (a ∷ k'))) ≡ false =
        ground (arith, length-append p (a ∷ k')) in
      rw (er, e, e')
        (rw
          (insert_pair-at d (p ++ (a ∷ k')) v p (b ∷ rest) (text w) s (heads_differ p rest k' a b n)
            (matching_parted p rest k' a b n))
          (rw longer (
            lead-Refines p (parting a k' t b rest w) s _ (IsPart-front p (b ∷ rest) hk' (λ f. cc))
              (expand-Refines p k' rest a b v t w s ht' hk' m))))
  insert_pair-Refines d k v t key w s ht hk m ih (inside k' n e) =
      absurd (inside-IsTree key k' t (subst (λ l. IsTree (ext l t)) e ht) n hk)

  -- Insertion at a slice of 2, in terms of what its key decodes to.
  insert_state-pair :
      (f : ℕ) (i : Item) (c : List ℕ) (v : Item) (k key : List ℕ) (value : Item) (s : Store)
      → key ≢ []
      → get_node sha3 parse_short i s ≡ some (pair c v)
      → compact_decode c ≡ ok k
      → insert_state sha3 parse_short (suc f) i key value s
        ≡ insert_pair sha3 parse_short
            (λ v' key' s'. insert_state sha3 parse_short f v' key' value s')
            k
            v
            key
            value
            s
  unfolding insert_state
  insert_state-pair f i c v k [] value s n e d = absurd (n refl)
  insert_state-pair f i c v k (x ∷ key) value s n e d =
      rw (get_node-is_empty sha3 parse_short i (pair c v) s e, insert_state)
        (rw e (rw (d, ◌>>=◌) refl))

  insert_state-branch :
      (f : ℕ) (i : Item) (g : ℕ → Item) (x : ℕ) (key : List ℕ) (value : Item) (s : Store)
      → get_node sha3 parse_short i s ≡ some (Node.branch g)
      → insert_state sha3 parse_short (suc f) i (x ∷ key) value s ≡ (
          insert_state sha3 parse_short f (g x) key value s >>= λ (j, s').
          ok (put sha3 parse_short (Node.branch (put_at x j g)) s'))
  unfolding insert_state
  insert_state-branch f i g x key value s e =
      rw (get_node-is_empty sha3 parse_short i (Node.branch g) s e, insert_state) (rw e refl)

  pub insert_state-Refines :
      (f : ℕ) (i : Item) (t : Tree) (key w : List ℕ) (s : Store)
      → Means sha3 parse_short s i t
      → Fits t key
      → length key < f
      → Refines s (insert t key w) (insert_state sha3 parse_short f i key (text w) s)
  unfolding insert_state insert
  insert_state-Refines zero i t key w s m h l = absurd (omega (arith, l))
  insert_state-Refines (suc f) i t [] w s m h l =
      subst (λ u. Refines s u (ok (text w, s))) (sym (insert-nil t w)) (Grows-refl s, λ q. refl)
  insert_state-Refines (suc f) i (leaf u) (x ∷ key) w s m (inr h) l =
      let e : x ∷ key ≡ [] = h.1 in cc
  insert_state-Refines (suc f) i (leaf u) (x ∷ key) w s m (inl h) l =
      rw m (rw h.0 (put_new-Refines (x ∷ key) (text w) (leaf w) s (λ n. inl h.1) (λ n. refl)))
  insert_state-Refines (suc f) i (ext k t) (x ∷ key) w s m (inr h) l = absurd h.0
  insert_state-Refines (suc f) i (ext k t) (x ∷ key) w s (c, v, e, d, m) (inl h) l =
      rw (insert_state-pair f i c v k (x ∷ key) (text w) s (λ n. cc) e d) (
        insert_pair-Refines (λ v' key' s'. insert_state sha3 parse_short f v' key' (text w) s') k v
          t (x ∷ key) w s h.0 h.1 (λ q. m)
          (λ rest fits shorter.
            insert_state-Refines f v t rest w s m fits (omega (arith, l, shorter)))
          (insert_ext k t (x ∷ key) w (λ n. cc)))
  insert_state-Refines (suc f) i (Tree.branch b) (x ∷ key) w s m (inr h) l = absurd h.0
  insert_state-Refines (suc f) i (Tree.branch b) (x ∷ key) w s (g, e, m) (inl h) l =
      subst (λ o. Refines s (Tree.branch (fork x (insert (b x) key w) b)) o)
        (sym (insert_state-branch f i g x key (text w) s e))
        (Refines->>= s (insert (b x) key w) (Tree.branch (fork x (insert (b x) key w) b))
          (insert_state sha3 parse_short f (g x) key (text w) s) _
          (insert_state-Refines f (g x) (b x) key w s (m x) (Fits-branch b x key h.0 h.1)
            (omega (arith, l)))
          (λ new s' grows m'.
            Refines-Grows s s' (Tree.branch (fork x (insert (b x) key w) b))
              (ok (put sha3 parse_short (Node.branch (put_at x new g)) s')) grows
              (put-branch (put_at x new g) (fork x (insert (b x) key w) b) s' (λ q.
                put_at-Means s' x new (insert (b x) key w) g b (m' q)
                  (λ y. Means-Keeps sha3 parse_short s s' (grows q).1 (g y) (b y) (m y))))))
