-- ===== src/Trie/Nodes/Refines/Reading.antt =====
-- monktrie/trie.go: getState reads the tree that its node stands for.
use thelonious.Base.{
  ℕ, zero, suc, ◌<◌, ◌≡◌, ◌≢◌, ◌⊎◌, inl, inr, refl, sym, ap, ◌∙◌, arith, List, [], ◌∷◌, ◌++◌,
  append-nil, length, length-append, leb, if◌then◌else◌, Bool, true, false, ◌&&◌, Bool-cases,
  Option, none, some, ok, ◌>>=◌, take, drop, take-append-drop, take-append_length,
  drop-append_length,
}
use mathlib.Core.Path.{subst}
use thelonious.Trie.Encoding.{compact_decode}
use thelonious.Trie.Slices.{compare_int_slice, compare_int_slice_iff}
use thelonious.Trie.Tree.{Tree, leaf, ext, strip, lookup}
use thelonious.Trie.Tree.Keys.{IsKey, IsNibbles-not_IsKey, strip-append, strip_cases, chosen_cases}
use thelonious.Trie.Tree.Insertion.{IsLeaf, IsTree}
use thelonious.Trie.Tree.Laws.{IsTree-ext_ne, deeper-IsTree}
use thelonious.Trie.Tree.Lookups.{IsKey-ne}
use thelonious.Trie.Nodes.{Item, Node, text, pair, Store, get_node, get_state, text_of}
use thelonious.Trie.Nodes.Stores.{get_node-is_empty}
use thelonious.Trie.Nodes.Refines.{Fits, Means}

-- The test whether a key starts with another.
starts_with : List ℕ → List ℕ → Bool
starts_with k q = leb (length k) (length q) && compare_int_slice k (take (length k) q)

starts_with_cases :
    (k q : List ℕ)
    → ((r : List ℕ) × (q ≡ k ++ r) × (starts_with k q ≡ true))
      ⊎ ((starts_with k q ≡ false) × (strip k q ≡ none))
unfolding starts_with strip
starts_with_cases k q = elim (strip_cases k q) [
  | inl (r, e) ↦
      let short : leb (length k) (length q) ≡ true =
        ground (arith, ap length e, length-append k r) in
      inl (r, e, rw short (rw e (rw (take-append_length k r) ((compare_int_slice_iff k k).1 refl))))
  | inr n ↦ inr (
    misses (Bool-cases (leb (length k) (length q) && compare_int_slice k (take (length k) q)))
        (rw (append-nil k) at (n [])),
    rw (append-nil k) at (n []),
  )
]
  where
    misses :
        (starts_with k q ≡ true ⊎ starts_with k q ≡ false)
        → strip k q ≡ none
        → starts_with k q ≡ false
    misses (inr e) n = e
    misses (inl e) n =
        let same : k ≡ take (length k) q =
          (compare_int_slice_iff k (take (length k) q)).0 (ground (arith, e)) in
        let whole : k ++ drop (length k) q ≡ q =
          ap (λ l. l ++ drop (length k) q) same ∙ take-append-drop (length k) q in
        let found : strip (k ++ []) (k ++ drop (length k) q) ≡ some (drop (length k) q) =
          strip-append k [] (drop (length k) q) in
        let f : none ≡ some (drop (length k) q) = sym n ∙ rw (append-nil k, whole) at found in cc

strip-some : (k r : List ℕ) → strip k (k ++ r) ≡ some r
unfolding strip
strip-some k r = let e = strip-append k [] r in rw (append-nil k) at e

-- What a key that fits an extension leaves behind it.
pub Fits-deeper : (k r : List ℕ) (t : Tree) → IsTree (ext k t) → IsKey (k ++ r) → Fits t r
Fits-deeper k r t w h = elim (chosen_cases k (k ++ r)) [
  | inr d ↦ let (hk, wt, hr) = deeper-IsTree k t r w d h in inl (wt, hr)
  | inl e ↦ elim w [
    | inr v ↦ absurd (IsNibbles-not_IsKey k v.0 (subst IsKey (sym e) h))
    | inl v ↦ inr (v.1, nothing_left r e)
  ]
]
  where
    nothing_left : (r : List ℕ) → k ≡ k ++ r → r ≡ []
    nothing_left [] e = refl
    nothing_left (x ∷ r) e = absurd (omega (arith, ap length e, length-append k (x ∷ r)))

pub nonempty : (k : List ℕ) → k ≢ [] → 0 < length k
nonempty [] n = absurd (n refl)
nonempty (x ∷ k) n = omega arith

pub Fits-branch :
    (b : ℕ → Tree) (x : ℕ) (q : List ℕ) → IsTree (Tree.branch b) → IsKey (x ∷ q) → Fits (b x) q
Fits-branch b x q w (inl e) = inr (subst (λ y. IsLeaf (b y)) (sym e.0) w.1, e.1)
Fits-branch b x q w (inr e) = inl (w.0 x e.0, e.1)

module _ (sha3 : List ℕ → List ℕ) (parse_short : List ℕ → Option Node) where
  -- Reading at a node that is a slice of 2.
  get_state-pair :
      (f : ℕ) (i : Item) (c : List ℕ) (v : Item) (k q : List ℕ) (s : Store)
      → q ≢ []
      → get_node sha3 parse_short i s ≡ some (pair c v)
      → compact_decode c ≡ ok k
      → get_state sha3 parse_short (suc f) i q s ≡ (
          if starts_with k q
          then get_state sha3 parse_short f v (drop (length k) q) s
          else ok (text []))
  unfolding get_state starts_with
  get_state-pair f i c v k [] s n e d = absurd (n refl)
  get_state-pair f i c v k (x ∷ q) s n e d =
      elim (Bool-cases
        (leb (length k) (length (x ∷ q)) && compare_int_slice k (take (length k) (x ∷ q)))) [
          | inl t ↦
              rw (get_node-is_empty sha3 parse_short i (pair c v) s e, get_state)
                (rw e (rw (d, t, ◌>>=◌) refl))
          | inr t ↦
              rw (get_node-is_empty sha3 parse_short i (pair c v) s e, get_state)
                (rw e (rw (d, t, ◌>>=◌) refl))
        ]

  -- getState from a node that stands for a tree, with a key that fits the tree and more fuel than
  -- the key has nibbles, returns what is read in the tree at the key.
  pub get_state-Means :
      (f : ℕ) (i : Item) (t : Tree) (q : List ℕ) (s : Store)
      → Means sha3 parse_short s i t
      → Fits t q
      → length q < f
      → (get_state sha3 parse_short f i q s >>= λ j. ok (text_of j)) ≡ ok (lookup t q)
  unfolding get_state lookup
  get_state-Means zero i t q s m w h = absurd (omega (arith, h))
  get_state-Means (suc f) i (leaf v) [] s m w h = rw m refl
  get_state-Means (suc f) i (leaf v) (x ∷ q) s m (inr w) h = let e : x ∷ q ≡ [] = w.1 in cc
  get_state-Means (suc f) i (leaf v) (x ∷ q) s m (inl w) h = rw m (rw w.0 refl)
  get_state-Means (suc f) i (ext k t) q s m (inr w) h = absurd w.0
  get_state-Means (suc f) i (ext k t) q s (c, v, e, d, m) (inl w) h = elim (starts_with_cases k q) [
    | inr n ↦
        rw (get_state-pair f i c v k q s (IsKey-ne q w.1) e d) (rw n.0 (rw (n.1, lookup) refl))
    | inl (r, e', n) ↦
        let fits : Fits t r = Fits-deeper k r t w.0 (subst IsKey e' w.1) in
        let shorter : length r < f =
          omega (arith, h, ap length e', length-append k r, nonempty k (IsTree-ext_ne k t w.0)) in
        rw (get_state-pair f i c v k q s (IsKey-ne q w.1) e d) (
          rw n (
            rw e' (
              rw (drop-append_length k r)
                (rw (strip-some k r, lookup) (get_state-Means f v t r s m fits shorter)))))
  ]
  get_state-Means (suc f) i (Tree.branch b) q s m (inr w) h = absurd w.0
  get_state-Means (suc f) i (Tree.branch b) [] s m (inl w) h = absurd w.1
  get_state-Means (suc f) i (Tree.branch b) (x ∷ q) s (g, e, m) (inl w) h =
      rw (get_node-is_empty sha3 parse_short i (Node.branch g) s e, get_state)
        (rw e
          (get_state-Means f (g x) (b x) q s (m x) (Fits-branch b x q w.0 w.1) (omega (arith, h))))
