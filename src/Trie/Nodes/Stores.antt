-- ===== src/Trie/Nodes/Stores.antt =====
-- Nodes in the cache: what is put is found, and stays found where no two different nodes have met
-- under one hash.
use thelonious.Base.{
  ℕ, ◌==◌, ◌≡◌, ◌≢◌, ◌⊎◌, inl, inr, refl, sym, ap, arith, List, [], ◌∷◌, ◌++◌, append-nil, length,
  ltb, leb, Bool, true, false, ◌||◌, Bool-cases, Option, none, some, Outcome, ok, panic,
  out_of_fuel, ◌>>=◌, All,
}
use mathlib.Core.Path.{subst}
use thelonious.Rlp.Encode.{encode}
use thelonious.Trie.Encoding.{compact_encode, compact_decode}
use thelonious.Trie.Encoding.RoundTrip.{compact_decode-compact_encode, IsNibble}
use thelonious.Trie.Slices.{compare_int_slice, compare_int_slice_iff}
use thelonious.Trie.Tree.Keys.{IsNibbles, IsKey}
use thelonious.Trie.Nodes.{
  Item, Node, text, inline, Store, node_value, find_node, is_empty, put_value, get_node,
}

-- No entry hides another node.
abbrev pub IsSound : Store → Type 0
IsSound [] = Unit
IsSound ((k, n) ∷ s) = ((m : Node) → find_node k s ≡ some m → m ≡ n) × IsSound s

abbrev pub Keeps : Store → Store → Type 0
Keeps s s' = (k : List ℕ) (m : Node) → find_node k s ≡ some m → find_node k s' ≡ some m

-- A store that comes of another by putting nodes.
abbrev pub Grows : Store → Store → Type 0
Grows s s' = IsSound s' → IsSound s × Keeps s s'

pub Grows-refl : (s : Store) → Grows s s
Grows-refl s h = (h, λ k m e. e)

pub Grows-trans : (s t u : Store) → Grows s t → Grows t u → Grows s u
Grows-trans s t u g h w =
    let (w', keeps) = h w in let (w'', keeps') = g w' in (w'', λ k m e. keeps k m (keeps' k m e))

cons-Keeps :
    (k : List ℕ) (n : Node) (s : Store)
    → ((m : Node) → find_node k s ≡ some m → m ≡ n)
    → Keeps s ((k, n) ∷ s)
unfolding find_node
cons-Keeps k n s h j m e = elim (Bool-cases (compare_int_slice j k)) [
  | inr q ↦ rw q e
  | inl q ↦
      let same : j ≡ k = (compare_int_slice_iff j k).0 q in
      rw q (ap some (sym (h m (subst (λ l. find_node l s ≡ some m) same e))))
]

find_node-cons : (k : List ℕ) (n : Node) (s : Store) → find_node k ((k, n) ∷ s) ≡ some n
unfolding find_node
find_node-cons k n s = rw ((compare_int_slice_iff k k).1 refl) refl

module _ (sha3 : List ℕ → List ℕ) (parse_short : List ℕ → Option Node) where
  pub get_node-Keeps :
      (i : Item) (n : Node) (s s' : Store)
      → Keeps s s'
      → get_node sha3 parse_short i s ≡ some n
      → get_node sha3 parse_short i s' ≡ some n
  unfolding get_node
  get_node-Keeps (inline m) n s s' k e = e
  get_node-Keeps (text t) n s s' k e = elim (Bool-cases (length t == 0)) [
    | inl a ↦ let f : none ≡ some n = rw a at e in cc
    | inr a ↦ elim (Bool-cases (ltb (length t) 32)) [
      | inl b ↦ rw a (rw b (rw b at (rw a at e)))
      | inr b ↦ rw a (rw b (k t n (rw b at (rw a at e))))
    ]
  ]

  -- What has a node is not empty.
  pub get_node-is_empty :
      (i : Item) (n : Node) (s : Store)
      → get_node sha3 parse_short i s ≡ some n
      → is_empty i ≡ false
  unfolding get_node
  get_node-is_empty (inline m) n s e = refl
  get_node-is_empty (text t) n s e = elim (Bool-cases (length t == 0)) [
    | inl a ↦ let f : none ≡ some n = rw a at e in cc
    | inr a ↦ a
  ]

  pub put_value-Grows :
      (n : Node) (force : Bool) (s : Store) → Grows s (put_value sha3 parse_short n force s).1
  unfolding put_value
  put_value-Grows n force s = elim (Bool-cases (leb 32 (length (encode (node_value n))) || force)) [
    | inr e ↦ rw e (Grows-refl s)
    | inl e ↦ rw e (λ w. (w.1, cons-Keeps (sha3 (encode (node_value n))) n s w.0))
  ]

  -- A hash finds its node.
  get_node-text :
      (t : List ℕ) (n : Node) (s : Store)
      → length t ≡ 32
      → find_node t s ≡ some n
      → get_node sha3 parse_short (text t) s ≡ some n
  unfolding get_node
  get_node-text t n s l e =
      let a : (length t == 0) ≡ false = ground (arith, l) in
      let b : ltb (length t) 32 ≡ false = ground (arith, l) in rw a (rw b e)

  pub get_node-put_value :
      ((b : List ℕ) → length (sha3 b) ≡ 32)
      → (n : Node) (force : Bool) (s : Store)
      → let r = put_value sha3 parse_short n force s in get_node sha3 parse_short r.0 r.1 ≡ some n
  unfolding put_value
  get_node-put_value sized n force s =
      let enc = encode (node_value n) in
      elim (Bool-cases (leb 32 (length enc) || force)) [
        | inr e ↦ rw e (unfold get_node in refl)
        | inl e ↦ rw e (
            get_node-text (sha3 enc) n ((sha3 enc, n) ∷ s) (sized enc)
              (find_node-cons (sha3 enc) n s))
      ]

-- A key splits into its nibbles and the terminator.
IsKey-split : (k : List ℕ) → IsKey k → (ns : List ℕ) × (k ≡ ns ++ (16 ∷ [])) × All IsNibble ns
IsKey-split [] h = absurd h
IsKey-split (x ∷ k) (inl (e, n)) = ([], rw (e, n) refl, tt)
IsKey-split (x ∷ k) (inr (e, h)) =
    let (ns, q, w) = IsKey-split k h in (x ∷ ns, ap (λ l. x ∷ l) q, (e, w))

-- Compact keys, as the trie makes them.
pub compact_key :
    (k : List ℕ)
    → (IsKey k ⊎ (IsNibbles k × (k ≢ [])))
    → (c : List ℕ) × (compact_encode k ≡ ok c) × (compact_decode c ≡ ok k)
compact_key k h = go (compact_encode k) refl (whole h)
  where
    whole : (IsKey k ⊎ (IsNibbles k × (k ≢ []))) → (compact_encode k >>= compact_decode) ≡ ok k
    whole (inl h) =
        let (ns, e, w) = IsKey-split k h in rw e (compact_decode-compact_encode ns true w (λ f. cc))
    whole (inr (h, n)) = rw (append-nil k) at (compact_decode-compact_encode k false h (λ f. n))

    go :
        (o : Outcome (List ℕ))
        → compact_encode k ≡ o
        → (compact_encode k >>= compact_decode) ≡ ok k
        → (c : List ℕ) × (compact_encode k ≡ ok c) × (compact_decode c ≡ ok k)
    go (ok c) e q = (c, e, rw e at q)
    go panic e q = let f : panic ≡ ok k = rw e at q in cc
    go out_of_fuel e q = let f : out_of_fuel ≡ ok k = rw e at q in cc
