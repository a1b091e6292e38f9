-- ===== src/Crypto/Mnemonic/Distinct.antt =====
-- monkcrypto/mnemonic_words.go: no word twice, by a rank that tells the words apart. The rank is read
-- off a search tree, of which nothing needs to be known but what it gives for the words.
use Prim.Native.Nat.{Ordering}
use Prim.Native.String.{String, compare}
use text.Mathlib.Text.{◌==◌ as ◌=s◌}
use text.Mathlib.TextEquality.{eq_iff}
use thelonious.Base.{
  ℕ, zero, suc, ◌+◌, List, [], ◌∷◌, ◌≡◌, refl, sym, ap, ◌∙◌, inl, inr, if◌then◌else◌, Bool, true,
  false, ◌==◌, ==_iff, Bool-cases, none, some, get_elem?, arith,
}
use thelonious.Base.Int.{pos}
use thelonious.Crypto.Mnemonic.{index_from, index_of}
use thelonious.Crypto.Mnemonic.Words.{mnemonic_words}

data Tree : Type 0 where
  leaf : Tree
  node : Tree → String → ℕ → Tree → Tree

insert : String → ℕ → Tree → Tree
insert w i leaf = node leaf w i leaf
insert w i (node l v j r) = elim (compare w v) [
  | Ordering.lt ↦ node (insert w i l) v j r
  | _ ↦ node l v j (insert w i r)
]

rank_in : Tree → String → ℕ
rank_in leaf w = 0
rank_in (node l v j r) w = elim (compare w v) [
  | Ordering.lt ↦ rank_in l w
  | Ordering.eq ↦ j
  | Ordering.gt ↦ rank_in r w
]

tree_of : List String → ℕ → Tree → Tree
unfolding insert
tree_of [] i t = t
tree_of (w ∷ ws) i t = tree_of ws (suc i) (insert w i t)

-- The words have the ranks from `i` on.
ranked : (String → ℕ) → List String → ℕ → Bool
ranked rank [] i = true
ranked rank (w ∷ ws) i = if rank w == i then ranked rank ws (suc i) else false

ranked_first :
    (rank : String → ℕ) (p : ℕ) (v : String) (ws : List String)
    → ranked rank (v ∷ ws) p ≡ true
    → (rank v ≡ p) × (ranked rank ws (suc p) ≡ true)
unfolding ranked
ranked_first rank p v ws r = elim (Bool-cases (rank v == p)) [
  | inl d ↦ ((==_iff (rank v) p).0 d, rw d at r)
  | inr d ↦ let f : false ≡ true = rw d at r in absurd (cc)
]

-- The words have ranks, so that each is found at its own place.
index_from-ranked :
    (rank : String → ℕ) (p i : ℕ) (ws : List String) (w : String)
    → ranked rank ws p ≡ true
    → get_elem? ws i ≡ some w
    → (index_from p ws w ≡ pos (p + i)) × (rank w ≡ p + i)
unfolding ranked index_from
index_from-ranked rank p i [] w r e = let f : none ≡ some w = e in absurd (cc)
index_from-ranked rank p zero (v ∷ ws) w r e =
    let f : some v ≡ some w = e in
    let q : v ≡ w = (cc) in
    (
      rw ((eq_iff v w).1 q) (ap pos (omega arith)),
      ap rank (sym q) ∙ (ranked_first rank p v ws r).0 ∙ omega arith,
    )
index_from-ranked rank p (suc i) (v ∷ ws) w r e =
    let (here, r') = ranked_first rank p v ws r in
    let (found, at) = index_from-ranked rank (suc p) i ws w r' e in
    elim (Bool-cases (v =s w)) [
      | inl d ↦ let same = ap rank ((eq_iff v w).0 d) in absurd (omega (arith, here, at, same))
      | inr d ↦ (rw d (found ∙ ap pos (omega arith)), omega arith)
    ]

ranked_by : Tree → Bool
unfolding ranked rank_in
ranked_by t = ranked (rank_in t) mnemonic_words 0

words_ranked : ranked_by (tree_of mnemonic_words 0 leaf) ≡ true
unfolding ranked_by tree_of mnemonic_words
words_ranked = refl

-- IndexOf finds each word of the table at the place where it stands.
pub index_of-word :
    (i : ℕ) (w : String) → get_elem? mnemonic_words i ≡ some w → index_of mnemonic_words w ≡ pos i
unfolding index_of ranked_by
index_of-word i w e =
    (index_from-ranked (rank_in (tree_of mnemonic_words 0 leaf)) 0 i mnemonic_words w words_ranked
      e).0
    ∙ ap pos (omega arith)
