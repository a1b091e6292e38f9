-- ===== src/Chain/BlockPool/Chosen.antt =====
-- The blocks that are chosen are a chain that starts at a known block, and one too few.
use thelonious.Base.{
  ℕ, zero, suc, ◌≡◌, ◌≢◌, inl, inr, refl, sym, ap, ◌∙◌, List, [], ◌∷◌, Bool, true, false,
  Bool-cases, Option, none, some, Option-cases, take,
}
use thelonious.Trie.Slices.{compare_int_slice, compare_int_slice_iff}
use thelonious.Chain.BlockPool.{Block, from_attached, broken_at, first_chain, choose_blocks}

-- Every block follows the one before it.
abbrev pub Linked : Block → List Block → Type 0
Linked b [] = Unit
Linked b (c ∷ cs) = (c.prev_hash ≡ b.hash) × Linked c cs

-- A chain whose first block follows a known one.
abbrev pub IsAttached : (List ℕ → Bool) → List Block → Type 0
IsAttached known [] = Unit
IsAttached known (b ∷ bs) = (known b.prev_hash ≡ true) × Linked b bs

more : Option ℕ → Option ℕ
more none = none
more (some i) = some (suc i)

broken_at-follows :
    (b c : Block) (cs : List Block)
    → compare_int_slice c.prev_hash b.hash ≡ true
    → broken_at b (c ∷ cs) ≡ more (broken_at c cs)
unfolding broken_at more
broken_at-follows b c cs e = rw e (cases (broken_at c cs))
  where
    cases : (o : Option ℕ) → elim o [ none ↦ none | some i ↦ some (suc i) ] ≡ more o
    cases none = refl
    cases (some i) = refl

broken_at-parts :
    (b c : Block) (cs : List Block)
    → compare_int_slice c.prev_hash b.hash ≡ false
    → broken_at b (c ∷ cs) ≡ some 0
unfolding broken_at
broken_at-parts b c cs e = rw e refl

some_ne : (i : ℕ) → some i ≡ none → ⊥
some_ne i e = let f : true ≡ false = ap is_there e in cc
  where
    is_there : Option ℕ → Bool
    is_there none = false
    is_there (some x) = true

more-none : (o : Option ℕ) → more o ≡ none → o ≡ none
unfolding more
more-none none e = refl
more-none (some i) e = let f : some (suc i) ≡ none = e in absurd (cc)

more-some : (o : Option ℕ) (j : ℕ) → more o ≡ some (suc j) → o ≡ some j
unfolding more
more-some none j e = let f : none ≡ some (suc j) = e in absurd (cc)
more-some (some i) j e = let f : some (suc i) ≡ some (suc j) = e in cc

unbroken-Linked : (b : Block) (bs : List Block) → broken_at b bs ≡ none → Linked b bs
unbroken-Linked b [] e = tt
unbroken-Linked b (c ∷ cs) e = elim (Bool-cases (compare_int_slice c.prev_hash b.hash)) [
  | inl s ↦ (
    (compare_int_slice_iff c.prev_hash b.hash).0 s,
    unbroken-Linked c cs (more-none (broken_at c cs) (sym (broken_at-follows b c cs s) ∙ e)),
  )
  | inr s ↦ absurd (some_ne 0 (sym (broken_at-parts b c cs s) ∙ e))
]

cut-Linked :
    (b : Block) (bs : List Block) (j : ℕ) → broken_at b bs ≡ some (suc j) → Linked b (take j bs)
cut-Linked b [] j e = unfold broken_at in (let f : none ≡ some (suc j) = e in absurd (cc))
cut-Linked b (c ∷ cs) zero e = tt
cut-Linked b (c ∷ cs) (suc j) e = elim (Bool-cases (compare_int_slice c.prev_hash b.hash)) [
  | inl s ↦ (
    (compare_int_slice_iff c.prev_hash b.hash).0 s,
    cut-Linked c cs j (more-some (broken_at c cs) (suc j) (sym (broken_at-follows b c cs s) ∙ e)),
  )
  | inr s ↦ let f : some 0 ≡ some (suc (suc j)) = sym (broken_at-parts b c cs s) ∙ e in absurd (cc)
]

first_chain-IsAttached :
    (known : List ℕ → Bool) (bs : List Block) → IsAttached known (first_chain known bs)
unfolding first_chain
first_chain-IsAttached known [] = tt
first_chain-IsAttached known (b ∷ bs) = elim (Bool-cases (known b.prev_hash)) [
  | inr n ↦ rw n tt
  | inl k ↦ elim (Option-cases (broken_at b bs)) [
    | inl e ↦ rw (k, e) (k, unbroken-Linked b bs e)
    | inr (zero, e) ↦ rw (k, e) tt
    | inr (suc j, e) ↦ rw (k, e) (k, cut-Linked b bs j e)
  ]
]

-- Whatever the blocks of the pool and the chain are, the blocks that chainThread chooses are empty
-- or start with one whose parent is in the chain, and each of them follows the one before it.
pub choose_blocks-IsAttached :
    (known : List ℕ → Bool) (blocks : List Block) → IsAttached known (choose_blocks known blocks)
unfolding choose_blocks
choose_blocks-IsAttached known blocks = elim (Option-cases (from_attached known blocks)) [
  | inl e ↦ rw (e, choose_blocks) (first_chain-IsAttached known blocks)
  | inr (bs, e) ↦ rw (e, choose_blocks) (first_chain-IsAttached known bs)
]

-- When the first two blocks in the order of their numbers do not follow each other, chainThread
-- chooses none, though the parent of the first one is in the chain.
pub choose_blocks_parted :
    (known : List ℕ → Bool) (b c : Block) (rest : List Block)
    → known b.prev_hash ≡ true
    → c.prev_hash ≢ b.hash
    → choose_blocks known (b ∷ c ∷ rest) ≡ []
unfolding choose_blocks from_attached first_chain broken_at
choose_blocks_parted known b c rest k n = elim (Bool-cases (compare_int_slice c.prev_hash b.hash)) [
  | inl s ↦ absurd (n ((compare_int_slice_iff c.prev_hash b.hash).0 s))
  | inr s ↦ rw (k, choose_blocks) (rw k (rw s refl))
]
