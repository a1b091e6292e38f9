-- ===== src/Chain/Manager/Hashes.antt =====
-- monkchain/chain_manager.go: the hashes that GetChainHashesFromHash returns.
use thelonious.Base.{
  ℕ, zero, suc, min, List, [], ◌∷◌, length, get_elem?, ◌≡◌, refl, sym, inl, inr, ◌==◌, false,
  Bool-cases, none, some, ok, arith,
}
use mathlib.Core.Path.{subst}
use thelonious.Chain.Manager.{Block, ChainManager, get_block}
use thelonious.Chain.Manager.Walking.{step_back, hashes_back, get_chain_hashes_from_hash}
use thelonious.Chain.Manager.Walks.{IsRising}

-- A block that is not the first has a known parent.
unfoldable pub IsComplete : ChainManager → Type 0
IsComplete m =
    (h : List ℕ) (b : Block)
    → get_block h m ≡ some b
    → (b.number == 0) ≡ false
    → (p : Block) × (get_block b.prev_hash m ≡ some p)

-- The hashes, from the block on, of as many blocks as there are and are asked for.
abbrev pub IsHashesOf : ChainManager → ℕ → Block → List (List ℕ) → Type 0
IsHashesOf m max b hs =
    (length hs ≡ min max (suc b.number))
    × ((i : ℕ) (x : List ℕ)
        → get_elem? hs i ≡ some x
        → (p : Block) × (step_back i (some b) m ≡ some p) × (p.hash ≡ x))

-- The first hash is that of the block, the others those of the blocks behind it.
hashes_at-cons :
    (b : Block) (hs : List (List ℕ)) (m : ChainManager)
    → ((i : ℕ) (x : List ℕ)
        → get_elem? hs i ≡ some x
        → (p : Block) × (step_back i (get_block b.prev_hash m) m ≡ some p) × (p.hash ≡ x))
    → (i : ℕ) (x : List ℕ) → get_elem? (b.hash ∷ hs) i ≡ some x
    → (p : Block) × (step_back i (some b) m ≡ some p) × (p.hash ≡ x)
unfolding step_back
hashes_at-cons b hs m k zero x e = let q : some b.hash ≡ some x = e in (b, refl, cc)
hashes_at-cons b hs m k (suc i) x e = k i x e

hashes_back_lem :
    (max : ℕ) (h : List ℕ) (b : Block) (m : ChainManager)
    → IsRising m
    → IsComplete m
    → get_block h m ≡ some b
    → (hs : List (List ℕ)) × (hashes_back max (some b) m ≡ ok hs) × IsHashesOf m max b hs
unfolding hashes_back IsRising IsComplete
hashes_back_lem zero h b m r c e =
    ([], refl, (omega arith, λ i x f. let q : none ≡ some x = f in absurd (cc)))
hashes_back_lem (suc n) h b m r c e = elim (Bool-cases (b.number == 0)) [
  | inl z ↦ (
    b.hash ∷ [],
    rw z refl,
    (ground arith, hashes_at-cons b [] m (λ j x f. let q : none ≡ some x = f in absurd (cc))),
  )
  | inr z ↦
      let (p, f) = c h b e z in
      let up = r h b p e f in
      let (hs, g, (len, at)) = hashes_back_lem n b.prev_hash p m r c f in
      (
        b.hash ∷ hs,
        rw (z, f) (rw g refl),
        (
          ground arith,
          hashes_at-cons b hs m (λ j x k.
              let (q, s, t) = at j x k in (q, subst (λ o. step_back j o m ≡ some q) (sym f) s, t)),
        ),
      )
]

-- Where a known parent has the number before its child's, and only the first block lacks one,
-- GetChainHashesFromHash returns without a panic the hashes of the block and of those behind it,
-- the first `max` of them or all down to the first block.
pub get_chain_hashes_from_hash_lem :
    (h : List ℕ) (max : ℕ) (b : Block) (m : ChainManager)
    → IsRising m
    → IsComplete m
    → get_block h m ≡ some b
    → (hs : List (List ℕ)) × (get_chain_hashes_from_hash h max m ≡ ok hs) × IsHashesOf m max b hs
unfolding get_chain_hashes_from_hash
get_chain_hashes_from_hash_lem h max b m r c e =
    let (hs, f, g) = hashes_back_lem max h b m r c e in
    (hs, rw (e, get_chain_hashes_from_hash) f, g)
