-- ===== src/Chain/Manager/Totals.antt =====
-- monkchain/chain_manager.go: the totals that the links of a chain get in its test.
use thelonious.Base.{
  ℕ, List, [], ◌∷◌, ◌≡◌, ◌≢◌, refl, inl, inr, ◌==◌, true, Bool-cases, Option, none, some,
  Option-cases, All, Holds, Holds-both, Holds-weaken, arith,
}
use thelonious.Chain.Manager.{Block, ChainManager, write, total_of, get_block}
use thelonious.Chain.Manager.Testing.{
  Processor, Checked, all_passed, broken_on, failed_at, set_total, process_chain,
}
use thelonious.Chain.Manager.Inserting.{last_of}
use thelonious.Chain.Manager.Kept.{process_chain-keeps}
use thelonious.Chain.Manager.Lengthens.{HasTotal}

-- What a test without an error says of the links.
abbrev pub Totalled : ℕ → List ℕ → ChainManager × Checked → Type 0
Totalled a c (m, all_passed none) = ⊥
Totalled a c (m, all_passed (some t)) =
    (total_of (last_of a c) m ≡ some t) × All (HasTotal m) (a ∷ c)
Totalled a c (m, broken_on h) = Unit
Totalled a c (m, failed_at b) = Unit

same_number : (n : ℕ) → (n == n) ≡ true
same_number n = ground arith

set_total-HasTotal : (x a t : ℕ) (m : ChainManager) → HasTotal m x → HasTotal (set_total a t m) x
unfolding set_total write
set_total-HasTotal x a t m (u, e) = elim (Bool-cases (x == a)) [
  | inl f ↦ (m.next_total, rw f refl)
  | inr f ↦ (u, rw f e)
]

pub total_of-set_total : (a t : ℕ) (m : ChainManager) → total_of a (set_total a t m) ≡ some t
unfolding set_total write total_of
total_of-set_total a t m = rw (total_of, same_number a) (rw (same_number m.next_total) refl)

HasTotal-set_total : (a t : ℕ) (m : ChainManager) → HasTotal (set_total a t m) a
unfolding set_total write
HasTotal-set_total a t m = (m.next_total, rw (same_number a) refl)

add_first :
    (a b : ℕ) (c : List ℕ) (r : ChainManager × Checked)
    → HasTotal r.0 a × Totalled b c r
    → Totalled a (b ∷ c) r
add_first a b c (m, all_passed none) (h, t) = t
add_first a b c (m, all_passed (some td)) (h, (t, hs)) = (t, (h, hs))
add_first a b c (m, broken_on k) (h, t) = tt
add_first a b c (m, failed_at k) (h, t) = tt

-- Without an error, the answer for a block whose parent is known is not nil.
abbrev pub HasAnswers : Processor → Type 0
HasAnswers process =
    (m : ChainManager) (b p : Block) → get_block b.prev_hash m ≡ some p → process m b p ≢ some none

module _ (process : Processor) (answers : HasAnswers process) where
  process_first :
      (a : ℕ) (c : List ℕ) (td : Option ℕ) (m : ChainManager)
      → ((t : ℕ) → Holds (Totalled a c) (process_chain process c (some t) (set_total a t m)))
      → Holds (Totalled a c) (process_chain process (a ∷ c) td m)
  unfolding process_chain
  process_first a c td m k =
      let b = (m.links a).block in
      elim (Option-cases (get_block b.prev_hash m)) [
        | inl e ↦ rw (e, Holds) tt
        | inr (p, e) ↦ elim (Option-cases (process m b p)) [
          | inl f ↦ rw (e, f, Holds) tt
          | inr (none, f) ↦ absurd (answers m b p e f)
          | inr (some t, f) ↦ rw (e, f, Holds) (k t)
        ]
      ]

  pub process_chain-Totalled :
      (a : ℕ) (c : List ℕ) (td : Option ℕ) (m : ChainManager)
      → Holds (Totalled a c) (process_chain process (a ∷ c) td m)
  unfolding process_chain
  process_chain-Totalled a [] td m = process_first a [] td m (λ t. last t)
    where
      last : (t : ℕ) → Holds (Totalled a []) (process_chain process [] (some t) (set_total a t m))
      last t = (total_of-set_total a t m, (HasTotal-set_total a t m, tt))
  process_chain-Totalled a (x ∷ xs) td m = process_first a (x ∷ xs) td m (λ t.
      Holds-weaken (λ r. HasTotal r.0 a × Totalled x xs r) (Totalled a (x ∷ xs)) _
        (add_first a x xs)
        (Holds-both (λ r. HasTotal r.0 a) (Totalled x xs) _
          (process_chain-keeps (λ m'. HasTotal m' a) process
            (λ b t' m'. set_total-HasTotal a b t' m')
            (λ b m' p e f h. absurd (answers m' (m'.links b).block p e f)) (x ∷ xs) (some t)
            (set_total a t m) (HasTotal-set_total a t m))
          (process_chain-Totalled x xs (some t) (set_total a t m))))
