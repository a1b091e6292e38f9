-- ===== src/Chain/Manager/Taken.antt =====
-- monkchain/chain_manager.go: a chain behind the head that passed its test is what InsertChain puts
-- on top of the canonical chain.
use thelonious.Base.{
  ℕ, ◌<◌, List, ◌∷◌, ◌≡◌, refl, sym, ap, ◌∙◌, inl, inr, leb, ◌==◌, true, false, Bool-cases, Option,
  none, some, All, Outcome, ok, Holds, Holds->>=, Holds-both, arith,
}
use mathlib.Core.Path.{subst}
use thelonious.Trie.Slices.{compare_int_slice_iff}
use thelonious.Chain.Manager.{Block, ChainManager, write, total_of, get_block, get_block_canonical}
use thelonious.Chain.Manager.Testing.{
  Processor, Verdict, passed, broken, failed, low, Checked, all_passed, broken_on, failed_at,
  set_total, unset_total, put_link, process_chain, Tested, compare_totals, end_test, is_fork,
  test_chain,
}
use thelonious.Chain.Manager.Adding.{lengthen}
use thelonious.Chain.Manager.Inserting.{re_org, last_of, insert_with, insert_chain}
use thelonious.Chain.Manager.Kept.{
  process_chain-canonical, canonical, IsKept, test_chain-keeps, test_chain-canonical, All-any,
}
use thelonious.Chain.Manager.Lengthens.{HasTotal, IsHead, lengthen-IsHead}
use thelonious.Chain.Manager.Totals.{HasAnswers, Totalled, process_chain-Totalled}

-- The blocks that the links hold.
abbrev pub block_at : ChainManager → ℕ → Block
block_at m a = (m.links a).block

pub block_at-set_total :
    (x a t : ℕ) (m : ChainManager) → block_at (set_total a t m) x ≡ block_at m x
unfolding set_total write
block_at-set_total x a t m = elim (Bool-cases (x == a)) [
  | inl e ↦ rw (e, block_at) (ap (block_at m) (sym (of_test x a e)))
  | inr e ↦ rw (e, block_at) refl
]
  where
    of_test : (x a : ℕ) → (x == a) ≡ true → x ≡ a
    of_test x a e = ground arith

pub block_at-unset_total :
    (x a : ℕ) (m : ChainManager) → block_at (unset_total a m) x ≡ block_at m x
unfolding unset_total write
block_at-unset_total x a m = elim (Bool-cases (x == a)) [
  | inl e ↦ rw (e, block_at) (ap (block_at m) (sym (of_test x a e)))
  | inr e ↦ rw (e, block_at) refl
]
  where
    of_test : (x a : ℕ) → (x == a) ≡ true → x ≡ a
    of_test x a e = ground arith

-- A chain that passed has all its totals, the last of which is the answer and more than before.
abbrev IsReady : ChainManager → ℕ → List ℕ → Tested → Type 0
IsReady m a c t =
    (td : ℕ)
    → t.verdict ≡ passed td
    → (t.chain ≡ a ∷ c)
      × (total_of (last_of a c) t.manager ≡ some td)
      × All (HasTotal t.manager) (a ∷ c)
      × (m.td < td)

abbrev is_passed : Verdict → Option ℕ
is_passed (passed td) = some td
is_passed _ = none

not_passed : {A : Type 0} (v : Verdict) (td : ℕ) → is_passed v ≡ none → v ≡ passed td → A
not_passed v td e f = let g : none ≡ some td = sym e ∙ ap is_passed f in absurd (cc)

total-working :
    (x : ℕ) (w : Option (List ℕ)) (m : ChainManager)
    → total_of x (record m { working_chain = w }) ≡ total_of x m
unfolding total_of
total-working x w m = refl

leb-false : (a b : ℕ) → leb a b ≡ false → b < a
leb-false a b e = ground arith

end_test-IsReady :
    (m : ChainManager) (a : ℕ) (c : List ℕ) (r : ChainManager × Checked)
    → r.0.td ≡ m.td
    → Totalled a c r
    → Holds (IsReady m a c) (end_test false (a ∷ c) r)
unfolding end_test compare_totals
end_test-IsReady m a c (m', broken_on h) s k = λ td. not_passed (broken h) td refl
end_test-IsReady m a c (m', failed_at b) s k = λ td. not_passed failed td refl
end_test-IsReady m a c (m', all_passed none) s k = tt
end_test-IsReady m a c (m', all_passed (some t)) s (last, all) = elim (Bool-cases (leb t m'.td)) [
  | inl e ↦ rw e (λ td. not_passed (low t m'.td) td refl)
  | inr e ↦ rw e (λ td q.
      let f : some t ≡ some td = ap is_passed q in
      let g : t ≡ td = (cc) in
      (
        refl,
        total-working (last_of a c) none m' ∙ last ∙ ap some g,
        all,
        subst (λ x. x < td) s (subst (λ x. m'.td < x) g (leb-false t m'.td e)),
      ))
]

-- The first block is behind the head.
unfoldable pub IsNext : ChainManager → Block → Type 0
IsNext m b =
    (p : Block) × (get_block_canonical b.prev_hash m ≡ some p) × (m.current_block.hash ≡ p.hash)

is_fork-next : (m : ChainManager) (b : Block) → IsNext m b → is_fork m b ≡ false
unfolding is_fork get_block IsNext
is_fork-next m b (p, e, q) =
    rw (is_fork, e) (rw (is_fork, (compare_int_slice_iff m.current_block.hash p.hash).1 q) refl)

test_chain-IsReady :
    (process : Processor) (a : ℕ) (c : List ℕ) (m : ChainManager)
    → HasAnswers process
    → IsNext m (m.links a).block
    → Holds (IsReady m a c) (test_chain process (a ∷ c) m)
unfolding test_chain IsNext
test_chain-IsReady process a c m answers n =
    let m1 = record m { working_chain = some (a ∷ c) } in
    rw (is_fork-next m1 (m.links a).block n) (
      Holds->>= (λ r. (canonical r.0 ≡ canonical m) × Totalled a c r) (IsReady m a c)
        (process_chain process (a ∷ c) none m1) (end_test false (a ∷ c))
        (Holds-both (λ r. canonical r.0 ≡ canonical m) (Totalled a c)
          (process_chain process (a ∷ c) none m1)
          (process_chain-canonical process (a ∷ c) none m m1 refl)
          (process_chain-Totalled process answers a c none m1))
        (λ r h. end_test-IsReady m a c r (ap (λ x. x.4) h.0) h.1))

pub block_at-put_link :
    (base a : ℕ) (p : Option ℕ) (t : ℕ) (c : List ℕ) (m : ChainManager) (x : ℕ)
    → block_at (put_link base a p t c m) x ≡ block_at m x
unfolding put_link write
block_at-put_link base a p t c m x = elim (Bool-cases (x == a)) [
  | inl e ↦ rw (e, block_at) (ap (block_at m) (sym (of_test x a e)))
  | inr e ↦ rw (e, block_at) refl
]
  where
    of_test : (x a : ℕ) → (x == a) ≡ true → x ≡ a
    of_test x a e = ground arith

-- No test of a chain changes the block of a link.
test_chain-block :
    (process : Processor) (c : List ℕ) (m : ChainManager)
    → Holds (λ t. (x : ℕ) → block_at t.manager x ≡ block_at m x) (test_chain process c m)
test_chain-block process c m = test_chain-keeps kept process c m (All-any c) (λ x. refl)
  where
    kept : IsKept (λ m'. (x : ℕ) → block_at m' x ≡ block_at m x) (λ a. Unit {0})
    kept = record {
      on_set = λ a t m' h x. block_at-set_total x a t m' ∙ h x;
      on_unset = λ a m' h x. block_at-unset_total x a m' ∙ h x;
      on_put = λ base a p t c' m' u h x. block_at-put_link base a p t c' m' x ∙ h x;
      on_working = λ w m' h. h;
      on_fresh = λ m' h. h;
    }

insert_with-next :
    (again : List ℕ → ChainManager → Outcome ChainManager) (a : ℕ) (c : List ℕ) (m : ChainManager)
    → IsNext m (m.links a).block
    → insert_with again (a ∷ c) m ≡ lengthen (a ∷ c) m
unfolding insert_with get_block IsNext
insert_with-next again a c m (p, e, q) =
    rw (e, insert_with)
      (rw ((compare_int_slice_iff m.current_block.hash p.hash).1 q, insert_with) refl)

IsNext-moved :
    (m m' : ChainManager) (b b' : Block)
    → canonical m' ≡ canonical m
    → b' ≡ b
    → IsNext m b
    → IsNext m' b'
unfolding IsNext get_block_canonical
IsNext-moved m m' b b' e f (p, g, q) = (p, rw (ap (λ x. x.0) e, f) g, ap (λ x. x.6.hash) e ∙ q)

-- A chain that passed TestChain, and whose first block is behind the head, is put on top of the
-- canonical chain by InsertChain, without a panic and whatever the fuel: the head, the last block
-- stored and the block stored under its hash are then the chain's last block, and the total
-- difficulty is what TestChain returned, more than before. The processor gives no nil for a block
-- whose parent is known.
pub tested_chain_is_inserted :
    (process : Processor) (n : ℕ) (a : ℕ) (c : List ℕ) (m : ChainManager) (t : Tested) (td : ℕ)
    → HasAnswers process
    → IsNext m (m.links a).block
    → test_chain process (a ∷ c) m ≡ ok t
    → t.verdict ≡ passed td
    → (m' : ChainManager) × (insert_chain process n t.chain t.manager ≡ ok m')
      × IsHead (m.links (last_of a c)).block td m'
      × (m.td < td)
unfolding insert_chain
tested_chain_is_inserted process n a c m t td answers next e v =
    let facts =
      subst
        (Holds (λ r.
          IsReady m a c r
          × ((canonical r.manager ≡ canonical m)
              × ((x : ℕ) → block_at r.manager x ≡ block_at m x))))
        e
        (Holds-both (IsReady m a c) _ _ (test_chain-IsReady process a c m answers next) (
          Holds-both _ _ _ (test_chain-canonical process (a ∷ c) m)
            (test_chain-block process (a ∷ c) m))) in
    let (chain, last, all, more) = facts.0 td v in
    let (m', f, h) = lengthen-IsHead a c td t.manager all last in
    (
      m',
      ap (λ d. insert_chain process n d t.manager) chain
          ∙ insert_with-next (re_org process n) a c t.manager (
              IsNext-moved m t.manager (block_at m a) (block_at t.manager a) facts.1.0 (facts.1.1 a)
                next)
          ∙ f,
      subst (λ b. IsHead b td m') (facts.1.1 (last_of a c)) h,
      more,
    )
