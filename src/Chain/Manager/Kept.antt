-- ===== src/Chain/Manager/Kept.antt =====
-- monkchain/chain_manager.go: what the check of a chain leaves as it is.
use thelonious.Base.{
  ℕ, suc, List, [], ◌∷◌, ◌≡◌, refl, inl, inr, Bool, true, false, Option, none, some, Option-cases,
  All, ◌+◌, Holds, Holds->>=,
}
use thelonious.Trie.Cache.{find}
use thelonious.Chain.Manager.{Block, BlockInfo, ChainManager, get_block, write}
use thelonious.Chain.Manager.Testing.{
  Processor, Checked, all_passed, broken_on, failed_at, process_chain, set_total, unset_total,
  base_of, put_link, add_links, add_chain_to_working_tree, compare_totals, end_test, is_fork,
  test_chain,
}

-- The database, the total difficulty and the head.
abbrev pub Canonical : Type 0
Canonical =
    List (List ℕ × Block) × List (List ℕ × BlockInfo) × Option Block × ℕ × ℕ × ℕ × Block × List ℕ

abbrev pub canonical : ChainManager → Canonical
canonical m = (
  m.blocks, m.infos, m.last_block, m.known_td, m.td, m.current_block_number, m.current_block,
  m.current_block_hash,
)

-- What every step of a loop keeps is kept by the loop.
module _ (I : ChainManager → Type 0) where
  pub process_chain-keeps :
      (process : Processor)
      → ((a t : ℕ) (m : ChainManager) → I m → I (set_total a t m))
      → ((a : ℕ) (m : ChainManager) (p : Block)
          → get_block (m.links a).block.prev_hash m ≡ some p
          → process m (m.links a).block p ≡ some none
          → I m
          → I (unset_total a m))
      → (c : List ℕ) (td : Option ℕ) (m : ChainManager) → I m
      → Holds (λ r. I r.0) (process_chain process c td m)
  unfolding process_chain
  process_chain-keeps process k u [] td m i = i
  process_chain-keeps process k u (a ∷ c) td m i =
      let b = (m.links a).block in
      elim (Option-cases (get_block b.prev_hash m)) [
        | inl e ↦ rw (e, Holds) i
        | inr (p, e) ↦ elim (Option-cases (process m b p)) [
          | inl f ↦ rw (e, f, Holds) i
          | inr (none, f) ↦
              rw (e, f, Holds)
                (process_chain-keeps process k u c none (unset_total a m) (u a m p e f i))
          | inr (some t, f) ↦
              rw (e, f, Holds)
                (process_chain-keeps process k u c (some t) (set_total a t m) (k a t m i))
        ]
      ]

-- What the check of a chain of links in `P` does to the manager, step by step.
pub record IsKept (I : ChainManager → Type 0) (P : ℕ → Type 0) : Type 0 where
  pub on_set : (a t : ℕ) (m : ChainManager) → I m → I (set_total a t m)
  pub on_unset : (a : ℕ) (m : ChainManager) → I m → I (unset_total a m)
  pub on_put :
      (base a : ℕ) (p : Option ℕ) (t : ℕ) (c : List ℕ) (m : ChainManager)
      → P a
      → I m
      → I (put_link base a p t c m)
  pub on_working :
      (w : Option (List ℕ)) (m : ChainManager) → I m → I (record m { working_chain = w })
  pub on_fresh :
      (m : ChainManager)
      → I m
      → I (record m { totals = write m.totals m.next_total 0; next_total = suc m.next_total })

module _ {I : ChainManager → Type 0} {P : ℕ → Type 0} (k : IsKept I P) where
  add_links-keeps :
      (base : ℕ) (prev : Option ℕ) (c : List ℕ) (m : ChainManager)
      → All P c
      → I m
      → Holds (λ r. I r.1) (add_links base prev c m)
  unfolding add_links
  add_links-keeps base prev [] m ps i = i
  add_links-keeps base prev (a ∷ c) m ps i =
      elim (Option-cases (find (m.links a).block.hash m.working_tree)) [
        | inr (x, e) ↦ rw (e, Holds) i
        | inl e ↦ elim (Option-cases (base_of prev (m.links a).block m)) [
          | inl f ↦ rw (e, f, Holds) i
          | inr ((p, none, d), f) ↦ rw (e, f, Holds) tt
          | inr ((p, some t, d), f) ↦
              rw (e, f, Holds)
                (Holds->>= (λ r. I r.1) (λ r. I r.1)
                  (add_links base (some a) c (put_link base a p (t + d) c m)) _
                  (add_links-keeps base (some a) c (put_link base a p (t + d) c m) ps.1
                    (k.on_put base a p (t + d) c m ps.0 i))
                  (λ r h. h))
        ]
      ]

  compare_totals-keeps :
      (td : Option ℕ) (r : List ℕ × ChainManager)
      → I r.1
      → Holds (λ t. I t.manager) (compare_totals td r)
  unfolding compare_totals
  compare_totals-keeps none (c, m) i = tt
  compare_totals-keeps (some td) (c, m) i = k.on_working none m i

  end_test-keeps :
      (fork : Bool) (c : List ℕ) (r : ChainManager × Checked)
      → All P c
      → I r.0
      → Holds (λ t. I t.manager) (end_test fork c r)
  unfolding end_test add_chain_to_working_tree
  end_test-keeps fork c (m, broken_on h) ps i = k.on_working none m i
  end_test-keeps fork c (m, failed_at b) ps i = k.on_working none m i
  end_test-keeps true c (m, all_passed td) ps i =
      Holds->>= (λ r. I r.1) (λ t. I t.manager) (add_chain_to_working_tree c m) _
        (add_links-keeps m.next_total none c _ ps (k.on_fresh m i)) (λ r. compare_totals-keeps td r)
  end_test-keeps false c (m, all_passed td) ps i = compare_totals-keeps td (c, m) i

  pub test_chain-keeps :
      (process : Processor) (c : List ℕ) (m : ChainManager)
      → All P c
      → I m
      → Holds (λ t. I t.manager) (test_chain process c m)
  unfolding test_chain
  test_chain-keeps process [] m ps i = tt
  test_chain-keeps process (a ∷ c) m ps i =
      let m1 = record m { working_chain = some (a ∷ c) } in
      Holds->>= (λ r. I r.0) (λ t. I t.manager) (process_chain process (a ∷ c) none m1) _
        (process_chain-keeps I process k.on_set (λ b m' p e f. k.on_unset b m') (a ∷ c) none m1
          (k.on_working _ m i))
        (λ r. end_test-keeps (is_fork m1 (m.links a).block) (a ∷ c) r ps)

pub process_chain-canonical :
    (process : Processor) (c : List ℕ) (td : Option ℕ) (m n : ChainManager)
    → canonical n ≡ canonical m
    → Holds (λ r. canonical r.0 ≡ canonical m) (process_chain process c td n)
unfolding set_total unset_total
process_chain-canonical process c td m n =
    process_chain-keeps (λ m'. canonical m' ≡ canonical m) process (λ a t m' e. e)
      (λ a m' p e f h. h) c td n

pub All-any : (c : List ℕ) → All (λ a. Unit {0}) c
All-any [] = tt
All-any (a ∷ c) = (tt, All-any c)

-- TestChain changes neither the stored blocks and BlockInfos nor the total difficulty nor the head,
-- whether the chain passes, fails or is a fork.
pub test_chain-canonical :
    (process : Processor) (c : List ℕ) (m : ChainManager)
    → Holds (λ t. canonical t.manager ≡ canonical m) (test_chain process c m)
unfolding set_total unset_total put_link
test_chain-canonical process c m = test_chain-keeps kept process c m (All-any c) refl
  where
    kept : IsKept (λ m'. canonical m' ≡ canonical m) (λ a. Unit {0})
    kept = record {
      on_set = λ a t m' e. e;
      on_unset = λ a m' e. e;
      on_put = λ base a p t c' m' u e. e;
      on_working = λ w m' e. e;
      on_fresh = λ m' e. e;
    }
