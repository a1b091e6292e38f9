-- ===== src/Chain/Manager/Branches.antt =====
-- monkchain/chain_manager.go: that InsertChain and a change of the branch keep the manager sound.
use thelonious.Base.{
  ℕ, zero, suc, List, [], ◌∷◌, ◌≡◌, refl, sym, ap, ◌∙◌, inl, inr, leb, Bool-cases, Option, none,
  some, Option-cases, Outcome, ok, panic, out_of_fuel, ◌>>=◌, IfOk, IfOk->>=, Holds-IfOk,
}
use mathlib.Core.Path.{subst}
use thelonious.Trie.Slices.{compare_int_slice}
use thelonious.Trie.Cache.{find, erase}
use thelonious.Trie.Cache.Maps.{find-erase_cases}
use thelonious.Chain.Manager.{Block, ChainManager, total_of, get_block, get_block_canonical}
use thelonious.Chain.Manager.Adding.{new_links}
use thelonious.Chain.Manager.Testing.{Processor, Verdict, passed, broken, failed, low, test_chain}
use thelonious.Chain.Manager.Inserting.{
  last_of, insert_with, pop_branch, collect_back, keep_old, after_test, switch_to, re_org,
  insert_chain,
}
use thelonious.Chain.Manager.Kept.{canonical}
use thelonious.Chain.Manager.Sound.{
  IsSound, lengthen-IsSound, test_chain-IsSound, new_links-IsSound, new_links-kept,
}

-- A head that is stored may be set.
abbrev with_head : Block → List ℕ → ChainManager → ChainManager
with_head b hash m = record m { current_block = b; current_block_hash = hash }

head-IsSound :
    (b : Block) (hash : List ℕ) (m : ChainManager)
    → find hash m.blocks ≡ some b
    → IsSound m
    → IsSound (with_head b hash m)
unfolding IsSound
head-IsSound b hash m e ((h, t, f), l) = ((h, t, e), l)

pop_branch-IsSound :
    (n : ℕ) (o : Option ℕ) (bs : List Block) (m : ChainManager)
    → IsSound m
    → IfOk (λ r. IsSound r.1 × (canonical r.1 ≡ canonical m)) (pop_branch n o bs m)
unfolding pop_branch IsSound
pop_branch-IsSound n none bs m s = (s, refl)
pop_branch-IsSound zero (some a) bs m s = tt
pop_branch-IsSound (suc n) (some a) bs m (s, (e, l)) =
    let h = (m.links a).block.hash in
    pop_branch-IsSound n (m.links a).parent _ (record m { working_tree = erase h m.working_tree })
      (s, (e, λ k x f. l k x (find-erase_cases k h x m.working_tree f).1))

module _ (process : Processor) where
  keep_old-IsSound :
      (n : ℕ) (hash : List ℕ) (b : Block) (m : ChainManager)
      → IsSound m
      → IfOk IsSound (keep_old process n hash b m)
  unfolding keep_old
  keep_old-IsSound n hash b m s =
      IfOk->>= (λ bs. Unit {0}) IsSound (collect_back n hash b [] m) _ (any _)
        (λ bs u.
          let r = new_links bs m in
          let o = test_chain process r.0 r.1 in
          let h =
            test_chain-IsSound process r.0 r.1 (new_links-kept bs m).3 (new_links-IsSound bs m s) in
          IfOk->>= (λ t. IsSound t.manager × (canonical t.manager ≡ canonical r.1)) IsSound o _
            (Holds-IfOk (λ t. IsSound t.manager × (canonical t.manager ≡ canonical r.1)) o h)
            (λ t g. g.0))
    where
      any : {A : Type 0} (o : Outcome A) → IfOk (λ a. Unit {0}) o
      any (ok a) = tt
      any panic = tt
      any out_of_fuel = tt

  module _ (again : List ℕ → ChainManager → Outcome ChainManager)
      (k : (c : List ℕ) (m : ChainManager) → IsSound m → IfOk IsSound (again c m)) where
    insert_with-IsSound :
        (c : List ℕ) (m : ChainManager) → IsSound m → IfOk IsSound (insert_with again c m)
    unfolding insert_with
    insert_with-IsSound [] m s = tt
    insert_with-IsSound (a ∷ c) m s =
        elim (Option-cases (get_block (m.links a).block.prev_hash m)) [
          | inl e ↦ rw (e, insert_with, IfOk) tt
          | inr (p, e) ↦ elim (Bool-cases (compare_int_slice m.current_block.hash p.hash)) [
            | inl f ↦ rw (e, insert_with) (rw (f, insert_with) (lengthen-IsSound (a ∷ c) m s))
            | inr f ↦ elim (Option-cases (total_of (last_of a c) m)) [
              | inl g ↦ rw (e, insert_with) (rw (f, insert_with) (rw (g, insert_with, IfOk) tt))
              | inr (t, g) ↦ elim (Bool-cases (leb t m.td)) [
                | inl l ↦
                    rw (e, insert_with) (rw (f, insert_with) (rw (g, insert_with) (rw (l, IfOk) s)))
                | inr l ↦
                    rw (e, insert_with)
                      (rw (f, insert_with) (rw (g, insert_with) (rw l (k (a ∷ c) m s))))
              ]
            ]
          ]
        ]

    after_test-IsSound :
        (n : ℕ) (hash : List ℕ) (b : Block) (old : List ℕ) (v : Verdict) (c : List ℕ)
        (m : ChainManager)
        → find old m.blocks ≡ some b
        → IsSound m
        → IfOk IsSound (after_test process again n hash b old v c m)
    unfolding after_test
    after_test-IsSound n hash b old (passed td) c m e s =
        IfOk->>= IsSound IsSound (insert_with again c m) _ (insert_with-IsSound c m s)
          (λ m'. keep_old-IsSound n hash b m')
    after_test-IsSound n hash b old (broken h) c m e s = head-IsSound b old m e s
    after_test-IsSound n hash b old failed c m e s = head-IsSound b old m e s
    after_test-IsSound n hash b old (low x y) c m e s = head-IsSound b old m e s

    switch_to-IsSound :
        (n : ℕ) (r : List Block × ChainManager)
        → IsSound r.1
        → IfOk IsSound (switch_to process again n r)
    unfolding switch_to get_block_canonical
    switch_to-IsSound n ([], m) s = tt
    switch_to-IsSound n (b ∷ bs, m) s = elim (Option-cases (find b.prev_hash m.blocks)) [
      | inl e ↦ rw (e, IfOk) tt
      | inr (anc, e) ↦ elim (Option-cases (find m.current_block_hash m.blocks)) [
        | inl f ↦ rw (e, f, IfOk) tt
        | inr (old, f) ↦ rw (e, f, IfOk) (tried anc old e f)
      ]
    ]
      where
        tried :
            (anc old : Block)
            → find b.prev_hash m.blocks ≡ some anc
            → find m.current_block_hash m.blocks ≡ some old
            → IfOk IsSound (
                test_chain process
                  (new_links (b ∷ bs) m).0
                  (with_head anc b.prev_hash (new_links (b ∷ bs) m).1)
                >>= λ t.
                    after_test process again n b.prev_hash old m.current_block_hash t.verdict
                      t.chain t.manager)
        tried anc old e f =
            let r = new_links (b ∷ bs) m in
            let kept = new_links-kept (b ∷ bs) m in
            let same : r.1.blocks ≡ m.blocks = ap (λ x. x.0) kept.0 in
            let s' =
              head-IsSound anc b.prev_hash r.1
                (subst (λ l. find b.prev_hash l ≡ some anc) (sym same) e)
                (new_links-IsSound (b ∷ bs) m s) in
            IfOk->>=
              (λ t.
                IsSound t.manager
                × (canonical t.manager ≡ canonical (with_head anc b.prev_hash r.1)))
              IsSound (test_chain process r.0 (with_head anc b.prev_hash r.1))
              (λ t.
                after_test process again n b.prev_hash old m.current_block_hash t.verdict t.chain
                  t.manager)
              (Holds-IfOk
                (λ t.
                  IsSound t.manager
                  × (canonical t.manager ≡ canonical (with_head anc b.prev_hash r.1)))
                (test_chain process r.0 (with_head anc b.prev_hash r.1))
                (test_chain-IsSound process r.0 (with_head anc b.prev_hash r.1) kept.3 s'))
              (λ t h.
                after_test-IsSound n b.prev_hash old m.current_block_hash t.verdict t.chain
                  t.manager
                  (subst (λ l. find m.current_block_hash l ≡ some old)
                    (sym (ap (λ x. x.0) h.1 ∙ same)) f)
                  h.0)

  re_org-IsSound :
      (n : ℕ) (c : List ℕ) (m : ChainManager) → IsSound m → IfOk IsSound (re_org process n c m)
  unfolding re_org
  re_org-IsSound zero c m s = tt
  re_org-IsSound (suc n) [] m s = tt
  re_org-IsSound (suc n) (a ∷ c) m s =
      IfOk->>= (λ r. IsSound r.1 × (canonical r.1 ≡ canonical m)) IsSound
        (pop_branch n (some (last_of a c)) [] m) _
        (pop_branch-IsSound n (some (last_of a c)) [] m s)
        (λ r h. switch_to-IsSound (re_org process n) (re_org-IsSound n) n r h.0)

-- InsertChain keeps a sound manager sound, whether it lengthens the canonical chain, changes to
-- another branch or leaves the chain as it is, wherever it returns: every stored block stands under
-- its hash with a BlockInfo of its hash and parent, the head is stored, the stored total difficulty
-- is the manager's, and the working tree has each link under the hash of its block.
pub insert_chain-IsSound :
    (process : Processor) (n : ℕ) (c : List ℕ) (m m' : ChainManager)
    → IsSound m
    → insert_chain process n c m ≡ ok m'
    → IsSound m'
unfolding insert_chain
insert_chain-IsSound process n c m m' s e =
    subst (IfOk IsSound) e
      (insert_with-IsSound process (re_org process n) (re_org-IsSound process n) c m s)
