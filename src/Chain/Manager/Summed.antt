-- ===== src/Chain/Manager/Summed.antt =====
-- monkchain/chain_manager.go: the total difficulty of a chain of new blocks.
use thelonious.Base.{
  leb, ℕ, ◌+◌, List, [], ◌∷◌, ◌≡◌, refl, sym, ap, ◌∙◌, inl, inr, if◌then◌else◌, Bool, Bool-cases,
  Option, none, some, Option-cases, All, Outcome, ok, panic, out_of_fuel, Holds, IfOk, IfOk->>=,
  Holds-IfOk, arith,
}
use mathlib.Core.Path.{subst}
use thelonious.Trie.Cache.{find}
use thelonious.Chain.Manager.{
  Block, BlockInfo, ChainManager, get_block, get_block_canonical, block_info, calculate_block_td,
}
use thelonious.Chain.Manager.Testing.{
  Processor, Verdict, passed, low, Checked, all_passed, broken_on, failed_at, set_total,
  process_chain, Tested, compare_totals, end_test, add_chain_to_working_tree, is_fork, test_chain,
}
use thelonious.Chain.Manager.Taken.{block_at, block_at-set_total}
use thelonious.Chain.Manager.News.{
  IsCalculating, IsNew, IsTested, answer, tested_block, tested_total, IsNew-set_total,
  IsTested-set_total, IsNew-working,
}

All-both : {P Q : ℕ → Type 0} (c : List ℕ) → ((x : ℕ) → P x → Q x) → All P c → All Q c
All-both [] k h = tt
All-both (x ∷ c) k (h, hs) = (k x h, All-both c k hs)

-- Each block's parent is the one before it.
abbrev pub IsChained : (ℕ → Block) → ℕ → List ℕ → Type 0
IsChained f a [] = Unit
IsChained f a (x ∷ c) = ((f x).prev_hash ≡ (f a).hash) × IsChained f x c

abbrev pub difficulties : (ℕ → Block) → List ℕ → ℕ
difficulties f [] = 0
difficulties f (x ∷ c) = calculate_block_td (f x) + difficulties f c

abbrev Reaches : ℕ → ChainManager × Checked → Type 0
Reaches n r = (td : ℕ) → r.1 ≡ all_passed (some td) → td ≡ n

abbrev passed_td : Checked → Option ℕ
passed_td (all_passed o) = o
passed_td _ = none

module _ (process : Processor) (k : IsCalculating process) (whole : List ℕ) (f : ℕ → Block) where
  -- One round, behind a parent that has a total.
  one_round :
      (x : ℕ) (c : List ℕ) (o : Option ℕ) (p : Block) (t n : ℕ) (m : ChainManager)
      → block_at m x ≡ f x
      → get_block (block_at m x).prev_hash m ≡ some p
      → (block_info p m).td ≡ some t
      → ((u : ℕ)
          → u ≡ t + calculate_block_td (f x)
          → Holds (Reaches n) (process_chain process c (some u) (set_total x u m)))
      → Holds (Reaches n) (process_chain process (x ∷ c) o m)
  unfolding process_chain
  one_round x c o p t n m s e i rest = elim (Option-cases (process m (block_at m x) p)) [
    | inl g ↦ rw (e, g, Holds) (λ td h. let q : none ≡ some td = ap passed_td h in absurd (cc))
    | inr (none, g) ↦
        let q : none ≡ some (t + calculate_block_td (block_at m x)) =
          answer process (block_at m x) p t none m k e i g in
        absurd (cc)
    | inr (some u, g) ↦
        let q : some u ≡ some (t + calculate_block_td (block_at m x)) =
          answer process (block_at m x) p t (some u) m k e i g in
        let r : u ≡ t + calculate_block_td (block_at m x) = (cc) in
        rw (e, g, Holds) (rest u (r ∙ ap (λ b. t + calculate_block_td b) s))
  ]

  process_chain-Reaches :
      (a t : ℕ) (c : List ℕ) (m : ChainManager)
      → ((x : ℕ) → block_at m x ≡ f x)
      → IsTested whole a t m
      → All (IsNew whole m) c
      → IsChained f a c
      → Holds (Reaches (t + difficulties f c)) (process_chain process c (some t) m)
  unfolding process_chain
  process_chain-Reaches a t [] m same i all ch =
      λ td h. let q : some t ≡ some td = ap passed_td h in let e : t ≡ td = (cc) in omega arith
  process_chain-Reaches a t (x ∷ c) m same i (n, all) (e, ch) =
      let prev : (block_at m x).prev_hash ≡ (block_at m a).hash =
        ap (λ b. b.prev_hash) (same x) ∙ e ∙ sym (ap (λ b. b.hash) (same a)) in
      let found = ap (λ h. get_block h m) prev ∙ tested_block whole a t m i in
      one_round x c (some t) (block_at m a) t (t + difficulties f (x ∷ c)) m (same x) found
        (tested_total whole a t m i)
        (λ u q.
          subst (λ n. Holds (Reaches n) (process_chain process c (some u) (set_total x u m)))
            (let r : u + difficulties f c ≡ t + difficulties f (x ∷ c) = omega (arith, q) in r)
            (process_chain-Reaches x u c (set_total x u m)
              (λ y. block_at-set_total y x u m ∙ same y)
              (IsTested-set_total whole x u m i.working n)
              (All-both c (λ y. IsNew-set_total whole y x u m) all) ch))

-- The total that TestChain returns without an error, or with a TDError.
abbrev pub returned_td : Verdict → Option ℕ
returned_td (passed td) = some td
returned_td (low td known) = some td
returned_td _ = none

abbrev IsSum : ℕ → Tested → Type 0
IsSum n t = (td : ℕ) → returned_td t.verdict ≡ some td → td ≡ n

compare_totals-IsSum :
    (n : ℕ) (o : Option ℕ) (r : List ℕ × ChainManager)
    → ((td : ℕ) → o ≡ some td → td ≡ n)
    → Holds (IsSum n) (compare_totals o r)
unfolding compare_totals
compare_totals-IsSum n none r k = tt
compare_totals-IsSum n (some t) (c, m) k = elim (Bool-cases (leb t m.td)) [
  | inl e ↦ rw e (λ td q. let g : td ≡ t = (cc) in g ∙ k t refl)
  | inr e ↦ rw e (λ td q. let g : td ≡ t = (cc) in g ∙ k t refl)
]

IfOk-any : {A : Type 0} (o : Outcome A) → IfOk (λ a. Unit {0}) o
IfOk-any (ok a) = tt
IfOk-any panic = tt
IfOk-any out_of_fuel = tt

end_test-IsSum :
    (fork : Bool) (n : ℕ) (c : List ℕ) (r : ChainManager × Checked)
    → Reaches n r
    → IfOk (IsSum n) (end_test fork c r)
unfolding end_test
end_test-IsSum fork n c (m, broken_on h) k = λ td q. let f : none ≡ some td = q in absurd (cc)
end_test-IsSum fork n c (m, failed_at b) k = λ td q. let f : none ≡ some td = q in absurd (cc)
end_test-IsSum fork n c (m, all_passed o) k =
    let added = if fork then add_chain_to_working_tree c m else ok (c, m) in
    IfOk->>= (λ r. Unit {0}) (IsSum n) added (compare_totals o) (IfOk-any added)
      (λ r u.
        Holds-IfOk (IsSum n) (compare_totals o r)
          (compare_totals-IsSum n o r (λ td e. k td (ap all_passed e))))

block_info-stored :
    (p : Block) (i : BlockInfo) (m : ChainManager)
    → find p.hash m.infos ≡ some i
    → block_info p m ≡ i
unfolding block_info
block_info-stored p i m e = rw (e, block_info) refl

-- The total difficulty that TestChain returns without an error or with a TDError, on the head or on a
-- fork, for a chain whose first block's parent is stored with a total and whose blocks are new, each behind the one before it, is the
-- parent's total and the difficulties of the chain's blocks with their uncles', where the processor
-- answers what CalcTotalDiff calculates.
pub total-test_chain :
    (process : Processor) (a : ℕ) (c : List ℕ) (m : ChainManager) (p : Block) (i : BlockInfo)
    (t : ℕ)
    → IsCalculating process
    → get_block_canonical (block_at m a).prev_hash m ≡ some p
    → find p.hash m.infos ≡ some i
    → i.td ≡ some t
    → All (IsNew (a ∷ c) m) (a ∷ c)
    → IsChained (block_at m) a c
    → (r : Tested) (td : ℕ) → test_chain process (a ∷ c) m ≡ ok r
    → returned_td r.verdict ≡ some td
    → td ≡ t + difficulties (block_at m) (a ∷ c)
unfolding test_chain get_block
total-test_chain process a c m p i t k e f g (new, news) ch r td is_ok v =
    let whole = a ∷ c in
    let m1 = record m { working_chain = some whole } in
    let n = t + difficulties (block_at m) whole in
    let rounds : Holds (Reaches n) (process_chain process whole none m1) =
      one_round process k whole (block_at m) a c none p t n m1 refl (rw (e, get_block) refl)
        (ap (λ x. x.td) (block_info-stored p i m1 f) ∙ g)
        (λ u r.
          subst (λ n. Holds (Reaches n) (process_chain process c (some u) (set_total a u m1)))
            (let s : u + difficulties (block_at m) c ≡ n = omega (arith, r) in s)
            (process_chain-Reaches process k whole (block_at m) a u c (set_total a u m1)
              (λ y. block_at-set_total y a u m1)
              (IsTested-set_total whole a u m1 refl (IsNew-working whole a (some whole) m new))
              (All-both c
                (λ y h. IsNew-set_total whole y a u m1 (IsNew-working whole y (some whole) m h))
                news)
              ch)) in
    let fork = is_fork m1 (block_at m a) in
    subst (IfOk (IsSum n)) is_ok
      (IfOk->>= (Reaches n) (IsSum n) (process_chain process whole none m1) (end_test fork whole)
        (Holds-IfOk (Reaches n) (process_chain process whole none m1) rounds)
        (λ r. end_test-IsSum fork n whole r))
      td v
