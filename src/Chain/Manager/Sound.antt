-- ===== src/Chain/Manager/Sound.antt =====
-- monkchain/chain_manager.go: what is true of the chain manager between its operations.
use thelonious.Base.{
  ℕ, ◌<◌, ◌≤◌, List, [], ◌∷◌, ◌≡◌, refl, sym, ap, ◌∙◌, inl, inr, ◌==◌, false, Option, some,
  Option-cases, All, Holds, Holds-weaken, Holds-both, IfOk, arith,
}
use mathlib.Core.Path.{subst}
use thelonious.Trie.Cache.{find, store}
use thelonious.Trie.Cache.Maps.{find-store, find-store_other, find-store_cases, same_or_not}
use thelonious.Chain.Manager.{Block, BlockInfo, ChainManager, write, total_of}
use thelonious.Chain.Manager.Adding.{
  set_total_difficulty, write_block_info, add, lengthen, new_links,
}
use thelonious.Chain.Manager.Testing.{Processor, set_total, unset_total, put_link, test_chain}
use thelonious.Chain.Manager.Kept.{
  canonical, Canonical, IsKept, test_chain-keeps, test_chain-canonical,
}
use thelonious.Chain.Manager.Taken.{
  block_at, block_at-set_total, block_at-unset_total, block_at-put_link,
}

-- Every stored block stands under its hash, and its BlockInfo names it and its parent.
pub record IsKeyed (blocks : List (List ℕ × Block)) (infos : List (List ℕ × BlockInfo))
    : Type 0 where
  pub keyed : (k : List ℕ) (b : Block) → find k blocks ≡ some b → b.hash ≡ k
  pub informed :
      (k : List ℕ) (b : Block)
      → find k blocks ≡ some b
      → (i : BlockInfo) × (find k infos ≡ some i) × (i.hash ≡ k) × (i.parent ≡ b.prev_hash)

-- The stored total difficulty is the manager's, and the head is stored under its hash.
abbrev pub IsStanding : Canonical → Type 0
IsStanding (blocks, infos, last, known, td, number, current, hash) =
    IsKeyed blocks infos × (known ≡ td) × (find hash blocks ≡ some current)

-- The working tree has each link under the hash of its block, and no link that was not made.
abbrev pub IsLinked : ℕ → ChainManager → Type 0
IsLinked n m =
    (m.next_link ≡ n)
    × ((k : List ℕ) (a : ℕ) → find k m.working_tree ≡ some a → (a < n) × ((block_at m a).hash ≡ k))

unfoldable pub IsSound : ChainManager → Type 0
IsSound m = IsStanding (canonical m) × IsLinked m.next_link m

set_total-IsLinked : (n a t : ℕ) (m : ChainManager) → IsLinked n m → IsLinked n (set_total a t m)
unfolding set_total
set_total-IsLinked n a t m (e, h) =
    (e, λ k x f. let (lt, g) = h k x f in (lt, ap (λ b. b.hash) (block_at-set_total x a t m) ∙ g))

unset_total-IsLinked : (n a : ℕ) (m : ChainManager) → IsLinked n m → IsLinked n (unset_total a m)
unfolding unset_total
unset_total-IsLinked n a m (e, h) =
    (e, λ k x f. let (lt, g) = h k x f in (lt, ap (λ b. b.hash) (block_at-unset_total x a m) ∙ g))

put_link-IsLinked :
    (n base a : ℕ) (p : Option ℕ) (t : ℕ) (c : List ℕ) (m : ChainManager)
    → a < n
    → IsLinked n m
    → IsLinked n (put_link base a p t c m)
unfolding put_link
put_link-IsLinked n base a p t c m lt (e, h) = (
  e,
  λ k x f.
      let same = ap (λ b. b.hash) (block_at-put_link base a p t c m x) in
      elim (find-store_cases k (block_at m a).hash a x m.working_tree f) [
        | inl (q, r) ↦
            (subst (λ y. y < n) r lt, same ∙ ap (λ y. (block_at m y).hash) (sym r) ∙ sym q)
        | inr g ↦ let (lx, i) = h k x g in (lx, same ∙ i)
      ],
)

test_chain-IsLinked :
    (process : Processor) (n : ℕ) (c : List ℕ) (m : ChainManager)
    → All (λ a. a < n) c
    → IsLinked n m
    → Holds (λ t. IsLinked n t.manager) (test_chain process c m)
test_chain-IsLinked process n c m = test_chain-keeps kept process c m
  where
    kept : IsKept (IsLinked n) (λ a. a < n)
    kept = record {
      on_set = λ a t m'. set_total-IsLinked n a t m';
      on_unset = λ a m'. unset_total-IsLinked n a m';
      on_put = λ base a p t c' m'. put_link-IsLinked n base a p t c' m';
      on_working = λ w m' h. h;
      on_fresh = λ m' h. h;
    }

find-store_here :
    {A : Type 0} (k j : List ℕ) (a : A) (l : List (List ℕ × A))
    → k ≡ j
    → find k (store j a l) ≡ some a
find-store_here k j a l q = subst (λ x. find x (store j a l) ≡ some a) (sym q) (find-store j a l)

add-IsStanding :
    (b : Block) (td : ℕ) (m : ChainManager)
    → IsKeyed m.blocks m.infos
    → IsStanding (canonical (add b (set_total_difficulty td m)))
unfolding add write_block_info set_total_difficulty
add-IsStanding b td m h = (
  record {
    keyed = λ k x g. elim (find-store_cases k b.hash b x m.blocks g) [
      | inl (q, r) ↦ ap (λ y. y.hash) (sym r) ∙ sym q
      | inr g' ↦ h.keyed k x g'
    ];
    informed = λ k x g. elim (same_or_not k b.hash) [
      | inl q ↦
          let r : some b ≡ some x = sym (find-store_here k b.hash b m.blocks q) ∙ g in
          let e' : b ≡ x = (cc) in
          (_, find-store_here k b.hash _ m.infos q, sym q, ap (λ y. y.prev_hash) e')
      | inr n ↦
          let (i, f', r, r') = h.informed k x (sym (find-store_other k b.hash b m.blocks n) ∙ g) in
          (i, find-store_other k b.hash _ m.infos n ∙ f', r, r')
    ];
  },
  refl,
  find-store b.hash b m.blocks,
)

add-IsLinked :
    (n : ℕ) (b : Block) (td : ℕ) (m : ChainManager)
    → IsLinked n m
    → IsLinked n (add b (set_total_difficulty td m))
unfolding add write_block_info set_total_difficulty
add-IsLinked n b td m h = h

-- What stores its blocks under their hashes is sound from the first block that is added on.
pub first-IsSound :
    (b : Block) (td : ℕ) (m : ChainManager)
    → IsKeyed m.blocks m.infos
    → IsLinked m.next_link m
    → IsSound (add b (set_total_difficulty td m))
unfolding IsSound
first-IsSound b td m h l =
    let l' = add-IsLinked m.next_link b td m l in
    (
      add-IsStanding b td m h,
      subst (λ n. IsLinked n (add b (set_total_difficulty td m))) (sym l'.0) l',
    )

add-IsSound :
    (b : Block) (td : ℕ) (m : ChainManager)
    → IsSound m
    → IsSound (add b (set_total_difficulty td m))
unfolding IsSound
add-IsSound b td m (s, l) = first-IsSound b td m s.0 l

pub lengthen-IsSound : (c : List ℕ) (m : ChainManager) → IsSound m → IfOk IsSound (lengthen c m)
unfolding lengthen
lengthen-IsSound [] m s = s
lengthen-IsSound (a ∷ c) m s = elim (Option-cases (total_of a m)) [
  | inl e ↦ rw (e, lengthen, IfOk) tt
  | inr (t, e) ↦ rw (e, lengthen) (lengthen-IsSound c _ (add-IsSound (m.links a).block t m s))
]

-- A test of links that were made.
pub test_chain-IsSound :
    (process : Processor) (c : List ℕ) (m : ChainManager)
    → All (λ a. a < m.next_link) c
    → IsSound m
    → Holds (λ t. IsSound t.manager × (canonical t.manager ≡ canonical m)) (test_chain process c m)
unfolding IsSound
test_chain-IsSound process c m all (s, l) =
    Holds-weaken (λ t. (canonical t.manager ≡ canonical m) × IsLinked m.next_link t.manager)
      (λ t. IsSound t.manager × (canonical t.manager ≡ canonical m)) (test_chain process c m)
      (λ t h.
        ((subst IsStanding (sym h.0) s, subst (λ n. IsLinked n t.manager) (sym h.1.0) h.1), h.0))
      (Holds-both _ _ (test_chain process c m) (test_chain-canonical process c m)
        (test_chain-IsLinked process m.next_link c m all l))

-- Links that are made stand behind the others.
pub new_links-kept :
    (bs : List Block) (m : ChainManager)
    → let r = new_links bs m in
      (canonical r.1 ≡ canonical m)
      × (r.1.working_tree ≡ m.working_tree)
      × (m.next_link ≤ r.1.next_link)
      × All (λ a. a < r.1.next_link) r.0
      × ((x : ℕ) → x < m.next_link → block_at r.1 x ≡ block_at m x)
unfolding new_links write
new_links-kept [] m = (refl, refl, omega arith, tt, λ x lt. refl)
new_links-kept (b ∷ bs) m =
    let (c, w, le, all, same) = new_links-kept bs _ in
    (
      c,
      w,
      omega arith,
      (omega arith, all),
      λ x lt.
          let d : (x == m.next_link) ≡ false = ground arith in
          same x (omega arith) ∙ rw (d, block_at) refl,
    )

pub new_links-IsSound :
    (bs : List Block) (m : ChainManager) → IsSound m → IsSound (new_links bs m).1
unfolding IsSound
new_links-IsSound bs m (s, l) =
    let (c, w, le, all, same) = new_links-kept bs m in
    (
      subst IsStanding (sym c) s,
      (
        refl,
        λ k a f.
            let (lt, h) = l.1 k a (subst (λ x. find k x ≡ some a) w f) in
            (omega arith, ap (λ b. b.hash) (same a lt) ∙ h),
      ),
    )
