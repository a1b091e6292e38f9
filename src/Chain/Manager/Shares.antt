-- ===== src/Chain/Manager/Shares.antt =====
-- monkchain/chain_manager.go: the one number that the links of a fork get as their total.
use thelonious.Base.{
  ℕ, ◌+◌, List, [], ◌∷◌, ◌≡◌, refl, sym, ap, ◌∙◌, ◌⊎◌, inl, inr, ◌==◌, true, Bool-cases, Option,
  none, some, Option-cases, ok, Holds, Holds->>=, arith,
}
use mathlib.Core.Path.{subst}
use thelonious.Trie.Cache.{find}
use thelonious.Trie.Cache.Maps.{find-store_cases}
use thelonious.Chain.Manager.{ChainManager, write, total_of}
use thelonious.Chain.Manager.Testing.{base_of, put_link, add_links, add_chain_to_working_tree}

-- What stands in the tree and did not before points to `base`.
abbrev IsShared : ℕ → ChainManager → ChainManager → Type 0
IsShared base m m' =
    (k : List ℕ) (a : ℕ)
    → find k m'.working_tree ≡ some a
    → (find k m.working_tree ≡ some a) ⊎ ((m'.links a).td ≡ some base)

put_link-td :
    (base a : ℕ) (p : Option ℕ) (t : ℕ) (c : List ℕ) (m : ChainManager) (x : ℕ)
    → (((put_link base a p t c m).links x).td ≡ some base)
      ⊎ ((put_link base a p t c m).links x ≡ m.links x)
unfolding put_link write
put_link-td base a p t c m x = elim (Bool-cases (x == a)) [
  | inl e ↦ inl (rw e refl)
  | inr e ↦ inr (rw e refl)
]

put_link-here :
    (base a : ℕ) (p : Option ℕ) (t : ℕ) (c : List ℕ) (m : ChainManager)
    → ((put_link base a p t c m).links a).td ≡ some base
unfolding put_link write
put_link-here base a p t c m = let e : (a == a) ≡ true = ground arith in rw e refl

put_link-IsShared :
    (base a : ℕ) (p : Option ℕ) (t : ℕ) (c : List ℕ) (m m' : ChainManager)
    → IsShared base m m'
    → IsShared base m (put_link base a p t c m')
unfolding put_link
put_link-IsShared base a p t c m m' h k x f = elim (put_link-td base a p t c m' x) [
  | inl e ↦ inr e
  | inr e ↦ elim (find-store_cases k (m'.links a).block.hash a x m'.working_tree f) [
    | inl (q, r) ↦ inr (
        subst (λ y. ((put_link base a p t c m').links y).td ≡ some base) r
          (put_link-here base a p t c m'))
    | inr g ↦ elim (h k x g) [ inl o ↦ inl o | inr o ↦ inr (ap (λ l. l.td) e ∙ o) ]
  ]
]

add_links-IsShared :
    (base : ℕ) (prev : Option ℕ) (c : List ℕ) (m m' : ChainManager)
    → IsShared base m m'
    → Holds (λ r. IsShared base m r.1) (add_links base prev c m')
unfolding add_links
add_links-IsShared base prev [] m m' h = h
add_links-IsShared base prev (a ∷ c) m m' h =
    elim (Option-cases (find (m'.links a).block.hash m'.working_tree)) [
      | inr (x, e) ↦ rw (e, Holds) h
      | inl e ↦ elim (Option-cases (base_of prev (m'.links a).block m')) [
        | inl f ↦ rw (e, f, Holds) h
        | inr ((p, none, d), f) ↦ rw (e, f, Holds) tt
        | inr ((p, some t, d), f) ↦
            rw (e, f, Holds)
              (Holds->>= (λ r. IsShared base m r.1) (λ r. IsShared base m r.1)
                (add_links base (some a) c (put_link base a p (t + d) c m')) _
                (add_links-IsShared base (some a) c m (put_link base a p (t + d) c m')
                  (put_link-IsShared base a p (t + d) c m m' h))
                (λ r g. g))
      ]
    ]

-- Two links that one call of addChainToWorkingTree put into the working tree have the same total
-- difficulty, wherever they stand in the chain: all of them point to the one number that the call
-- adds up.
pub fork_links_share_total :
    (c c' : List ℕ) (m m' : ChainManager) (k j : List ℕ) (a b : ℕ)
    → add_chain_to_working_tree c m ≡ ok (c', m')
    → find k m.working_tree ≡ none
    → find j m.working_tree ≡ none
    → find k m'.working_tree ≡ some a
    → find j m'.working_tree ≡ some b
    → total_of a m' ≡ total_of b m'
unfolding add_chain_to_working_tree total_of
fork_links_share_total c c' m m' k j a b e n1 n2 f g =
    let h : IsShared m.next_total m m' =
      subst (Holds (λ r. IsShared m.next_total m r.1)) e
        (add_links-IsShared m.next_total none c m _ (λ k a f. inl f)) in
    same (new k a n1 (h k a f)) (new j b n2 (h j b g))
  where
    new :
        (k : List ℕ) (a : ℕ)
        → find k m.working_tree ≡ none
        → (find k m.working_tree ≡ some a) ⊎ ((m'.links a).td ≡ some m.next_total)
        → (m'.links a).td ≡ some m.next_total
    new k a n (inl o) = let q : none ≡ some a = sym n ∙ o in absurd (cc)
    new k a n (inr o) = o

    same :
        (m'.links a).td ≡ some m.next_total
        → (m'.links b).td ≡ some m.next_total
        → total_of a m' ≡ total_of b m'
    same x y = rw (x, total_of) (rw (y, total_of) refl)
