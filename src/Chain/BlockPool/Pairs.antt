-- ===== src/Chain/BlockPool/Pairs.antt =====
-- Every hash of the hash pool has one entry in the pool, and the other way round.
use thelonious.Base.{
  ◌%◌, ◌^◌, ℕ, suc, ◌-◌, ◌≡◌, ◌≢◌, inl, inr, refl, sym, ap, ◌∙◌, arith, List, [], ◌∷◌, ◌++◌, ltb,
  if◌then◌else◌, true, false, Bool-cases, Option, none, some, Option-cases,
}
use mathlib.Core.Path.{subst}
use thelonious.Util.Bytes.{delete_from_byte_slice}
use thelonious.Trie.Slices.{compare_int_slice, compare_int_slice_iff}
use thelonious.Trie.Cache.{find, erase, store}
use thelonious.Trie.Cache.Maps.{
  find-store, find-store_other, find-erase, find-erase_other, same_key, same_or_not,
}
use thelonious.Chain.BlockPool.{
  Block, BlockPool, ChainView, reset, add_hash, put_block, add, remove,
}

unfoldable pub occurrences : List ℕ → List (List ℕ) → ℕ
unfolding compare_int_slice
occurrences h [] = 0
occurrences h (x ∷ l) =
    let rest = occurrences h l in if compare_int_slice h x then suc rest else rest

abbrev pub present : {A : Type 0} → Option A → ℕ
present none = 0
present (some a) = 1

-- A hash stands in the hash pool once if the pool has an entry for it, and else not at all.
abbrev pub IsPaired : BlockPool → Type 0
IsPaired p = (h : List ℕ) → occurrences h p.hash_pool ≡ present (find h p.pool)

other : (h k : List ℕ) → h ≢ k → compare_int_slice h k ≡ false
other h k n = elim (Bool-cases (compare_int_slice h k)) [
  | inl e ↦ absurd (n ((compare_int_slice_iff h k).0 e))
  | inr e ↦ e
]

occurrences-append :
    (h x : List ℕ) (l : List (List ℕ)) → occurrences h (l ++ (x ∷ [])) ≡ occurrences h (x ∷ l)
unfolding occurrences
occurrences-append h x [] = refl
occurrences-append h x (y ∷ l) = elim (Bool-cases (compare_int_slice h y)) [
  | inl e ↦ elim (Bool-cases (compare_int_slice h x)) [
    | inl f ↦ rw (e, f) (ap suc (occurrences-append h x l ∙ rw f refl))
    | inr f ↦ rw (e, f) (ap suc (occurrences-append h x l ∙ rw f refl))
  ]
  | inr e ↦ rw e (occurrences-append h x l)
]

-- A new hash, wherever it is put.
new-IsPaired :
    (k : List ℕ) (item : Option Block) (p : BlockPool)
    → IsPaired p
    → find k p.pool ≡ none
    → (h : List ℕ) → occurrences h (k ∷ p.hash_pool) ≡ present (find h (store k item p.pool))
unfolding occurrences
new-IsPaired k item p w q h = elim (same_or_not h k) [
  | inl e ↦
      subst (λ x. occurrences x (k ∷ p.hash_pool) ≡ present (find x (store k item p.pool))) (sym e)
        (rw (same_key k, find-store k item p.pool) (ap suc (w k ∙ ap present q)))
  | inr n ↦ rw (other h k n, find-store_other h k item p.pool n) (w h)
]

add_hash-IsPaired : (k : List ℕ) (p : BlockPool) → IsPaired p → IsPaired (add_hash k p)
unfolding add_hash
add_hash-IsPaired k p w = elim (Option-cases (find k p.pool)) [
  | inr (i, q) ↦ rw (q, add_hash) w
  | inl q ↦ rw (q, add_hash) (new-IsPaired k none p w q)
]

put_block-IsPaired : (b : Block) (p : BlockPool) → IsPaired p → IsPaired (put_block b p)
unfolding put_block
put_block-IsPaired b p w = elim (Option-cases (find b.hash p.pool)) [
  | inl q ↦
      rw (q, put_block)
        (λ h. occurrences-append h b.hash p.hash_pool ∙ new-IsPaired b.hash (some b) p w q h)
  | inr (i, q) ↦ rw (q, put_block) (λ h. again i q h)
]
  where
    again :
        (i : Option Block)
        → find b.hash p.pool ≡ some i
        → (h : List ℕ) → occurrences h p.hash_pool ≡ present (find h (store b.hash (some b) p.pool))
    again i q h = elim (same_or_not h b.hash) [
      | inl e ↦
          subst (λ x. occurrences x p.hash_pool ≡ present (find x (store b.hash (some b) p.pool)))
            (sym e) (w b.hash ∙ ap present q ∙ ap present (sym (find-store b.hash (some b) p.pool)))
      | inr n ↦ w h ∙ ap present (sym (find-store_other h b.hash (some b) p.pool n))
    ]

delete-occurrences_other :
    (h k : List ℕ) (l : List (List ℕ))
    → h ≢ k
    → occurrences h (delete_from_byte_slice (λ x. compare_int_slice x k) l) ≡ occurrences h l
unfolding occurrences delete_from_byte_slice
delete-occurrences_other h k [] n = refl
delete-occurrences_other h k (x ∷ l) n = elim (Bool-cases (compare_int_slice x k)) [
  | inl e ↦
      let d : compare_int_slice h x ≡ false =
        subst (λ y. compare_int_slice h y ≡ false) (sym ((compare_int_slice_iff x k).0 e))
          (other h k n) in
      rw (e, d) refl
  | inr e ↦ elim (Bool-cases (compare_int_slice h x)) [
    | inl f ↦ rw (e, f) (ap suc (delete-occurrences_other h k l n))
    | inr f ↦ rw (e, f) (delete-occurrences_other h k l n)
  ]
]

delete-occurrences :
    (k : List ℕ) (l : List (List ℕ))
    → occurrences k (delete_from_byte_slice (λ x. compare_int_slice x k) l) ≡ occurrences k l - 1
unfolding occurrences delete_from_byte_slice
delete-occurrences k [] = refl
delete-occurrences k (x ∷ l) = elim (Bool-cases (compare_int_slice x k)) [
  | inl e ↦
      let f : compare_int_slice k x ≡ true =
        (compare_int_slice_iff k x).1 (sym ((compare_int_slice_iff x k).0 e)) in
      rw (e, f) (omega arith)
  | inr e ↦
      let f : compare_int_slice k x ≡ false =
        other k x
          (λ s. let g : true ≡ false = sym ((compare_int_slice_iff x k).1 (sym s)) ∙ e in cc) in
      rw (e, f) (delete-occurrences k l)
]

remove-IsPaired : (k : List ℕ) (p : BlockPool) → IsPaired p → IsPaired (remove k p)
unfolding remove
remove-IsPaired k p w h = elim (same_or_not h k) [
  | inr n ↦
      delete-occurrences_other h k p.hash_pool n
      ∙ w h
      ∙ ap present (sym (find-erase_other h k p.pool n))
  | inl e ↦
      subst
        (λ x.
          occurrences x (delete_from_byte_slice (λ y. compare_int_slice y k) p.hash_pool)
          ≡ present (find x (erase k p.pool)))
        (sym e)
        (delete-occurrences k p.hash_pool
          ∙ gone (find k p.pool) (w k)
          ∙ ap present (sym (find-erase k p.pool)))
]
  where
    gone :
        (o : Option (Option Block))
        → occurrences k p.hash_pool ≡ present o
        → occurrences k p.hash_pool - 1 ≡ 0
    gone none e = omega (arith, e)
    gone (some i) e = omega (arith, e)

-- That a hash stands in the hash pool exactly once if the pool has an entry for it, and else not at
-- all, is kept by AddHash, Add, Remove and Reset.
pub steps-IsPaired :
    (v : ChainView) (k : List ℕ) (b : Block) (p : BlockPool)
    → IsPaired p
    → IsPaired (add_hash k p) × IsPaired (add v b p) × IsPaired (remove k p) × IsPaired (reset p)
unfolding add reset occurrences find
steps-IsPaired v k b p w = (add_hash-IsPaired k p w, added, remove-IsPaired k p w, λ h. refl)
  where
    added : IsPaired (add v b p)
    added = elim (Bool-cases v.waiting) [
      | inl e ↦ rw e w
      | inr e ↦ elim (Bool-cases (ltb (b.number % 2 ^ 64) v.latest)) [
        | inl f ↦ rw (e, f) w
        | inr f ↦ elim (Bool-cases (v.has_block b.hash)) [
          | inl g ↦ rw (e, f, g) w
          | inr g ↦ rw (e, f, g) (put_block-IsPaired b p w)
        ]
      ]
    ]
