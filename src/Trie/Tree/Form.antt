-- ===== src/Trie/Tree/Form.antt =====
-- Insertion keeps the form of the tree.
use thelonious.Base.{
  ℕ, ◌==◌, ==_iff, ◌<◌, ◌≡◌, ◌≢◌, ◌⊎◌, inl, inr, refl, sym, arith, List, [], ◌∷◌, ◌++◌, Bool-cases,
}
use mathlib.Core.Path.{subst}
use thelonious.Trie.Tree.{Tree, leaf, ext, branch, behind, fork, nothing, insert}
use thelonious.Trie.Tree.Keys.{IsNibbles, IsKey, IsKey-append, IsNibbles-append}
use thelonious.Trie.Tree.Insertion.{
  IsLeaf, IsTree, parting, Inserted, replaced, deeper, forked, inside, insert_ext,
}
use thelonious.Trie.Tree.Laws.{deeper-IsTree, inside-IsTree, insert-nil}

IsTree-behind_key : (k v : List ℕ) → IsKey k → IsTree (behind k (leaf v))
IsTree-behind_key [] v h = absurd h
IsTree-behind_key (x ∷ k) v h = inl (h, tt)

IsTree-behind_nibbles : (k : List ℕ) (t : Tree) → IsNibbles k → IsTree t → IsTree (behind k t)
IsTree-behind_nibbles [] t h w = w
IsTree-behind_nibbles (x ∷ k) t h w = inr (h, (λ f. cc), w)

-- What stands behind a nibble of an extension's key: a tree, or behind 16 a value.
Branch : ℕ → Tree → Type 0
Branch a t = ((a < 16) × IsTree t) ⊎ ((a ≡ 16) × IsLeaf t)

new-Branch : (b : ℕ) (k v : List ℕ) → IsKey (b ∷ k) → Branch b (behind k (leaf v))
unfolding Branch
new-Branch b k v (inl (e, n)) = inr (e, rw n tt)
new-Branch b k v (inr (e, h)) = inl (e, IsTree-behind_key k v h)

old-Branch : (a : ℕ) (k : List ℕ) (t : Tree) → IsTree (ext (a ∷ k) t) → Branch a (behind k t)
unfolding Branch
old-Branch a k t (inl (inl (e, n), l)) = inr (e, rw n l)
old-Branch a (x ∷ k) t (inl (inr (e, h), l)) = inl (e, inl (h, l))
old-Branch a [] t (inl (inr (e, h), l)) = absurd h
old-Branch a k t (inr (h, n, w)) = inl (h.0, IsTree-behind_nibbles k t h.1 w)

IsTree-fork :
    (x : ℕ) (t : Tree) (f : ℕ → Tree)
    → Branch x t
    → IsTree (branch f)
    → IsTree (branch (fork x t f))
unfolding Branch
IsTree-fork x t f b w = ((λ i h. below i h b), at b)
  where
    below :
        (i : ℕ) → i < 16 → (((x < 16) × IsTree t) ⊎ ((x ≡ 16) × IsLeaf t)) → IsTree (fork x t f i)
    below i h c = elim (Bool-cases (i == x)) [
      | inr n ↦ rw n (w.0 i h)
      | inl e ↦ elim c [
        | inl d ↦ rw e d.1
        | inr d ↦ let same : i ≡ x = (==_iff i x).0 e in absurd (omega (arith, h, same, d.0))
      ]
    ]

    at : (((x < 16) × IsTree t) ⊎ ((x ≡ 16) × IsLeaf t)) → IsLeaf (fork x t f 16)
    at c = elim (Bool-cases (16 == x)) [
      | inr n ↦ rw n w.1
      | inl e ↦ elim c [
        | inr d ↦ rw e d.1
        | inl d ↦ let same : 16 ≡ x = (==_iff 16 x).0 e in absurd (omega (arith, same, d.0))
      ]
    ]

parting-IsTree :
    (a : ℕ) (k : List ℕ) (t : Tree) (b : ℕ) (rest v : List ℕ)
    → IsTree (ext (a ∷ k) t)
    → IsKey (b ∷ rest)
    → IsTree (parting a k t b rest v)
parting-IsTree a k t b rest v w h =
    IsTree-fork b (behind rest (leaf v)) (fork a (behind k t) nothing) (new-Branch b rest v h)
      (IsTree-fork a (behind k t) nothing (old-Branch a k t w) ((λ i l. refl), tt))

-- An extension below a part of its key.
IsTree-ext_below : (p k : List ℕ) (t : Tree) → k ≢ [] → IsTree (ext (p ++ k) t) → IsTree (ext k t)
IsTree-ext_below p k t n (inl w) = inl ((IsKey-append p k n w.0).1, w.1)
IsTree-ext_below p k t n (inr w) = inr ((IsNibbles-append p k w.0).1, n, w.2)

insert_ext-IsTree :
    (k : List ℕ) (t : Tree) (key v : List ℕ) (r : Tree)
    → IsTree (ext k t)
    → ((rest : List ℕ) → IsTree t → IsKey rest → IsTree (insert t rest v))
    → IsKey key
    → Inserted k t key v r
    → IsTree r
insert_ext-IsTree k t key v r w ih hk (replaced e er) = rw er (inl (hk, tt))
insert_ext-IsTree k t key v r w ih hk (deeper rest d ek er) =
    let (h, wt, hr) = deeper-IsTree k t rest w (subst (λ y. k ≢ y) ek d) (subst IsKey ek hk) in
    rw er (IsTree-behind_nibbles k (insert t rest v) h (ih rest wt hr))
insert_ext-IsTree k t key v r w ih hk (forked p k' rest a b n e ek er) =
    let (h, hb) = IsKey-append p (b ∷ rest) (λ f. cc) (subst IsKey ek hk) in
    let w' = IsTree-ext_below p (a ∷ k') t (λ f. cc) (subst (λ l. IsTree (ext l t)) e w) in
    rw er
      (IsTree-behind_nibbles p (parting a k' t b rest v) h (parting-IsTree a k' t b rest v w' hb))
insert_ext-IsTree k t key v r w ih hk (inside k' n e) =
    absurd (inside-IsTree key k' t (subst (λ l. IsTree (ext l t)) e w) n hk)

-- The new subtree of a branch.
insert-Branch :
    (x : ℕ) (t : Tree) (key v : List ℕ)
    → (x < 16 → IsTree t)
    → IsKey (x ∷ key)
    → (IsTree t → IsKey key → IsTree (insert t key v))
    → Branch x (insert t key v)
unfolding Branch
insert-Branch x t key v w (inl (e, n)) ih = inr (e, rw n (subst IsLeaf (sym (insert-nil t v)) tt))
insert-Branch x t key v w (inr (e, h)) ih = inl (e, ih (w e) h)

pub insert-IsTree : (t : Tree) (key v : List ℕ) → IsTree t → IsKey key → IsTree (insert t key v)
unfolding insert
insert-IsTree t [] v w hk = absurd hk
insert-IsTree (leaf u) (x ∷ key) v w hk = inl (hk, tt)
insert-IsTree (ext k t) (x ∷ key) v w hk =
    insert_ext-IsTree k t (x ∷ key) v _ w (λ rest w' h. insert-IsTree t rest v w' h) hk
      (insert_ext k t (x ∷ key) v (λ f. cc))
insert-IsTree (branch f) (x ∷ key) v w hk =
    IsTree-fork x (insert (f x) key v) f
      (insert-Branch x (f x) key v (w.0 x) hk (λ w' h. insert-IsTree (f x) key v w' h)) w
