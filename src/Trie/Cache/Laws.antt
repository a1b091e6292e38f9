-- ===== src/Trie/Cache/Laws.antt =====
-- The cache and its database agree, and Commit and Undo do what they say.
use thelonious.Base.{
  ◌<◌, arith, ℕ, ◌≡◌, ◌⊎◌, inl, inr, refl, sym, ap, ◌∙◌, List, length, ltb, true, false, Bool-cases,
  none, some, Option-cases,
}
use thelonious.Trie.Cache.{Entry, Cache, find, load, or_nothing, get, clean, commit, undo}
use thelonious.Trie.Cache.Maps.{
  IsMap, cleaned, find-clean_all, kept, find-drop_dirty, written_over, find-write_dirty,
}

module _ {V : Type 0} (dec : List ℕ → V) where
  -- No key twice; an entry that is not dirty has the value that the database has; where the cache is
  -- not dirty, no entry is.
  abbrev pub IsCoherent : Cache V → Type 0
  IsCoherent c =
      IsMap c.nodes
      × ((k : List ℕ) (e : Entry V)
          → find k c.nodes ≡ some e
          → e.dirty ≡ false
          → e.value ≡ load dec k c)
      × ((k : List ℕ) (e : Entry V)
          → find k c.nodes ≡ some e
          → c.is_dirty ≡ false
          → e.dirty ≡ false)

  -- What Get reads.
  pub read_found :
      (k : List ℕ) (c : Cache V) (e : Entry V) → find k c.nodes ≡ some e → (get dec k c).0 ≡ e.value
  unfolding get
  read_found k c e q = rw (q, get) refl

  pub read_missing :
      (k : List ℕ) (c : Cache V) → find k c.nodes ≡ none → (get dec k c).0 ≡ load dec k c
  unfolding get
  read_missing k c q = rw (q, get) refl

  pub get-undo : (k : List ℕ) (c : Cache V) → IsCoherent c → (get dec k (undo c)).0 ≡ load dec k c
  unfolding undo load
  get-undo k c (m, agrees, h) = elim (Option-cases (find k c.nodes)) [
    | inl q ↦ read_missing k (undo c) (find-drop_dirty k c.nodes m ∙ ap kept q)
    | inr (e, q) ↦ elim (Bool-cases e.dirty) [
      | inl d ↦ read_missing k (undo c) (find-drop_dirty k c.nodes m ∙ ap kept q ∙ rw d refl)
      | inr d ↦
          read_found k (undo c) e (find-drop_dirty k c.nodes m ∙ ap kept q ∙ rw d refl)
          ∙ agrees k e q d
    ]
  ]

  module _ (enc : V → List ℕ) where
    -- What the database has after Commit.
    load-commit :
        (k : List ℕ) (c : Cache V)
        → c.is_dirty ≡ true
        → IsMap c.nodes
        → load dec k (commit enc c)
          ≡ dec (or_nothing (written_over enc (find k c.nodes) (find k c.db)))
    unfolding load commit
    load-commit k c d m =
        rw d (ap (λ o. dec (or_nothing o)) (find-write_dirty enc k c.nodes c.db m))

    committed_value :
        (k : List ℕ) (c : Cache V) (e : Entry V)
        → c.is_dirty ≡ true
        → IsCoherent c
        → find k c.nodes ≡ some e
        → (load dec k (commit enc c) ≡ e.value) ⊎ (load dec k (commit enc c) ≡ dec (enc e.value))
    committed_value k c e d (m, agrees, h) q = elim (Bool-cases e.dirty) [
      | inl y ↦ inr (load-commit k c d m ∙ rw q (rw y refl))
      | inr y ↦ inl (load-commit k c d m ∙ rw q (rw y (unfold load in sym (agrees k e q y))))
    ]

    -- Commit keeps the nodes, as clean ones, or forgets them all.
    committed_nodes :
        (k : List ℕ) (c : Cache V)
        → c.is_dirty ≡ true
        → ((200 < length c.nodes) × (find k (commit enc c).nodes ≡ none))
          ⊎ (find k (commit enc c).nodes ≡ cleaned (find k c.nodes))
    unfolding commit
    committed_nodes k c d = elim (Bool-cases (ltb 200 (length c.nodes))) [
      | inl t ↦ inl (ground (arith, t), rw (d, t) (unfold find in refl))
      | inr t ↦ inr (rw (d, t) (find-clean_all k c.nodes))
    ]

    -- What is read at a key after Commit is what was read before, or, where the cache had more
    -- than 200 nodes, possibly what its encoding decodes to, for a cache that agrees with its
    -- database.
    pub get-commit :
        (k : List ℕ) (c : Cache V)
        → IsCoherent c
        → ((get dec k (commit enc c)).0 ≡ (get dec k c).0)
          ⊎ ((200 < length c.nodes) × ((get dec k (commit enc c)).0 ≡ dec (enc (get dec k c).0)))
    get-commit k c w = elim (Bool-cases c.is_dirty) [
      | inr d ↦ inl (unfold commit in rw d refl)
      | inl d ↦ elim (Option-cases (find k c.nodes)) [
        | inl q ↦
            let missing : find k (commit enc c).nodes ≡ none = elim (committed_nodes k c d) [
              | inl n ↦ n.1
              | inr n ↦ n ∙ ap cleaned q
            ] in
            inl (
              read_missing k (commit enc c) missing
              ∙ load-commit k c d w.0
              ∙ rw q (unfold load in refl)
              ∙ sym (read_missing k c q))
        | inr (e, q) ↦ elim (committed_nodes k c d) [
          | inr n ↦
              inl (
                read_found k (commit enc c) (clean e) (n ∙ ap cleaned q) ∙ sym (read_found k c e q))
          | inl n ↦ elim (committed_value k c e d w q) [
            | inl v ↦ inl (read_missing k (commit enc c) n.1 ∙ v ∙ sym (read_found k c e q))
            | inr v ↦ inr (
              n.0,
              read_missing k (commit enc c) n.1
                  ∙ v
                  ∙ ap (λ x. dec (enc x)) (sym (read_found k c e q)),
            )
          ]
        ]
      ]
    ]
