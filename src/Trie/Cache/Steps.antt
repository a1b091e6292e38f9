-- ===== src/Trie/Cache/Steps.antt =====
-- What the operations on the cache keep, and what Undo gives back after several of them.
use thelonious.Base.{
  ℕ, ◌≡◌, inl, inr, refl, sym, ap, ◌∙◌, List, true, false, none, some, Option-cases,
}
use mathlib.Core.Path.{subst}
use thelonious.Trie.Cache.{
  Entry, Cache, find, store, put_entry, load, or_nothing, get, delete, undo,
}
use thelonious.Trie.Cache.Maps.{
  find-store_cases, find-erase_cases, find-erase_other, erase-IsMap, drop_dirty-IsMap, kept-some,
  store-IsMap, find-drop_dirty,
}
use thelonious.Trie.Cache.Laws.{IsCoherent, read_found, read_missing, get-undo}

module _ {V : Type 0} (dec : List ℕ → V) where
  put_entry-IsCoherent :
      (k : List ℕ) (v : V) (c : Cache V) → IsCoherent dec c → IsCoherent dec (put_entry k v c)
  unfolding put_entry load
  put_entry-IsCoherent k v c (m, agrees, h) = (
    store-IsMap k (record { value = v; dirty = true }) c.nodes m,
    λ j e q y. elim (find-store_cases j k (record { value = v; dirty = true }) e c.nodes q) [
      | inl (s, t) ↦ let f : true ≡ false = ap (λ x. x.dirty) t ∙ y in absurd (cc)
      | inr q' ↦ agrees j e q' y
    ],
    λ j e q y. let f : true ≡ false = y in absurd (cc),
  )

  get-IsCoherent : (k : List ℕ) (c : Cache V) → IsCoherent dec c → IsCoherent dec (get dec k c).1
  unfolding get
  get-IsCoherent k c w = elim (Option-cases (find k c.nodes)) [
    | inr (e, q) ↦ subst (IsCoherent dec) (sym (left_alone e q)) w
    | inl q ↦ subst (IsCoherent dec) (sym (cached q)) (loaded w)
  ]
    where
      fresh : Entry V
      fresh = record { value = load dec k c; dirty = false }

      left_alone : (e : Entry V) → find k c.nodes ≡ some e → (get dec k c).1 ≡ c
      left_alone e q = rw (q, get) refl

      cached : find k c.nodes ≡ none → (get dec k c).1 ≡ record c { nodes = store k fresh c.nodes }
      cached q = rw (q, get) refl

      loaded : IsCoherent dec c → IsCoherent dec (record c { nodes = store k fresh c.nodes })
      loaded (m, agrees, h) = (
        store-IsMap k fresh c.nodes m,
        λ j e q y. elim (find-store_cases j k fresh e c.nodes q) [
          | inl (s, t) ↦
              sym (ap (λ x. x.value) t) ∙ ap (λ x. load dec x c) (sym s) ∙ unfold load in refl
          | inr q' ↦ agrees j e q' y ∙ unfold load in refl
        ],
        λ j e q y. elim (find-store_cases j k fresh e c.nodes q) [
          | inl (s, t) ↦ sym (ap (λ x. x.dirty) t)
          | inr q' ↦ h j e q' y
        ],
      )

  undo-IsCoherent : (c : Cache V) → IsCoherent dec c → IsCoherent dec (undo c)
  unfolding undo load
  undo-IsCoherent c (m, agrees, h) = (
    drop_dirty-IsMap c.nodes m,
    λ j e q y.
        agrees j e (kept-some (find j c.nodes) e (sym (find-drop_dirty j c.nodes m) ∙ q)).0 y,
    λ j e q y. (kept-some (find j c.nodes) e (sym (find-drop_dirty j c.nodes m) ∙ q)).1,
  )

  delete-IsCoherent : (k : List ℕ) (c : Cache V) → IsCoherent dec c → IsCoherent dec (delete k c)
  unfolding delete load
  delete-IsCoherent k c (m, agrees, h) = (
    erase-IsMap k c.nodes m,
    λ j e q y.
        let (n, q') = find-erase_cases j k e c.nodes q in
        agrees j e q' y ∙ ap (λ o. dec (or_nothing o)) (sym (find-erase_other j k c.db n)),
    λ j e q y. h j e (find-erase_cases j k e c.nodes q).1 y,
  )

  -- Puts and gets, one after another.
  pub data Worked (c : Cache V) : Cache V → Type 0 where
    still : Worked c c
    puts : {c' : Cache V} (k : List ℕ) (v : V) → Worked c c' → Worked c (put_entry k v c')
    gets : {c' : Cache V} (k : List ℕ) → Worked c c' → Worked c (get dec k c').1

  get-db : (k : List ℕ) (c : Cache V) → (get dec k c).1.db ≡ c.db
  unfolding get
  get-db k c = elim (Option-cases (find k c.nodes)) [
    | inl q ↦ rw (q, get) refl
    | inr (e, q) ↦ rw (q, get) refl
  ]

  put_entry-db : (k : List ℕ) (v : V) (c : Cache V) → (put_entry k v c).db ≡ c.db
  unfolding put_entry
  put_entry-db k v c = refl

  Worked-IsCoherent :
      (c c' : Cache V) → Worked c c' → IsCoherent dec c → IsCoherent dec c' × (c'.db ≡ c.db)
  Worked-IsCoherent c _ still w = (w, refl)
  Worked-IsCoherent c _ (puts {c' = c'} k v b) w =
      let r = Worked-IsCoherent c c' b w in
      (put_entry-IsCoherent k v c' r.0, put_entry-db k v c' ∙ r.1)
  Worked-IsCoherent c _ (gets {c' = c'} k b) w =
      let r = Worked-IsCoherent c c' b w in (get-IsCoherent k c' r.0, get-db k c' ∙ r.1)

  read_clean :
      (k : List ℕ) (c : Cache V)
      → IsCoherent dec c
      → c.is_dirty ≡ false
      → (get dec k c).0 ≡ load dec k c
  read_clean k c (m, agrees, h) d = elim (Option-cases (find k c.nodes)) [
    | inl q ↦ read_missing dec k c q
    | inr (e, q) ↦ read_found dec k c e q ∙ agrees k e q (h k e q d)
  ]

  -- After any number of puts and gets on a cache that agrees with its database and is not dirty,
  -- Undo brings back what was read before, at every key.
  pub undo-Worked :
      (k : List ℕ) (c c' : Cache V)
      → IsCoherent dec c
      → c.is_dirty ≡ false
      → Worked c c'
      → (get dec k (undo c')).0 ≡ (get dec k c).0
  undo-Worked k c c' w d b =
      let r = Worked-IsCoherent c c' b w in
      get-undo dec k c' r.0 ∙ loaded c c' r.1 ∙ sym (read_clean k c w d)
    where
      loaded : (x y : Cache V) → y.db ≡ x.db → load dec k y ≡ load dec k x
      loaded x y e = unfold load in ap (λ db. dec (or_nothing (find k db))) e

  -- That no key stands twice, that an entry that is not dirty has the value of the database and
  -- that no entry is dirty in a cache that is not, is kept by PutValue, Get, Delete and Undo.
  pub steps-IsCoherent :
      (k : List ℕ) (v : V) (c : Cache V)
      → IsCoherent dec c
      → IsCoherent dec (put_entry k v c)
        × IsCoherent dec (get dec k c).1
        × IsCoherent dec (delete k c)
        × IsCoherent dec (undo c)
  steps-IsCoherent k v c w = (
    put_entry-IsCoherent k v c w,
    get-IsCoherent k c w,
    delete-IsCoherent k c w,
    undo-IsCoherent c w,
  )
