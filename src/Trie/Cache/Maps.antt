-- ===== src/Trie/Cache/Maps.antt =====
-- Maps as lists: what is found after setting and erasing a key, and in what Commit and Undo make.
use thelonious.Base.{
  ℕ, ◌≡◌, ◌≢◌, ◌⊎◌, inl, inr, refl, sym, ap, ◌∙◌, List, [], ◌∷◌, if◌then◌else◌, true, false,
  Bool-cases, Option, none, some,
}
use mathlib.Core.Path.{subst}
use thelonious.Trie.Slices.{compare_int_slice, compare_int_slice_iff}
use thelonious.Trie.Cache.{Entry, find, erase, store, write_dirty, clean, clean_all, drop_dirty}

-- No key twice.
abbrev pub IsMap {ℓ} : {A : Type ℓ} → List (List ℕ × A) → Type ℓ
IsMap [] = Unit
IsMap ((k, a) ∷ l) = (find k l ≡ none) × IsMap l

pub same_key : (k : List ℕ) → compare_int_slice k k ≡ true
same_key k = (compare_int_slice_iff k k).1 refl

pub find-erase : {A : Type 0} (k : List ℕ) (l : List (List ℕ × A)) → find k (erase k l) ≡ none
unfolding find erase
find-erase k [] = refl
find-erase k ((j, a) ∷ l) = elim (Bool-cases (compare_int_slice k j)) [
  | inl e ↦ rw e (find-erase k l)
  | inr e ↦ rw e (rw e (find-erase k l))
]

other_key : (k j : List ℕ) → k ≢ j → compare_int_slice k j ≡ false
other_key k j n = elim (Bool-cases (compare_int_slice k j)) [
  | inl e ↦ absurd (n ((compare_int_slice_iff k j).0 e))
  | inr e ↦ e
]

pub find-erase_other :
    {A : Type 0} (k j : List ℕ) (l : List (List ℕ × A)) → k ≢ j → find k (erase j l) ≡ find k l
unfolding find erase
find-erase_other k j [] n = refl
find-erase_other k j ((i, a) ∷ l) n = elim (Bool-cases (compare_int_slice j i)) [
  | inl e ↦
      let d : compare_int_slice k i ≡ false =
        subst (λ x. compare_int_slice k x ≡ false) ((compare_int_slice_iff j i).0 e)
          (other_key k j n) in
      rw (e, d) (find-erase_other k j l n)
  | inr e ↦ rw e (rw (find-erase_other k j l n) refl)
]

pub find-store :
    {A : Type 0} (k : List ℕ) (a : A) (l : List (List ℕ × A)) → find k (store k a l) ≡ some a
unfolding find
find-store k a l = rw (same_key k) refl

pub find-store_other :
    {A : Type 0} (k j : List ℕ) (a : A) (l : List (List ℕ × A))
    → k ≢ j
    → find k (store j a l) ≡ find k l
unfolding find
find-store_other k j a l n = rw (other_key k j n) (find-erase_other k j l n)

find-erase-none :
    {A : Type 0} (j k : List ℕ) (l : List (List ℕ × A))
    → find j l ≡ none
    → find j (erase k l) ≡ none
find-erase-none j k l e = elim (Bool-cases (compare_int_slice j k)) [
  | inl s ↦
      subst (λ x. find x (erase k l) ≡ none) (sym ((compare_int_slice_iff j k).0 s))
        (find-erase k l)
  | inr d ↦
      find-erase_other j k l
        (λ s. let g : true ≡ false = sym ((compare_int_slice_iff j k).1 s) ∙ d in cc)
      ∙ e
]

pub erase-IsMap : {A : Type 0} (k : List ℕ) (l : List (List ℕ × A)) → IsMap l → IsMap (erase k l)
unfolding erase
erase-IsMap k [] h = tt
erase-IsMap k ((j, a) ∷ l) h = elim (Bool-cases (compare_int_slice k j)) [
  | inl e ↦ rw e (erase-IsMap k l h.1)
  | inr e ↦ rw e (find-erase-none j k l h.0, erase-IsMap k l h.1)
]

pub store-IsMap :
    {A : Type 0} (k : List ℕ) (a : A) (l : List (List ℕ × A)) → IsMap l → IsMap (store k a l)
store-IsMap k a l h = (find-erase k l, erase-IsMap k l h)

pub same_or_not : (k j : List ℕ) → (k ≡ j) ⊎ (k ≢ j)
same_or_not k j = elim (Bool-cases (compare_int_slice k j)) [
  | inl e ↦ inl ((compare_int_slice_iff k j).0 e)
  | inr d ↦ inr (λ s. let g : true ≡ false = sym ((compare_int_slice_iff k j).1 s) ∙ d in cc)
]

-- What stands in a map after setting a key, or erasing one.
pub find-store_cases :
    {A : Type 0} (k j : List ℕ) (a b : A) (l : List (List ℕ × A))
    → find k (store j a l) ≡ some b
    → ((k ≡ j) × (a ≡ b)) ⊎ (find k l ≡ some b)
find-store_cases k j a b l e = elim (same_or_not k j) [
  | inl q ↦
      let f : some a ≡ some b =
        sym (subst (λ x. find x (store j a l) ≡ some a) (sym q) (find-store j a l)) ∙ e in
      inl (q, cc)
  | inr n ↦ inr (sym (find-store_other k j a l n) ∙ e)
]

pub find-erase_cases :
    {A : Type 0} (k j : List ℕ) (b : A) (l : List (List ℕ × A))
    → find k (erase j l) ≡ some b
    → (k ≢ j) × (find k l ≡ some b)
find-erase_cases k j b l e = elim (same_or_not k j) [
  | inl q ↦
      let f : none ≡ some b =
        sym (subst (λ x. find x (erase j l) ≡ none) (sym q) (find-erase j l)) ∙ e in
      absurd (cc)
  | inr n ↦ (n, sym (find-erase_other k j l n) ∙ e)
]

clean_all-none :
    {V : Type 0} (k : List ℕ) (l : List (List ℕ × Entry V))
    → find k l ≡ none
    → find k (clean_all l) ≡ none
unfolding find clean_all
clean_all-none k [] h = refl
clean_all-none k ((j, e) ∷ l) h = elim (Bool-cases (compare_int_slice k j)) [
  | inl s ↦ let f : some e ≡ none = rw s at h in absurd (cc)
  | inr s ↦ rw s (clean_all-none k l (rw s at h))
]

pub clean_all-IsMap : {V : Type 0} (l : List (List ℕ × Entry V)) → IsMap l → IsMap (clean_all l)
unfolding clean_all
clean_all-IsMap [] h = tt
clean_all-IsMap ((j, e) ∷ l) h = (clean_all-none j l h.0, clean_all-IsMap l h.1)

module _ {V : Type 0} where
  abbrev pub cleaned : Option (Entry V) → Option (Entry V)
  cleaned none = none
  cleaned (some e) = some (clean e)

  pub find-clean_all :
      (k : List ℕ) (l : List (List ℕ × Entry V)) → find k (clean_all l) ≡ cleaned (find k l)
  unfolding find clean_all
  find-clean_all k [] = refl
  find-clean_all k ((j, e) ∷ l) = elim (Bool-cases (compare_int_slice k j)) [
    | inl s ↦ rw s refl
    | inr d ↦ rw d (find-clean_all k l)
  ]

  abbrev pub kept : Option (Entry V) → Option (Entry V)
  kept none = none
  kept (some e) = if e.dirty then none else some e

  pub find-drop_dirty :
      (k : List ℕ) (l : List (List ℕ × Entry V)) → IsMap l → find k (drop_dirty l) ≡ kept (find k l)
  unfolding find drop_dirty
  find-drop_dirty k [] h = refl
  find-drop_dirty k ((j, e) ∷ l) h = elim (Bool-cases (compare_int_slice k j)) [
    | inl s ↦
        let gone : find k l ≡ none =
          subst (λ x. find x l ≡ none) (sym ((compare_int_slice_iff k j).0 s)) h.0 in
        elim (Bool-cases e.dirty) [
          | inl d ↦ rw (s, d) (find-drop_dirty k l h.1 ∙ ap kept gone)
          | inr d ↦ rw (s, d) (rw s refl)
        ]
    | inr s ↦ elim (Bool-cases e.dirty) [
      | inl d ↦ rw (s, d) (find-drop_dirty k l h.1)
      | inr d ↦ rw (s, d) (rw s (find-drop_dirty k l h.1))
    ]
  ]

  pub drop_dirty-IsMap : (l : List (List ℕ × Entry V)) → IsMap l → IsMap (drop_dirty l)
  unfolding drop_dirty
  drop_dirty-IsMap [] h = tt
  drop_dirty-IsMap ((j, e) ∷ l) h = elim (Bool-cases e.dirty) [
    | inl d ↦ rw d (drop_dirty-IsMap l h.1)
    | inr d ↦ rw d (find-drop_dirty j l h.1 ∙ ap kept h.0, drop_dirty-IsMap l h.1)
  ]

  -- An entry that is kept is not dirty.
  pub kept-some :
      (o : Option (Entry V)) (e : Entry V) → kept o ≡ some e → (o ≡ some e) × (e.dirty ≡ false)
  kept-some none e h = let f : none ≡ some e = h in absurd (cc)
  kept-some (some x) e h = elim (Bool-cases x.dirty) [
    | inl d ↦ let f : none ≡ some e = rw d at h in absurd (cc)
    | inr d ↦
        let f : some x ≡ some e = subst (λ b. (if b then none else some x) ≡ some e) d h in
        let g : x ≡ e = (cc) in (f, ap (λ y. y.dirty) (sym g) ∙ d)
  ]

  pub cleaned-some :
      (o : Option (Entry V)) (e : Entry V)
      → cleaned o ≡ some e
      → (x : Entry V) × (o ≡ some x) × (clean x ≡ e)
  cleaned-some none e h = let f : none ≡ some e = h in absurd (cc)
  cleaned-some (some x) e h = let f : some (clean x) ≡ some e = h in (x, refl, cc)

  module _ (enc : V → List ℕ) where
    abbrev pub written_over : Option (Entry V) → Option (List ℕ) → Option (List ℕ)
    written_over none o = o
    written_over (some e) o = if e.dirty then some (enc e.value) else o

    -- The database after one round of the loop.
    abbrev after : List ℕ → Entry V → List (List ℕ × List ℕ) → List (List ℕ × List ℕ)
    after j e db = if e.dirty then store j (enc e.value) db else db

    head_same :
        (k j : List ℕ) (e : Entry V) (db : List (List ℕ × List ℕ))
        → k ≡ j
        → find k (after j e db) ≡ written_over (some e) (find k db)
    head_same k j e db q = elim (Bool-cases e.dirty) [
      | inl d ↦ rw d (
          subst (λ x. find x (store j (enc e.value) db) ≡ some (enc e.value)) (sym q)
            (find-store j (enc e.value) db))
      | inr d ↦ rw d refl
    ]

    head_other :
        (k j : List ℕ) (e : Entry V) (db : List (List ℕ × List ℕ))
        → k ≢ j
        → find k (after j e db) ≡ find k db
    head_other k j e db n = elim (Bool-cases e.dirty) [
      | inl d ↦ rw d (find-store_other k j (enc e.value) db n)
      | inr d ↦ rw d refl
    ]

    pub find-write_dirty :
        (k : List ℕ) (l : List (List ℕ × Entry V)) (db : List (List ℕ × List ℕ))
        → IsMap l
        → find k (write_dirty enc l db) ≡ written_over (find k l) (find k db)
    unfolding find write_dirty
    find-write_dirty k [] db h = refl
    find-write_dirty k ((j, e) ∷ l) db h = elim (Bool-cases (compare_int_slice k j)) [
      | inl s ↦
          let eq : k ≡ j = (compare_int_slice_iff k j).0 s in
          let gone : find k l ≡ none = subst (λ x. find x l ≡ none) (sym eq) h.0 in
          rw s (
            find-write_dirty k l (after j e db) h.1
            ∙ ap (λ o. written_over o (find k (after j e db))) gone
            ∙ head_same k j e db eq)
      | inr s ↦ rw s (
          find-write_dirty k l (after j e db) h.1
          ∙ ap (written_over (find k l)) (
              head_other k j e db
                (λ q. let g : true ≡ false = sym ((compare_int_slice_iff k j).1 q) ∙ s in cc)))
    ]
