-- ===== src/State/Accounts.antt =====
-- monkstate/state.go: the map from addresses to state objects, as the list of the objects that the
-- state holds in memory or in its trie, one for an address.
use thelonious.Base.{
  ℕ, ◌≡◌, refl, List, [], ◌∷◌, ◌++◌, ◌==◌, if◌then◌else◌, Bool, true, false, ◌||◌, Option, none,
  some, ◌∙◌, Bool-cases, inl, inr, ==_iff,
}
use thelonious.Base.Int.{ℤ, pos, ◌+ℤ◌, int_laws}
use mathlib.Core.Path.{subst}
use thelonious.State.Objects.{Account, new_account}

unfoldable pub get_state_object : ℕ → List Account → Option Account
get_state_object a [] = none
get_state_object a (c ∷ cs) =
    let rest = get_state_object a cs in if c.address == a then some c else rest

-- What a method does to the object at an address, through any pointer to it.
unfoldable pub update : ℕ → (Account → Account) → List Account → List Account
update a f [] = []
update a f (c ∷ cs) = let rest = update a f cs in if c.address == a then f c ∷ cs else c ∷ rest

unfoldable pub has : ℕ → List Account → Bool
has a [] = false
has a (c ∷ cs) = let rest = has a cs in if c.address == a then true else rest

-- A new object takes the place of one that is at the address.
unfoldable pub new_state_object : ℕ → List Account → List Account
unfolding has update new_account
new_state_object a cs =
    if has a cs then update a (λ c. new_account a) cs else cs ++ (new_account a ∷ [])

unfoldable pub get_or_new : ℕ → List Account → List Account
unfolding has new_account
get_or_new a cs = if has a cs then cs else cs ++ (new_account a ∷ [])

-- The sum of all balances.
unfoldable pub total : List Account → ℤ
total [] = pos 0
total (c ∷ cs) = c.balance +ℤ total cs

pub total-update :
    (a : ℕ) (f : Account → Account) (d : ℤ) (cs : List Account)
    → has a cs ≡ true
    → ((c : Account) → (f c).balance ≡ c.balance +ℤ d)
    → total (update a f cs) ≡ total cs +ℤ d
unfolding has update total
total-update a f d [] h k = cc
total-update a f d (c ∷ cs) h k = elim (Bool-cases (c.address == a)) [
  | inl e ↦ rw e (rw (k c) (omega int_laws))
  | inr e ↦ rw e (rw (total-update a f d cs (rw e at h) k) (omega int_laws))
]

-- Putting another object in the place of the one at an address.
pub total-replace :
    (a : ℕ) (c d : Account) (z : ℤ) (cs : List Account)
    → get_state_object a cs ≡ some c
    → d.balance ≡ c.balance +ℤ z
    → total (update a (λ e. d) cs) ≡ total cs +ℤ z
unfolding get_state_object update total
total-replace a c d z [] h k = cc
total-replace a c d z (b ∷ cs) h k = elim (Bool-cases (b.address == a)) [
  | inl e ↦
      let f : some b ≡ some c = rw e at h in
      let same : b ≡ c = cc in
      let k' : d.balance ≡ b.balance +ℤ z = rw same k in rw e (rw k' (omega int_laws))
  | inr e ↦ rw e (rw (total-replace a c d z cs (rw e at h) k) (omega int_laws))
]

pub has-update :
    (a b : ℕ) (f : Account → Account) (cs : List Account)
    → ((c : Account) → c.address ≡ a → (f c).address ≡ a)
    → has b (update a f cs) ≡ has b cs
unfolding has update
has-update a b f [] k = refl
has-update a b f (c ∷ cs) k = elim (Bool-cases (c.address == a)) [
  | inl e ↦ let at : c.address ≡ a = (==_iff c.address a).0 e in rw e (rw (k c at) (rw at refl))
  | inr e ↦ rw e (rw (has-update a b f cs k) refl)
]

pub get_state_object-has :
    (a : ℕ) (c : Account) (cs : List Account)
    → get_state_object a cs ≡ some c
    → (has a cs ≡ true) × (c.address ≡ a)
unfolding get_state_object has
get_state_object-has a c [] h = cc
get_state_object-has a c (b ∷ cs) h = elim (Bool-cases (b.address == a)) [
  | inl e ↦
      let f : some b ≡ some c = rw e at h in
      let same : b ≡ c = cc in
      (rw e refl, subst (λ c. c.address ≡ a) same ((==_iff b.address a).0 e))
  | inr e ↦ let rest = get_state_object-has a c cs (rw e at h) in (rw e rest.0, rest.1)
]

total-append : (cs : List Account) (c : Account) → total (cs ++ (c ∷ [])) ≡ total cs +ℤ c.balance
unfolding total
total-append [] c = omega int_laws
total-append (b ∷ cs) c = rw (total-append cs c) (omega int_laws)

has-append : (a : ℕ) (cs ds : List Account) → has a (cs ++ ds) ≡ (has a cs || has a ds)
unfolding has
has-append a [] ds = refl
has-append a (b ∷ cs) ds = elim (Bool-cases (b.address == a)) [
  | inl e ↦ rw e refl
  | inr e ↦ rw e (has-append a cs ds)
]

pub total-get_or_new : (a : ℕ) (cs : List Account) → total (get_or_new a cs) ≡ total cs
unfolding get_or_new new_account
total-get_or_new a cs = elim (Bool-cases (has a cs)) [
  | inl e ↦ rw e refl
  | inr e ↦ rw e (total-append cs (new_account a) ∙ omega int_laws)
]

new-has : (a : ℕ) → has a (new_account a ∷ []) ≡ true
unfolding has new_account
new-has a = let same : (a == a) ≡ true = (==_iff a a).1 refl in rw same

pub has-get_or_new : (a : ℕ) (cs : List Account) → has a (get_or_new a cs) ≡ true
unfolding get_or_new new_account
has-get_or_new a cs = elim (Bool-cases (has a cs)) [
  | inl e ↦ rw e e
  | inr e ↦ rw e (has-append a cs (new_account a ∷ []) ∙ rw e (new-has a))
]

pub has-get_or_new_other :
    (a b : ℕ) (cs : List Account) → has b cs ≡ true → has b (get_or_new a cs) ≡ true
unfolding get_or_new new_account
has-get_or_new_other a b cs h = elim (Bool-cases (has a cs)) [
  | inl e ↦ rw e h
  | inr e ↦ rw e (has-append b cs (new_account a ∷ []) ∙ rw h refl)
]

-- A new object at an address that has none.
pub new-get_or_new :
    (a : ℕ) (cs : List Account) → has a cs ≡ false → new_state_object a cs ≡ get_or_new a cs
unfolding new_state_object get_or_new
new-get_or_new a cs h = rw h refl
