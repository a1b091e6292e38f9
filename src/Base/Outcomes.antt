-- ===== src/Base/Outcomes.antt =====
-- The outcome of a Go function that may panic. `out_of_fuel` has no counterpart in the program: a
-- loop modelled on fuel ran out of it.

pub data Outcome {ℓ} (A : Type ℓ) : Type ℓ where
  ok : A → Outcome A
  panic out_of_fuel : Outcome A

infixl 5 ◌>>=◌
abbrev pub ◌>>=◌ {ℓ κ} : {A : Type ℓ} {B : Type κ} → Outcome A → (A → Outcome B) → Outcome B
ok a >>= f = f a
panic >>= f = panic
out_of_fuel >>= f = out_of_fuel

-- What holds of the result, where there is one; a panic has none.
abbrev pub Holds {ℓ} : {A : Type ℓ} → (A → Type 0) → Outcome A → Type 0
Holds P (ok a) = P a
Holds P panic = Unit
Holds P out_of_fuel = ⊥

pub Holds->>= {ℓ κ} :
    {A : Type ℓ} {B : Type κ} (P : A → Type 0) (Q : B → Type 0) (o : Outcome A) (f : A → Outcome B)
    → Holds P o
    → ((a : A) → P a → Holds Q (f a))
    → Holds Q (o >>= f)
Holds->>= P Q (ok a) f h k = k a h
Holds->>= P Q panic f h k = tt
Holds->>= P Q out_of_fuel f h k = h

pub Holds-weaken :
    {A : Type 0} (P Q : A → Type 0) (o : Outcome A) → ((a : A) → P a → Q a) → Holds P o → Holds Q o
Holds-weaken P Q (ok a) f h = f a h
Holds-weaken P Q panic f h = tt
Holds-weaken P Q out_of_fuel f h = h

pub Holds-both {ℓ} :
    {A : Type ℓ} (P Q : A → Type 0) (o : Outcome A)
    → Holds P o
    → Holds Q o
    → Holds (λ a. P a × Q a) o
Holds-both P Q (ok a) p q = (p, q)
Holds-both P Q panic p q = tt
Holds-both P Q out_of_fuel p q = p

-- What holds of the result of what may also run out of fuel.
abbrev pub IfOk {ℓ} : {A : Type ℓ} → (A → Type 0) → Outcome A → Type 0
IfOk P (ok a) = P a
IfOk P panic = Unit
IfOk P out_of_fuel = Unit

pub IfOk->>= {ℓ κ} :
    {A : Type ℓ} {B : Type κ} (P : A → Type 0) (Q : B → Type 0) (o : Outcome A) (f : A → Outcome B)
    → IfOk P o
    → ((a : A) → P a → IfOk Q (f a))
    → IfOk Q (o >>= f)
IfOk->>= P Q (ok a) f h k = k a h
IfOk->>= P Q panic f h k = tt
IfOk->>= P Q out_of_fuel f h k = tt

pub Holds-IfOk {ℓ} : {A : Type ℓ} (P : A → Type 0) (o : Outcome A) → Holds P o → IfOk P o
Holds-IfOk P (ok a) h = h
Holds-IfOk P panic h = tt
Holds-IfOk P out_of_fuel h = tt
