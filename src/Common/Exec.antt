-- ===== src/Common/Exec.antt =====
-- The outcome of a C++ call that may go wrong below the level of the program's own error values.
use mathlib.Core.Path.{◌≡◌, refl, subst, ap}
use mathlib.Core.Logic.{◌⊎◌, inl, inr}

-- `fault` is undefined behaviour, a failed SITM_ASSERT or an exception that nothing catches;
-- `stuck` is a loop that ran out of the fuel it was given.
pub data Exec {ℓ} (A : Type ℓ) : Type ℓ where
  ok : A → Exec A
  fault : Exec A
  stuck : Exec A

infixl 5 ◌>>=◌
abbrev pub ◌>>=◌ {ℓ κ} : {A : Type ℓ} {B : Type κ} → Exec A → (A → Exec B) → Exec B
ok a >>= f = f a
fault >>= f = fault
stuck >>= f = stuck

-- `std::expected<A, E>`.
pub data Expected {ℓ κ} (A : Type ℓ) (E : Type κ) : Type (ℓ ⊔ κ) where
  value : A → Expected A E
  unexpected : E → Expected A E

pub Exec-cases {ℓ} : {A : Type ℓ} (m : Exec A) → ((a : A) × (m ≡ ok a)) ⊎ (m ≡ fault) ⊎ (m ≡ stuck)
Exec-cases (ok a) = inl (a, refl)
Exec-cases fault = inr (inl refl)
Exec-cases stuck = inr (inr refl)

abbrev result_or {ℓ} : {A : Type ℓ} → A → Exec A → A
result_or b (ok a) = a
result_or b fault = b
result_or b stuck = b

pub ok-injective {ℓ} : {A : Type ℓ} {a b : A} → ok a ≡ ok b → a ≡ b
ok-injective {a = a} e = ap (result_or a) e

-- A property of the result, where there is one.
abbrev pub Ensures {ℓ κ} : {A : Type ℓ} → (A → Type κ) → Exec A → Type κ
Ensures P (ok a) = P a
Ensures P fault = Unit {_}
Ensures P stuck = Unit {_}

pub Ensures-bind {ℓ κ μ} :
    {A : Type ℓ} {B : Type κ} {P : A → Type μ} (Q : B → Type μ) (m : Exec A) (f : A → Exec B)
    → Ensures P m
    → ((a : A) → P a → Ensures Q (f a))
    → Ensures Q (m >>= f)
Ensures-bind Q (ok a) f h k = k a h
Ensures-bind Q fault f h k = tt
Ensures-bind Q stuck f h k = tt

pub Ensures-ok {ℓ κ} :
    {A : Type ℓ} (P : A → Type κ) {m : Exec A} {a : A} → m ≡ ok a → Ensures P m → P a
Ensures-ok P e h = subst (Ensures P) e h

-- The call returns, and its result has a property.
abbrev pub Returns {ℓ} : {A : Type ℓ} → (A → Type 0) → Exec A → Type 0
Returns P (ok a) = P a
Returns P fault = ⊥
Returns P stuck = ⊥

pub Returns-bind {ℓ κ} :
    {A : Type ℓ} {B : Type κ} {P : A → Type 0} (Q : B → Type 0) (m : Exec A) (f : A → Exec B)
    → Returns P m
    → ((a : A) → P a → Returns Q (f a))
    → Returns Q (m >>= f)
Returns-bind Q (ok a) f h k = k a h
Returns-bind Q fault f h k = elim h [ ]
Returns-bind Q stuck f h k = elim h [ ]

pub Returns-ok {ℓ} :
    {A : Type ℓ} (P : A → Type 0) (m : Exec A) → Returns P m → (a : A) × (m ≡ ok a) × P a
Returns-ok P (ok a) h = (a, refl, h)
Returns-ok P fault h = elim h [ ]
Returns-ok P stuck h = elim h [ ]

pub Returns-map {ℓ} :
    {A : Type ℓ} {P : A → Type 0} (Q : A → Type 0) (m : Exec A)
    → Returns P m
    → ((a : A) → P a → Q a)
    → Returns Q m
Returns-map Q (ok a) h k = k a h
Returns-map Q fault h k = elim h [ ]
Returns-map Q stuck h k = elim h [ ]

pub Returns-and {ℓ} :
    {A : Type ℓ} (P Q : A → Type 0) (m : Exec A)
    → Returns P m
    → Returns Q m
    → Returns (λ a. P a × Q a) m
Returns-and P Q (ok a) h k = (h, k)
Returns-and P Q fault h k = elim h [ ]
Returns-and P Q stuck h k = elim h [ ]

pub Ensures-map {ℓ κ μ} :
    {A : Type ℓ} {P : A → Type κ} (Q : A → Type μ) (m : Exec A)
    → Ensures P m
    → ((a : A) → P a → Q a)
    → Ensures Q m
Ensures-map Q (ok a) h k = k a h
Ensures-map Q fault h k = tt
Ensures-map Q stuck h k = tt

pub Ensures-any : {A : Type 0} (m : Exec A) → Ensures (λ a. Unit {0}) m
Ensures-any (ok a) = tt
Ensures-any fault = tt
Ensures-any stuck = tt
