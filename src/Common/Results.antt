-- ===== src/Common/Results.antt =====
-- Results of code that follows pointers: a value, or the memory fault that C leaves undefined.
use mathlib.Core.Path.{◌≡◌, refl, subst}
use mathlib.Core.Logic.{◌⊎◌, inl, inr}
use mathlib.Core.Option.{Option, none, some}

-- `overread`: a read beyond the memory that the caller passed. `overflow`: a write beyond a buffer.
-- `no_fuel` stands for a loop that has not ended.
pub data Fault : Type 0 where
  overread overflow no_fuel : Fault

pub data Outcome {ℓ} (A : Type ℓ) : Type ℓ where
  ok : A → Outcome A
  err : Fault → Outcome A

infixl 5 ◌>>=◌
abbrev pub ◌>>=◌ {ℓ κ} : {A : Type ℓ} {B : Type κ} → Outcome A → (A → Outcome B) → Outcome B
ok a >>= f = f a
err e >>= f = err e

-- A read through a pointer.
abbrev pub or_overread {ℓ} : {A : Type ℓ} → Option A → Outcome A
or_overread none = err overread
or_overread (some a) = ok a

-- What a sequence returns comes from its second part, on what the first part returned.
pub bind_returns {ℓ κ} :
    {A : Type ℓ} {B : Type κ} (first : Outcome A) (next : A → Outcome B) {r : B}
    → (first >>= next) ≡ ok r
    → (a : A) × (first ≡ ok a) × (next a ≡ ok r)
bind_returns (err why) next e = cc
bind_returns (ok a) next e = (a, refl, e)

pub Outcome-cases {ℓ} :
    {A : Type ℓ} (m : Outcome A) → ((a : A) × (m ≡ ok a)) ⊎ ((why : Fault) × (m ≡ err why))
Outcome-cases (ok a) = inl (a, refl)
Outcome-cases (err why) = inr (why, refl)

-- A sequence fails in its first part, or in its second.
pub bind_fails {ℓ κ} :
    {A : Type ℓ} {B : Type κ} (m : Outcome A) (f : A → Outcome B) {why : Fault}
    → (m >>= f) ≡ err why
    → (m ≡ err why) ⊎ ((a : A) × (m ≡ ok a) × (f a ≡ err why))
bind_fails (ok a) f h = inr (a, refl, h)
bind_fails (err e) f h = inl cc

-- What is returned, if anything is, meets `P`.
pub data Ensures {A : Type 0} (P : A → Type 0) : Outcome A → Type 0 where
  returns : (a : A) → P a → Ensures P (ok a)
  faults : (why : Fault) → Ensures P (err why)

pub Ensures-bind :
    {A B : Type 0} {P : B → Type 0} (m : Outcome A) (next : A → Outcome B)
    → ((a : A) → m ≡ ok a → Ensures P (next a))
    → Ensures P (m >>= next)
Ensures-bind (ok a) next h = h a refl
Ensures-bind (err why) next h = faults why

pub Ensures-ok :
    {A : Type 0} {P : A → Type 0} {m : Outcome A} {r : A} → Ensures P m → m ≡ ok r → P r
Ensures-ok {P = P} {r = r} (returns a p) e = let same : a ≡ r = cc in subst P same p
Ensures-ok (faults why) e = absurd (cc)

-- A weaker predicate holds as well.
pub Ensures-map :
    {A : Type 0} {P Q : A → Type 0} (m : Outcome A)
    → ((a : A) → P a → Q a)
    → Ensures P m
    → Ensures Q m
Ensures-map (ok a) f (returns b p) = returns a (f a p)
Ensures-map (err why) f (faults w) = faults why
