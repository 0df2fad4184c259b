-- ===== src/Startup.antt =====
-- How the program starts and ends: the options of its command line and of its configuration files, the opening
-- of the interfaces, and main of src/main.c.
pub mod Arguments
pub mod Files
pub mod Valid
pub mod Open
pub mod Main
pub mod Pcap
pub mod Listening
pub mod Ready
pub mod Life
pub mod First
pub mod Pfring
use impd4e.Common.{ℤ, Fault, Outcome, ok, err, Option, none, some, ◌≡◌, refl}

-- The program goes on with a value, ends by exit, or does what C leaves undefined.
pub data Program {ℓ} (A : Type ℓ) : Type ℓ where
  goes_on : A → Program A
  exits : ℤ → Program A
  crashes : Fault → Program A

infixl 5 ◌>>=◌
abbrev pub ◌>>=◌ {ℓ κ} : {A : Type ℓ} {B : Type κ} → Program A → (A → Program B) → Program B
goes_on a >>= f = f a
exits code >>= f = exits code
crashes why >>= f = crashes why

abbrev pub of_outcome {ℓ} : {A : Type ℓ} → Outcome A → Program A
of_outcome (ok a) = goes_on a
of_outcome (err why) = crashes why

-- Where the program goes on, its state meets `P`.
pub data Meets {A : Type 0} (P : A → Type 0) : Program A → Type 0 where
  meets : (a : A) → P a → Meets P (goes_on a)
  ended : (code : ℤ) → Meets P (exits code)
  crashed : (why : Fault) → Meets P (crashes why)

pub Meets-bind :
    {A B : Type 0} {P : A → Type 0} {Q : B → Type 0} (m : Program A) (next : A → Program B)
    → Meets P m
    → ((a : A) → P a → Meets Q (next a))
    → Meets Q (m >>= next)
Meets-bind (goes_on a) next (meets b p) h = h a p
Meets-bind (exits code) next m h = ended code
Meets-bind (crashes why) next m h = crashed why

pub bind_same {ℓ κ} :
    {A : Type ℓ} {B : Type κ} (m : Program A) (f g : A → Program B)
    → ((a : A) → f a ≡ g a)
    → (m >>= f) ≡ (m >>= g)
bind_same (goes_on a) f g h = h a
bind_same (exits code) f g h = refl
bind_same (crashes why) f g h = refl

pub Meets-map :
    {A : Type 0} {P Q : A → Type 0} (m : Program A) → ((a : A) → P a → Q a) → Meets P m → Meets Q m
Meets-map (goes_on a) f (meets b p) = meets a (f a p)
Meets-map (exits code) f (ended c) = ended code
Meets-map (crashes why) f (crashed w) = crashed why
