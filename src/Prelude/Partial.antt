-- ===== src/Prelude/Partial.antt =====
-- What holds of the result of fallible code whenever there is one.
use hcmut_os_ossim_sierra.Prelude.{
  Bool, true, false, Option, none, some, ◌≡◌, refl, subst, ◌>>=◌, ◌>>◌, require, if◌then◌else◌,
}

abbrev pub Whenever {ℓ κ} : {A : Type ℓ} → (A → Type κ) → Option A → Type κ
Whenever P none = Unit
Whenever P (some a) = P a

pub Whenever-bind {ℓ μ κ} :
    {A : Type ℓ} {B : Type μ} (P : B → Type κ) (o : Option A) (f : A → Option B)
    → ((a : A) → o ≡ some a → Whenever P (f a))
    → Whenever P (o >>= f)
Whenever-bind P none f h = tt
Whenever-bind P (some a) f h = h a refl

pub Whenever-require {μ κ} :
    {B : Type μ} (P : B → Type κ) (b : Bool) (o : Option B)
    → (b ≡ true → Whenever P o)
    → Whenever P (require b >> o)
Whenever-require P true o h = h refl
Whenever-require P false o h = tt

pub Whenever-some {ℓ κ} :
    {A : Type ℓ} (P : A → Type κ) (o : Option A) {a : A} → o ≡ some a → Whenever P o → P a
Whenever-some P o e h = subst (Whenever P) e h

-- A property of a conditional, from its branches.
pub if_cases {ℓ κ} :
    {A : Type ℓ} (Q : A → Type κ) (b : Bool) (x y : A)
    → (b ≡ true → Q x)
    → (b ≡ false → Q y)
    → Q (if b then x else y)
if_cases Q true x y hx hy = hx refl
if_cases Q false x y hx hy = hy refl

-- Fallible code that has a result, with a property of it.
abbrev pub Gives {ℓ κ} : {A : Type ℓ} → (A → Type κ) → Option A → Type (ℓ ⊔ κ)
Gives {A} Q o = (a : A) × (o ≡ some a) × Q a

pub Gives-bind {ℓ μ κ ν} :
    {A : Type ℓ} {B : Type μ} (P : A → Type κ) (Q : B → Type ν) (o : Option A) (f : A → Option B)
    → Gives P o
    → ((a : A) → P a → Gives Q (f a))
    → Gives Q (o >>= f)
Gives-bind P Q o f (a, e, p) h = rw e (h a p)
