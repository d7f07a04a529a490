-- ===== src/Base/Faults.antt =====
-- Results of steps that may fault: `none` is a fault.
use mathlib.Core.Path.{◌≡◌, refl, subst}
use mathlib.Core.Bool.{Bool, true, false}
use mathlib.Core.Option.{Option, none, some}
use cop4610_project.Base.Tests.{◌>>=◌, if◌then◌else◌}

-- Inversion of a step that did not fault.
pub bind_some {ℓ κ} :
    {A : Type ℓ} {B : Type κ} (o : Option A) (f : A → Option B) {y : B}
    → (o >>= f) ≡ some y
    → (x : A) × (o ≡ some x) × (f x ≡ some y)
bind_some none f h = cc
bind_some (some x) f h = (x, refl, h)

-- A fact of the result, where there is one.
abbrev pub Ensures {ℓ κ} : {A : Type ℓ} → Option A → (A → Type κ) → Type κ
Ensures none P = Unit
Ensures (some x) P = P x

pub ensures_if {ℓ κ} :
    {A : Type ℓ} (P : A → Type κ) (test : Bool) (x y : Option A)
    → Ensures x P
    → Ensures y P
    → Ensures (if test then x else y) P
ensures_if P true x y hx hy = hx
ensures_if P false x y hx hy = hy

pub ensures_bind {ℓ κ μ} :
    {A : Type ℓ} {B : Type κ} (P : B → Type μ) (o : Option A) (f : A → Option B)
    → ((x : A) → o ≡ some x → Ensures (f x) P)
    → Ensures (o >>= f) P
ensures_bind P none f h = tt
ensures_bind P (some x) f h = h x refl

pub ensured {ℓ κ} :
    {A : Type ℓ} (P : A → Type κ) {o : Option A} {x : A} → Ensures o P → o ≡ some x → P x
ensured P h e = subst (λ o. Ensures o P) e h
