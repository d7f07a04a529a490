-- ===== src/Base/Queues.antt =====
-- Lists as queues: predicates, sums and membership by address.
use Prim.Native.Nat.{ℕ, ◌+◌, ◌≤◌}
use mathlib.Core.Path.{◌≡◌, refl}
use cop4610_project.Base.Tests.{◌==◌, if◌then◌else◌}
use mathlib.Core.Bool.{Bool, true, false}
use mathlib.Core.List.{List, [], ◌∷◌, ◌++◌}
use native.Mathlib.Omega.{arith}

abbrev pub All {ℓ κ} : {A : Type ℓ} → (A → Type κ) → List A → Type κ
All P [] = Unit
All P (x ∷ xs) = P x × All P xs

abbrev pub is_empty {ℓ} : {A : Type ℓ} → List A → Bool
is_empty [] = true
is_empty (x ∷ xs) = false

-- The sum of `g` over a list.
unfoldable pub tally {ℓ} : {A : Type ℓ} → (A → ℕ) → List A → ℕ
tally g [] = 0
tally g (x ∷ xs) = g x + tally g xs

pub tally-append {ℓ} :
    {A : Type ℓ} (g : A → ℕ) (xs ys : List A) → tally g (xs ++ ys) ≡ tally g xs + tally g ys
unfolding tally
tally-append g [] ys = omega arith
tally-append g (x ∷ xs) ys = omega (arith, tally-append g xs ys)

pub tally_snoc {ℓ} :
    {A : Type ℓ} (g : A → ℕ) (xs : List A) (y : A) → tally g (xs ++ y ∷ []) ≡ tally g xs + g y
unfolding tally
tally_snoc g xs y = omega (arith, tally-append g xs (y ∷ []))

pub All_snoc {ℓ κ} :
    {A : Type ℓ} (P : A → Type κ) (xs : List A) (y : A) → All P xs → P y → All P (xs ++ y ∷ [])
All_snoc P [] y h hy = (hy, tt)
All_snoc P (x ∷ xs) y h hy = (h.0, All_snoc P xs y h.1 hy)

-- A list that holds one element between two others, and what is left without it.
pub All_middle {ℓ κ} :
    {A : Type ℓ} (P : A → Type κ) (xs : List A) (y : A) (zs : List A)
    → All P (xs ++ y ∷ zs)
    → P y × All P (xs ++ zs)
All_middle P [] y zs h = h
All_middle P (x ∷ xs) y zs h = let (hy, rest) = All_middle P xs y zs h.1 in (hy, (h.0, rest))

module _ {ℓ} {A : Type ℓ} (address : A → ℕ) where
  -- How often the node at `a` stands in a list.
  unfoldable pub occurs : ℕ → List A → ℕ
  occurs a [] = 0
  occurs a (x ∷ xs) = (if address x == a then 1 else 0) + occurs a xs

  pub occurs-append : (a : ℕ) (xs ys : List A) → occurs a (xs ++ ys) ≡ occurs a xs + occurs a ys
  unfolding occurs
  occurs-append a [] ys = omega arith
  occurs-append a (x ∷ xs) ys = omega (arith, occurs-append a xs ys)

  -- The list without the node at `a`.
  unfoldable pub without : ℕ → List A → List A
  without a [] = []
  without a (x ∷ xs) = if address x == a then without a xs else x ∷ without a xs

  pub occurs_snoc :
      (a : ℕ) (xs : List A) (y : A)
      → occurs a (xs ++ y ∷ []) ≡ occurs a xs + (if address y == a then 1 else 0)
  unfolding occurs
  occurs_snoc a [] y = omega arith
  occurs_snoc a (x ∷ xs) y = omega (arith, occurs_snoc a xs y)

  pub without_absent : (a : ℕ) (xs : List A) → occurs a xs ≡ 0 → without a xs ≡ xs
  unfolding occurs without
  without_absent a [] h = refl
  without_absent a (x ∷ xs) h = ground (arith, without_absent a xs)

  pub without_head :
      (x : A) (xs : List A) → occurs (address x) xs ≡ 0 → without (address x) (x ∷ xs) ≡ xs
  unfolding without
  without_head x xs h = ground (arith, without_absent (address x) xs)

pub tally_mono {ℓ} :
    {A : Type ℓ} (g h : A → ℕ) (xs : List A) → ((x : A) → g x ≤ h x) → tally g xs ≤ tally h xs
unfolding tally
tally_mono g h [] e = omega arith
tally_mono g h (x ∷ xs) e = omega (arith, e x, tally_mono g h xs e)

pub tally-cons {ℓ} :
    {A : Type ℓ} (g : A → ℕ) (x : A) (xs : List A) → tally g (x ∷ xs) ≡ g x + tally g xs
unfolding tally
tally-cons g x xs = refl

pub occurs-cons {ℓ} :
    {A : Type ℓ} (address : A → ℕ) (a : ℕ) (x : A) (xs : List A)
    → occurs address a (x ∷ xs) ≡ (if address x == a then 1 else 0) + occurs address a xs
unfolding occurs
occurs-cons address a x xs = refl
