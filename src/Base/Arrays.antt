-- ===== src/Base/Arrays.antt =====
-- The arrays of ten floors: a function on the indices, read and written within the bounds only.
use Prim.Native.Nat.{ℕ, zero, suc, ◌+◌, ◌<◌, ◌≤◌}
use mathlib.Core.Path.{◌≡◌, refl, sym, ap, subst, fun_ext, ◌∙◌}
use mathlib.Core.Logic.{◌≢◌}
use mathlib.Core.Option.{Option, none, some}
use native.Mathlib.Decide.{dec_lt, ℕ_discrete}
use native.Mathlib.Omega.{arith}
use cop4610_project.Base.Tests.{ltb, ◌==◌, if◌then◌else◌}

abbrev pub max_floor : ℕ
max_floor = 10

-- `a[i]`
abbrev pub get_elem? {ℓ} : {A : Type ℓ} → (ℕ → A) → ℕ → Option A
get_elem? a i = if ltb i max_floor then some (a i) else none

-- `a[i] = x`, at an index within the bounds
abbrev pub update {ℓ} : {A : Type ℓ} → (ℕ → A) → ℕ → A → ℕ → A
update a i x j = if j == i then x else a j

pub get_elem?-lt {ℓ} : {A : Type ℓ} (a : ℕ → A) (i : ℕ) → i < 10 → get_elem? a i ≡ some (a i)
get_elem?-lt a i h = ground arith

pub update_self {ℓ} : {A : Type ℓ} (a : ℕ → A) (i : ℕ) (x : A) → update a i x i ≡ x
update_self a i x = ground arith

pub update_other {ℓ} :
    {A : Type ℓ} (a : ℕ → A) (i : ℕ) (x : A) (j : ℕ) → j ≢ i → update a i x j ≡ a j
update_other a i x j h = ground arith

-- The sum of `g` over the indices below `n`.
unfoldable pub sum_below : ℕ → (ℕ → ℕ) → ℕ
sum_below zero g = 0
sum_below (suc n) g = sum_below n g + g n

pub sum_below-congr :
    (n : ℕ) (g h : ℕ → ℕ) → ((i : ℕ) → i < n → g i ≡ h i) → sum_below n g ≡ sum_below n h
unfolding sum_below
sum_below-congr zero g h e = refl
sum_below-congr (suc n) g h e =
    omega (arith, e n (omega arith), sum_below-congr n g h (λ i lt. e i (omega arith)))

pub sum_below_add :
    (n : ℕ) (g h : ℕ → ℕ) → sum_below n (λ i. g i + h i) ≡ sum_below n g + sum_below n h
unfolding sum_below
sum_below_add zero g h = refl
sum_below_add (suc n) g h = omega (arith, sum_below_add n g h)

-- Two families that differ at one index have sums that differ as much.
pub sum_below-change :
    (n : ℕ) (g h : ℕ → ℕ) (c : ℕ)
    → c < n
    → ((i : ℕ) → i < n → i ≢ c → g i ≡ h i)
    → sum_below n g + h c ≡ sum_below n h + g c
unfolding sum_below
sum_below-change zero g h c lt e = absurd (omega arith)
sum_below-change (suc n) g h c lt e = elim (dec_lt c n) [
  | yes below ↦ omega (
    arith,
    e n (omega arith) (omega arith),
    sum_below-change n g h c below (λ i li. e i (omega arith)),
  )
  | no beyond ↦
      let last : c ≡ n = omega arith in
      rw last (omega (arith, sum_below-congr n g h (λ i li. e i (omega arith) (omega arith))))
]

pub elem-le-sum_below : (n : ℕ) (g : ℕ → ℕ) (i : ℕ) → i < n → g i ≤ sum_below n g
unfolding sum_below
elem-le-sum_below zero g i lt = absurd (omega arith)
elem-le-sum_below (suc n) g i lt = elim (dec_lt i n) [
  | yes below ↦ omega (arith, elem-le-sum_below n g i below)
  | no beyond ↦ let last : i ≡ n = omega arith in rw last (omega arith)
]

-- Two indices hold no more than the whole.
pub two-le-sum_below :
    (n : ℕ) (g : ℕ → ℕ) (c i : ℕ) → c < n → i < n → i ≢ c → g c + g i ≤ sum_below n g
unfolding sum_below
two-le-sum_below zero g c i lc li ne = absurd (omega arith)
two-le-sum_below (suc n) g c i lc li ne = elim (dec_lt c n) [
  | yes below ↦ elim (dec_lt i n) [
    | yes low ↦ omega (arith, two-le-sum_below n g c i below low ne)
    | no beyond ↦
        let last : i ≡ n = omega arith in rw last (omega (arith, elem-le-sum_below n g c below))
  ]
  | no beyond ↦
      let last : c ≡ n = omega arith in
      rw last (omega (arith, elem-le-sum_below n g i (omega arith)))
]

-- One write changes the sum by what it changes at its index.
pub sum_below-update {ℓ} :
    {A : Type ℓ} (n : ℕ) (φ : A → ℕ) (a : ℕ → A) (c : ℕ) (x : A)
    → c < n
    → sum_below n (λ i. φ (update a c x i)) + φ (a c) ≡ sum_below n (λ i. φ (a i)) + φ x
sum_below-update n φ a c x lt = omega (
  arith,
  sum_below-change n (λ i. φ (update a c x i)) (λ i. φ (a i)) c lt
      (λ i li ne. ap φ (update_other a c x i ne)),
  ap φ (update_self a c x),
)

pub sum_below_mono : (n : ℕ) (g h : ℕ → ℕ) → ((i : ℕ) → g i ≤ h i) → sum_below n g ≤ sum_below n h
unfolding sum_below
sum_below_mono zero g h e = omega arith
sum_below_mono (suc n) g h e = omega (arith, e n, sum_below_mono n g h e)

-- What holds of the new element and of the other elements holds after the write.
pub update_each {ℓ κ} :
    {A : Type ℓ} (P : ℕ → A → Type κ) (a : ℕ → A) (c : ℕ) (x : A)
    → P c x
    → (i : ℕ) → (i ≢ c → P i (a i))
    → P i (update a c x i)
update_each P a c x new i old = elim (ℕ_discrete i c) [
  | yes e ↦ subst (λ k. P k (update a c x k)) (sym e) (subst (P c) (sym (update_self a c x)) new)
  | no ne ↦ subst (P i) (sym (update_other a c x i ne)) (old ne)
]

pub update_twice {ℓ} :
    {A : Type ℓ} (a : ℕ → A) (c : ℕ) (x y : A) → update (update a c x) c y ≡ update a c y
update_twice a c x y = fun_ext λ i.
    update_each (λ j z. z ≡ update a c y j) (update a c x) c y (sym (update_self a c y)) i
      (λ ne. update_other a c x i ne ∙ sym (update_other a c y i ne))
