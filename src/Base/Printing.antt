-- ===== src/Base/Printing.antt =====
-- Texts as lists of character codes, and the conversions of sprintf that the program uses.
use Prim.Native.Nat.{ℕ, zero, suc, ◌+◌, ◌-◌, ◌*◌, ◌/◌, ◌%◌, ◌^◌, ◌≤◌, ◌<◌}
use Prim.Native.Char.{code}
use Prim.Native.String.{String}
use mathlib.Core.Path.{◌≡◌, refl}
use mathlib.Core.List.{List, [], ◌∷◌, ◌++◌}
use mathlib.Core.Bool.{true}
use mathlib.Core.Logic.{inl, inr}
use native.Mathlib.Nat.{pow-suc}
use native.Mathlib.Omega.{arith}
use cop4610_project.Base.Tests.{ltb, Bool-cases, if◌then◌else◌}

abbrev pub Text : Type 0
Text = List ℕ

abbrev pub codes : String → Text
codes String.[] = []
codes (String.◌∷◌ c s) = code c ∷ codes s

module _ {ℓ} {A : Type ℓ} where
  abbrev pub length : List A → ℕ
  length [] = 0
  length (x ∷ xs) = suc (length xs)

  pub length-append : (xs ys : List A) → length (xs ++ ys) ≡ length xs + length ys
  length-append [] ys = omega arith
  length-append (x ∷ xs) ys = omega (arith, length-append xs ys)

-- The decimal digits of a number below 10 ^ `places`.
unfoldable pub decimal : (places : ℕ) → ℕ → Text
decimal zero n = []
decimal (suc f) n =
    let front = decimal f (n / 10) in
    if ltb n 10 then (48 + n) ∷ [] else front ++ (48 + n % 10) ∷ []

-- `%lu`: an unsigned long
unfoldable pub show_ulong : ℕ → Text
unfolding decimal
show_ulong n = decimal 20 n

-- `%d`: the signed value of a bit pattern
unfoldable pub show_int : ℕ → Text
unfolding decimal
show_int n = if ltb n (2 ^ 31) then decimal 10 n else 45 ∷ decimal 10 (2 ^ 32 - n)

-- The number that a row of digits stands for.
unfoldable pub value : ℕ → Text → ℕ
value acc [] = acc
value acc (d ∷ ds) = value (acc * 10 + (d - 48)) ds

value_snoc : (acc : ℕ) (ds : Text) (d : ℕ) → value acc (ds ++ d ∷ []) ≡ value acc ds * 10 + (d - 48)
unfolding value
value_snoc acc [] d = refl
value_snoc acc (x ∷ ds) d = value_snoc (acc * 10 + (x - 48)) ds d

pub value-decimal : (f n : ℕ) → n < 10 ^ f → value 0 (decimal f n) ≡ n
unfolding decimal value
value-decimal zero n h = omega arith
value-decimal (suc f) n h = elim (Bool-cases (ltb n 10)) [
  | inl small ↦ rw small (omega arith)
  | inr big ↦
      rw (big, value_snoc 0 (decimal f (n / 10)) (48 + n % 10))
        (omega (arith, value-decimal f (n / 10) (omega (arith, pow-suc 10 f))))
]

pub length-decimal : (f n : ℕ) → length (decimal f n) ≤ f
unfolding decimal
length-decimal zero n = omega arith
length-decimal (suc f) n = elim (Bool-cases (ltb n 10)) [
  | inl small ↦ rw small (omega arith)
  | inr big ↦ rw big (
      omega
        (arith, length-append (decimal f (n / 10)) ((48 + n % 10) ∷ []), length-decimal f (n / 10)))
]

pub length-show_int : (n : ℕ) → length (show_int n) ≤ 11
unfolding show_int
length-show_int n = elim (Bool-cases (ltb n (2 ^ 31))) [
  | inl small ↦ rw small (omega (arith, length-decimal 10 n))
  | inr big ↦ rw big (omega (arith, length-decimal 10 (2 ^ 32 - n)))
]

-- A number below 10 ^ (k + 1) takes at most k + 1 digits.
pub length-decimal_small : (k f n : ℕ) → n < 10 ^ suc k → length (decimal f n) ≤ suc k
unfolding decimal
length-decimal_small k zero n h = omega arith
length-decimal_small zero (suc f) n h =
    let small : ltb n 10 ≡ true = ground arith in rw small (omega arith)
length-decimal_small (suc k) (suc f) n h = elim (Bool-cases (ltb n 10)) [
  | inl small ↦ rw small (omega arith)
  | inr big ↦ rw big (
      omega (
        arith,
        length-append (decimal f (n / 10)) ((48 + n % 10) ∷ []),
        length-decimal_small k f (n / 10) (omega (arith, pow-suc 10 (suc k))),
      ))
]
