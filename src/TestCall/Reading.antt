-- ===== src/TestCall/Reading.antt =====
-- atoi on the texts that sprintf makes of an int.
use cop4610_project.Base.{
  ℕ, zero, suc, ◌+◌, ◌-◌, ◌*◌, ◌/◌, ◌%◌, ◌^◌, ◌≤◌, ◌<◌, ◌≡◌, refl, ap, ◌∙◌, true, false, ltb, ◌==◌,
  [], ◌∷◌, arith, Text, All, All_snoc, Bool-cases, inl, inr, decimal, show_int, value,
  value-decimal,
}
use cop4610_project.TestCall.{is_digit, is_space, leading, atoi}

abbrev IsDigit : ℕ → Type 0
IsDigit c = is_digit c ≡ true

decimal-IsDigit : (f n : ℕ) → All IsDigit (decimal f n)
unfolding decimal
decimal-IsDigit zero n = tt
decimal-IsDigit (suc f) n = elim (Bool-cases (ltb n 10)) [
  | inl small ↦ rw small (ground arith, tt)
  | inr big ↦ rw big (
      All_snoc IsDigit (decimal f (n / 10)) (48 + n % 10) (decimal-IsDigit f (n / 10))
        (ground arith))
]

leading-value : (n : ℕ) (l : Text) → All IsDigit l → leading n l ≡ value n l
unfolding leading value
leading-value n [] all = refl
leading-value n (c ∷ cs) (digit, all) = rw digit (leading-value (n * 10 + (c - 48)) cs all)

leading-decimal : (f n : ℕ) → n < 10 ^ f → leading 0 (decimal f n) ≡ n
leading-decimal f n h = leading-value 0 (decimal f n) (decimal-IsDigit f n) ∙ value-decimal f n h

-- A text of digits is read from its first character on.
atoi-digits : (l : Text) → All IsDigit l → leading 0 l < 2 ^ 32 → atoi l ≡ leading 0 l
unfolding atoi
atoi-digits [] all small = atoi_empty
  where
    atoi_empty : 0 ≡ leading 0 []
    atoi_empty = refl
atoi-digits (c ∷ cs) (digit, all) small =
    let no_space : is_space c ≡ false = ground (arith, digit) in
    let no_minus : (c == 45) ≡ false = ground (arith, digit) in
    let no_plus : (c == 43) ≡ false = ground (arith, digit) in
    rw (no_space, no_minus, no_plus) (omega (arith, small))

atoi_minus : (l : Text) → atoi (45 ∷ l) ≡ (2 ^ 32 - leading 0 l % 2 ^ 32) % 2 ^ 32
unfolding atoi
atoi_minus l = refl

show_small : (n : ℕ) → ltb n (2 ^ 31) ≡ true → show_int n ≡ decimal 10 n
unfolding show_int
show_small n h = rw h

show_big : (n : ℕ) → ltb n (2 ^ 31) ≡ false → show_int n ≡ 45 ∷ decimal 10 (2 ^ 32 - n)
unfolding show_int
show_big n h = rw h

-- atoi reads what sprintf printed, for every int.
pub atoi-show_int : (n : ℕ) → n < 2 ^ 32 → atoi (show_int n) ≡ n
atoi-show_int n h = elim (Bool-cases (ltb n (2 ^ 31))) [
  | inl small ↦
      let read : leading 0 (decimal 10 n) ≡ n = leading-decimal 10 n (omega arith) in
      ap atoi (show_small n small)
      ∙ atoi-digits (decimal 10 n) (decimal-IsDigit 10 n) (omega (arith, read))
      ∙ read
  | inr big ↦
      let positive : 2 ^ 31 ≤ n = ground (arith, big) in
      let read : leading 0 (decimal 10 (2 ^ 32 - n)) ≡ 2 ^ 32 - n =
        leading-decimal 10 (2 ^ 32 - n) (omega arith) in
      ap atoi (show_big n big) ∙ atoi_minus (decimal 10 (2 ^ 32 - n)) ∙ omega (arith, read)
]
