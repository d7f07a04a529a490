-- ===== src/Elevator/Service/Crowds.antt =====
-- Passengers without an order: lists up to the sums of every measure of their members.
use mathlib.Core.Quot
use mathlib.Core.Quot.{Quot, Quot-set}
use native.Mathlib.Nat.{ℕ_set}
use cop4610_project.Base.{
  ℕ, zero, suc, ◌+◌, ◌≡◌, refl, List, [], ◌∷◌, ◌++◌, arith, tally, tally-cons, tally-append,
  sum_below,
}
use cop4610_project.Elevator.Types.{Passenger}

abbrev pub SamePeople : List Passenger → List Passenger → Type 0
SamePeople xs ys = (g : Passenger → ℕ) → tally g xs ≡ tally g ys

abbrev pub Crowd : Type 0
Crowd = Quot SamePeople

abbrev pub crowd_of : List Passenger → Crowd
crowd_of = Quot.mk

abbrev pub nobody : Crowd
nobody = crowd_of []

unfoldable pub put : Passenger → Crowd → Crowd
put p =
    Quot.lift Quot-set (λ xs. crowd_of (p ∷ xs))
      (λ xs ys h. Quot.sound (λ g. omega (arith, h g, tally-cons g p xs, tally-cons g p ys)))

-- The sum of a measure over a crowd.
unfoldable pub total : (Passenger → ℕ) → Crowd → ℕ
total g = Quot.lift ℕ_set (tally g) (λ xs ys h. h g)

pub total-put :
    (g : Passenger → ℕ) (p : Passenger) (c : Crowd) → total g (put p c) ≡ g p + total g c
unfolding total put tally
total-put g p = Quot.ind (λ c. ℕ_set _ _) (λ xs. refl)

pub total-crowd_of : (g : Passenger → ℕ) (l : List Passenger) → total g (crowd_of l) ≡ tally g l
unfolding total
total-crowd_of g l = refl

-- The measures tell crowds apart.
pub crowd_ext : (c d : Crowd) → ((g : Passenger → ℕ) → total g c ≡ total g d) → c ≡ d
unfolding total
crowd_ext =
    Quot.ind (λ c. hlevel Quot-set) (λ xs. Quot.ind (λ d. hlevel Quot-set) (λ ys h. Quot.sound h))

-- Everybody in the first `n` of a family of lists.
pub gather : ℕ → (ℕ → List Passenger) → List Passenger
gather zero q = []
gather (suc n) q = gather n q ++ q n

pub tally-gather :
    (n : ℕ) (g : Passenger → ℕ) (q : ℕ → List Passenger)
    → tally g (gather n q) ≡ sum_below n (λ i. tally g (q i))
unfolding gather sum_below tally
tally-gather zero g q = refl
tally-gather (suc n) g q = omega (arith, tally-append g (gather n q) (q n), tally-gather n g q)
