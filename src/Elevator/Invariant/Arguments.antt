-- ===== src/Elevator/Invariant/Arguments.antt =====
-- The arguments that issue_request accepts are one for one the passengers that it may make of them.
use std.HLevel.{Σ_prop_path}
use native.Mathlib.Bridge.{le_prop}
use std.Equiv.{IsEquiv, Iso, iso_to_equiv}
use cop4610_project.Base.{
  true, Option, none, some, update, ℕ, zero, suc, ◌+◌, ◌^◌, ◌≤◌, ◌<◌, ◌≡◌, refl, sym, ◌∙◌, false,
  arith, sub32, Bool-cases, inl, inr,
}
use cop4610_project.Elevator.Types.{PType, adult, child, room, bell, unknown, Passenger, Store}
use cop4610_project.Elevator.Checks.{p_type_of}
use cop4610_project.Elevator.Requests.{refused, new_passenger, begin_request}
use cop4610_project.Elevator.Invariant.{IsKnown}
use cop4610_project.Elevator.Invariant.Arriving.{IsValid}
use cop4610_project.Elevator.Invariant.Requesting.{
  InRange, AreInts, Begun, begin_request-Begun, refused-false, refused-true, new_passenger-IsValid,
}

pub record Arguments : Type 0 where
  pub p_type : ℕ
  pub s_floor : ℕ
  pub d_floor : ℕ

-- Three ints that issue_request does not turn down.
abbrev pub IsAccepted : Store → Arguments → Type 0
IsAccepted m x =
    AreInts x.p_type x.s_floor x.d_floor × (refused m x.p_type x.s_floor x.d_floor ≡ false)

abbrev pub Accepted : Store → Type 0
Accepted m = (x : Arguments) × IsAccepted m x

-- The passengers of a known type, between floors of the building, in the block at `a`.
abbrev pub PassengersAt : ℕ → Type 0
PassengersAt a = (p : Passenger) × ((p.node ≡ a) × IsValid p)

AreInts-prop : (t s d : ℕ) → IsProp (AreInts t s d)
AreInts-prop t s d = hlevel le_prop

IsKnown-prop : (k : PType) → IsProp (IsKnown k)
IsKnown-prop (unknown n) = hlevel
IsKnown-prop adult = hlevel
IsKnown-prop child = hlevel
IsKnown-prop room = hlevel
IsKnown-prop bell = hlevel

IsValid-prop : (p : Passenger) → IsProp (IsValid p)
IsValid-prop p = hlevel (IsKnown-prop p.kind, le_prop)

-- The number of a type, where adult is 1.
abbrev pub code : PType → ℕ
code adult = 1
code child = 2
code room = 3
code bell = 4
code (unknown n) = 0

-- The passenger that a request describes: in the block at `a`, with the type that has the number
-- `p_type`, between the floors that are `s_floor` and `d_floor` if they are counted from 1.
pub record IsMadeFor (p : Passenger) (a p_type s_floor d_floor : ℕ) : Type 0 where
  pub node : p.node ≡ a
  pub kind : code p.kind ≡ p_type
  pub start : p.s_floor + 1 ≡ s_floor
  pub end : p.d_floor + 1 ≡ d_floor

code-p_type_of : (n : ℕ) → n < 4 → code (p_type_of n) ≡ n + 1
unfolding p_type_of
code-p_type_of zero h = refl
code-p_type_of (suc zero) h = refl
code-p_type_of (suc (suc zero)) h = refl
code-p_type_of (suc (suc (suc zero))) h = refl
code-p_type_of (suc (suc (suc (suc n)))) h = absurd (omega (arith, h))

p_type_of-code : (k : PType) → IsKnown k → p_type_of (sub32 (code k) 1) ≡ k
unfolding p_type_of
p_type_of-code adult known = refl
p_type_of-code child known = refl
p_type_of-code room known = refl
p_type_of-code bell known = refl
p_type_of-code (unknown n) known = absurd known

code-bounds : (k : PType) → IsKnown k → (1 ≤ code k) × (code k ≤ 4)
code-bounds adult known = omega arith
code-bounds child known = omega arith
code-bounds room known = omega arith
code-bounds bell known = omega arith
code-bounds (unknown n) known = absurd known

sub32-one : (n : ℕ) → n < 2 ^ 31 → sub32 (n + 1) 1 ≡ n
sub32-one n h = omega (arith, h)

sub32-back : (n : ℕ) → 1 ≤ n → n ≤ 10 → sub32 n 1 + 1 ≡ n
sub32-back n low high = omega (arith, low, high)

-- The arguments that ask for a passenger.
abbrev arguments_of : Passenger → Arguments
arguments_of p = record { p_type = code p.kind; s_floor = p.s_floor + 1; d_floor = p.d_floor + 1 }

arguments_of-InRange :
    (p : Passenger) → IsValid p → InRange (code p.kind) (p.s_floor + 1) (p.d_floor + 1)
arguments_of-InRange p valid =
    let bounds = code-bounds p.kind valid.known in
    record {
      type_low = bounds.0;
      type_high = bounds.1;
      s_low = omega arith;
      s_high = omega (arith, valid.start);
      d_low = omega arith;
      d_high = omega (arith, valid.end);
    }

module _ (m : Store) (a : ℕ) where
  -- What issue_request makes of accepted arguments.
  abbrev pub passenger_of : Accepted m → PassengersAt a
  passenger_of (x, (ints, ok)) = (
    new_passenger a x.p_type x.s_floor x.d_floor,
    (
      refl,
      new_passenger-IsValid a x.p_type x.s_floor x.d_floor
          (refused-false x.p_type x.s_floor x.d_floor m ints ok).0,
    ),
  )

  same_passenger :
      (p : Passenger)
      → p.node ≡ a
      → IsValid p
      → new_passenger a (code p.kind) (p.s_floor + 1) (p.d_floor + 1) ≡ p
  same_passenger p at valid = λ i. record {
    node = sym at i;
    kind = p_type_of-code p.kind valid.known i;
    s_floor = sub32-one p.s_floor (omega (arith, valid.start)) i;
    d_floor = sub32-one p.d_floor (omega (arith, valid.end)) i;
  }

  same_arguments :
      (x : Arguments)
      → InRange x.p_type x.s_floor x.d_floor
      → arguments_of (new_passenger a x.p_type x.s_floor x.d_floor) ≡ x
  same_arguments x r =
      let back = sub32-back x.p_type r.type_low (omega (arith, r.type_high)) in
      λ i. record {
        p_type = (code-p_type_of (sub32 x.p_type 1) (omega (arith, back, r.type_high)) ∙ back) i;
        s_floor = sub32-back x.s_floor r.s_low r.s_high i;
        d_floor = sub32-back x.d_floor r.d_low r.d_high i;
      }

  -- The arguments of a valid passenger are accepted.
  asked_for : m.b.e.shutdown ≡ 0 → PassengersAt a → Accepted m
  asked_for going (p, (at, valid)) =
      let r = arguments_of-InRange p valid in
      (
        arguments_of p,
        (
          record {
            type_int = omega (arith, r.type_high);
            s_int = omega (arith, r.s_high);
            d_int = omega (arith, r.d_high);
          },
          elim (Bool-cases (refused m (code p.kind) (p.s_floor + 1) (p.d_floor + 1))) [
            | inl no_way ↦
                absurd
                  (refused-true (code p.kind) (p.s_floor + 1) (p.d_floor + 1) m no_way (r, going))
            | inr ok ↦ ok
          ],
        ),
      )

  IsAccepted-prop : (x : Arguments) → IsProp (IsAccepted m x)
  IsAccepted-prop x = hlevel (AreInts-prop x.p_type x.s_floor x.d_floor)

  IsPassengerAt-prop : (p : Passenger) → IsProp ((p.node ≡ a) × IsValid p)
  IsPassengerAt-prop p = hlevel (IsValid-prop p)

  -- While no shutdown is asked for, issue_request makes of the argument triples that it does not turn
  -- down, one for one, all passengers of a known type between floors of the building: every such
  -- passenger can be asked for, and by one triple only.
  pub passenger_of-IsEquiv : m.b.e.shutdown ≡ 0 → IsEquiv passenger_of
  unfolding asked_for
  passenger_of-IsEquiv going =
      let one_for_one : Iso (Accepted m) (PassengersAt a) = record {
        fun = passenger_of;
        inv = asked_for going;
        rinv = λ q. Σ_prop_path IsPassengerAt-prop (same_passenger q.0 q.1.0 q.1.1);
        linv = λ x.
            Σ_prop_path IsAccepted-prop (
              same_arguments x.0
                (refused-false x.0.p_type x.0.s_floor x.0.d_floor m x.1.0 x.1.1).0);
      } in
      (iso_to_equiv one_for_one).1

-- issue_request makes the passenger that it was asked for.
pub new_passenger-IsMadeFor :
    (a t s d : ℕ) → InRange t s d → IsMadeFor (new_passenger a t s d) a t s d
new_passenger-IsMadeFor a t s d r =
    let x : Arguments = record { p_type = t; s_floor = s; d_floor = d } in
    let back = sub32-back t r.type_low (omega (arith, r.type_high)) in
    record {
      node = refl;
      kind = code-p_type_of (sub32 t 1) (omega (arith, back, r.type_high)) ∙ back;
      start = sub32-back s r.s_low r.s_high;
      end = sub32-back d r.d_low r.d_high;
    }

-- How issue_request ends before it takes the lock.
pub data Answered (m : Store) (block : Option ℕ) (t s d : ℕ)
    : Option (Store × Option Passenger) → Type 0 where
  turned_down : ¬ (InRange t s d × (m.b.e.shutdown ≡ 0)) → Answered m block t s d (some (m, none))
  crashed : InRange t s d → m.b.e.shutdown ≡ 0 → block ≡ none → Answered m block t s d none
  taken :
      {a : ℕ} {p : Passenger}
      → InRange t s d
      → m.b.e.shutdown ≡ 0
      → block ≡ some a
      → IsMadeFor p a t s d
      → Answered m block t s d (some (record m { live = update m.live a true }, some p))

Begun-Answered :
    {m : Store} {block : Option ℕ} {t s d : ℕ} {o : Option (Store × Option Passenger)}
    → Begun m block t s d o
    → Answered m block t s d o
Begun-Answered (Begun.turned_down no_way) = Answered.turned_down no_way
Begun-Answered (Begun.crashed range going null) = Answered.crashed range going null
Begun-Answered {t = t} {s = s} {d = d} (Begun.taken {a} range going got) =
    Answered.taken range going got (new_passenger-IsMadeFor a t s d range)

-- The part of issue_request before the lock, for arguments that are ints: it returns without a
-- passenger exactly if an argument is out of range or a shutdown was asked for, and changes nothing;
-- otherwise it faults if kmalloc returned NULL, and else allocates the block and makes in it a
-- passenger of the type with the number p_type (adult 1, child 2, room service 3, bell hop 4), from
-- the floor s_floor to the floor d_floor, which it counts from 0.
pub begin_request-Answered :
    (m : Store) (block : Option ℕ) (t s d : ℕ)
    → AreInts t s d
    → Answered m block t s d (begin_request block t s d m)
begin_request-Answered m block t s d ints = Begun-Answered (begin_request-Begun m block t s d ints)
