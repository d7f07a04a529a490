-- ===== src/Elevator/Invariant/Requesting.antt =====
-- The three system calls: what each returns, and that each keeps the invariant.
use cop4610_project.Base.{
  ℕ, zero, suc, ◌^◌, ◌≤◌, ◌<◌, ◌≡◌, refl, sym, subst, Bool, true, false, ◌==◌, Option, none, some,
  arith, Bool-cases, inl, inr, sub32,
}
use cop4610_project.Elevator.Types.{idle, Passenger, Store}
use cop4610_project.Elevator.Checks.{p_type_of}
use cop4610_project.Elevator.Thread.{is_offline}
use cop4610_project.Elevator.Requests.{
  out_of_range, refused, new_passenger, begin_request, finish_request, start_elevator,
  stop_elevator,
}
use cop4610_project.Elevator.Invariant.{IsKnown, StoreOk}
use cop4610_project.Elevator.Invariant.Control.{steer-StoreOk}
use cop4610_project.Elevator.Invariant.Arriving.{IsValid, arrived, allocated, add_pass-arrived}

-- The arguments of a request that is taken: a type from 1 to 4, floors from 1 to 10.
pub record InRange (p_type s_floor d_floor : ℕ) : Type 0 where
  pub type_low : 1 ≤ p_type
  pub type_high : p_type ≤ 4
  pub s_low : 1 ≤ s_floor
  pub s_high : s_floor ≤ 10
  pub d_low : 1 ≤ d_floor
  pub d_high : d_floor ≤ 10

-- The arguments are bit patterns of C's `int`.
pub record AreInts (p_type s_floor d_floor : ℕ) : Type 0 where
  pub type_int : p_type < 2 ^ 32
  pub s_int : s_floor < 2 ^ 32
  pub d_int : d_floor < 2 ^ 32

p_type_of-IsKnown : (n : ℕ) → n < 4 → IsKnown (p_type_of n)
unfolding p_type_of
p_type_of-IsKnown zero h = tt
p_type_of-IsKnown (suc zero) h = tt
p_type_of-IsKnown (suc (suc zero)) h = tt
p_type_of-IsKnown (suc (suc (suc zero))) h = tt
p_type_of-IsKnown (suc (suc (suc (suc n)))) h = absurd (omega arith)

out_of_range-false :
    (n high : ℕ) → n < 2 ^ 32 → high < 2 ^ 31 → out_of_range n high ≡ false → (1 ≤ n) × (n ≤ high)
out_of_range-false n high small h e = ground arith

out_of_range-within : (n high : ℕ) → high < 2 ^ 31 → 1 ≤ n → n ≤ high → out_of_range n high ≡ false
out_of_range-within n high h low le = ground arith

module _ (t s d : ℕ) (m : Store) where
  pub refused-false : AreInts t s d → refused m t s d ≡ false → InRange t s d × (m.b.e.shutdown ≡ 0)
  refused-false ints h = ground (
    arith,
    out_of_range-false t 4 ints.type_int (omega arith),
    out_of_range-false s 10 ints.s_int (omega arith),
    out_of_range-false d 10 ints.d_int (omega arith),
  )

  pub refused-true : refused m t s d ≡ true → ¬ (InRange t s d × (m.b.e.shutdown ≡ 0))
  refused-true h (range, open_doors) = ground (
    arith,
    out_of_range-within t 4 (omega arith) range.type_low range.type_high,
    out_of_range-within s 10 (omega arith) range.s_low range.s_high,
    out_of_range-within d 10 (omega arith) range.d_low range.d_high,
  )

-- Fresh blocks, as kmalloc gives them.
abbrev pub IsFresh : Store → Option ℕ → Type 0
IsFresh m block = (a : ℕ) → block ≡ some a → m.live a ≡ false

-- The outcomes of the part before the lock.
pub data Begun (m : Store) (block : Option ℕ) (t s d : ℕ)
    : Option (Store × Option Passenger) → Type 0 where
  turned_down : ¬ (InRange t s d × (m.b.e.shutdown ≡ 0)) → Begun m block t s d (some (m, none))
  crashed : InRange t s d → m.b.e.shutdown ≡ 0 → block ≡ none → Begun m block t s d none
  taken :
      {a : ℕ}
      → InRange t s d
      → m.b.e.shutdown ≡ 0
      → block ≡ some a
      → Begun m block t s d (some (allocated a m, some (new_passenger a t s d)))

pub new_passenger-IsValid : (a t s d : ℕ) → InRange t s d → IsValid (new_passenger a t s d)
new_passenger-IsValid a t s d r = record {
  known = p_type_of-IsKnown (sub32 t 1) (omega arith);
  start = omega arith;
  end = omega arith;
}

pub begin_request-refused :
    (m : Store) (block : Option ℕ) (t s d : ℕ)
    → refused m t s d ≡ true
    → begin_request block t s d m ≡ some (m, none)
unfolding begin_request
begin_request-refused m block t s d no_way = rw no_way

begin_request-admits :
    (m : Store) (block : Option ℕ) (t s d : ℕ)
    → InRange t s d
    → m.b.e.shutdown ≡ 0
    → refused m t s d ≡ false
    → Begun m block t s d (begin_request block t s d m)
unfolding begin_request
begin_request-admits m none t s d range going ok = rw ok (Begun.crashed range going refl)
begin_request-admits m (some a) t s d range going ok = rw ok (Begun.taken range going refl)

-- A request is turned down exactly if an argument is out of range or a shutdown was asked for.
pub begin_request-Begun :
    (m : Store) (block : Option ℕ) (t s d : ℕ)
    → AreInts t s d
    → Begun m block t s d (begin_request block t s d m)
begin_request-Begun m block t s d ints = elim (Bool-cases (refused m t s d)) [
  | inl no_way ↦
      subst (Begun m block t s d) (sym (begin_request-refused m block t s d no_way))
        (Begun.turned_down (refused-true t s d m no_way))
  | inr ok ↦
      let (range, going) = refused-false t s d m ints ok in
      begin_request-admits m block t s d range going ok
]

pub finish_request-arrived :
    (m : Store) (p : Passenger)
    → IsValid p
    → finish_request true p m ≡ some (record m { b = arrived p m.b })
unfolding finish_request
finish_request-arrived m p valid = rw (add_pass-arrived p m.b valid.known valid.start)

pub finish_request-interrupted : (m : Store) (p : Passenger) → finish_request false p m ≡ some m
unfolding finish_request
finish_request-interrupted m p = refl

pub start_elevator-StoreOk :
    {leaked : ℕ → ℕ} (m : Store) (acquired : Bool)
    → StoreOk leaked m
    → StoreOk leaked (start_elevator acquired m).0
unfolding start_elevator
start_elevator-StoreOk m false ok = ok
start_elevator-StoreOk m true ok = elim (Bool-cases (is_offline m.b.e.status)) [
  | inl off ↦ rw off (
      steer-StoreOk ok idle 0 1 0 m.b.e.direction (
        let old = ok.motion in
        record {
          current = omega arith;
          next = omega arith;
          heading = ground arith;
          shutdown = omega arith;
        }))
  | inr active ↦ rw active ok
]

pub stop_elevator-StoreOk :
    {leaked : ℕ → ℕ} (m : Store) (acquired : Bool)
    → StoreOk leaked m
    → StoreOk leaked (stop_elevator acquired m).0
unfolding stop_elevator
stop_elevator-StoreOk m false ok = ok
stop_elevator-StoreOk m true ok = elim (Bool-cases (m.b.e.shutdown == 0)) [
  | inl going ↦ rw going (
      steer-StoreOk ok m.b.e.status m.b.e.current m.b.e.next 1 m.b.e.direction (
        let old = ok.motion in
        record {
          current = old.current;
          next = old.next;
          heading = old.heading;
          shutdown = omega arith;
        }))
  | inr shut ↦ rw shut ok
]
