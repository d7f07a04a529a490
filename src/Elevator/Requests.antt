-- ===== src/Elevator/Requests.antt =====
-- part3/elevator/elevator.c: issue_request, start_elevator and stop_elevator. Each returns the new
-- store and the value of the call; `none` is a fault.
use cop4610_project.Base.{
  ℕ, Bool, true, not, ◌||◌, ◌==◌, if◌then◌else◌, Option, none, some, sub32, signed_ltb, update,
  ◌>>=◌,
}
use cop4610_project.Elevator.Types.{idle, Passenger, Store}
use cop4610_project.Elevator.Building.{add_pass}
use cop4610_project.Elevator.Checks.{p_type_of}
use cop4610_project.Elevator.Thread.{is_offline}

abbrev pub out_of_range : ℕ → ℕ → Bool
out_of_range n high = signed_ltb n 1 || signed_ltb high n

abbrev pub refused : Store → ℕ → ℕ → ℕ → Bool
refused m p_type s_floor d_floor =
    out_of_range p_type 4
    || out_of_range s_floor 10
    || out_of_range d_floor 10
    || not (m.b.e.shutdown == 0)

abbrev pub new_passenger : ℕ → ℕ → ℕ → ℕ → Passenger
new_passenger address p_type s_floor d_floor = record {
  node = address;
  kind = p_type_of (sub32 p_type 1);
  s_floor = sub32 s_floor 1;
  d_floor = sub32 d_floor 1;
}

-- issue_request before it takes the lock: the checks, and the new passenger. `block` is what kmalloc
-- returns: `none` for NULL, through which the code then writes.
unfoldable pub begin_request :
    (block : Option ℕ) (p_type s_floor d_floor : ℕ) → Store → Option (Store × Option Passenger)
begin_request block p_type s_floor d_floor m =
    if refused m p_type s_floor d_floor then some (m, none) else do
      address ← block
      some (
        record m { live = update m.live address true },
        some (new_passenger address p_type s_floor d_floor),
      )

-- The rest of it. Where the lock was interrupted nothing keeps the passenger.
unfoldable pub finish_request : (acquired : Bool) → Passenger → Store → Option Store
finish_request acquired p m =
    if acquired then (do b' ← add_pass m.b p; some (record m { b = b' })) else some m

unfoldable pub issue_request :
    (acquired : Bool) (block : Option ℕ) (p_type s_floor d_floor : ℕ) → Store → Option (Store × ℕ)
issue_request acquired block p_type s_floor d_floor m = do
  (m1, taken) ← begin_request block p_type s_floor d_floor m
  elim taken [ none ↦ some (m1, 1) | some p ↦ do m2 ← finish_request acquired p m1; some (m2, 0) ]

unfoldable pub start_elevator : Bool → Store → Store × ℕ
start_elevator acquired m =
    if acquired
    then (if not (is_offline m.b.e.status) then (m, 1) else (
      record m {
        b = record (m.b) {
          e = record (m.b.e) { status = idle; current = 0; next = 1; shutdown = 0 };
        };
      },
      0,
    ))
    else (m, 0)

unfoldable pub stop_elevator : Bool → Store → Store × ℕ
stop_elevator acquired m =
    if acquired
    then (if not (m.b.e.shutdown == 0)
        then (m, 1)
        else (record m { b = record (m.b) { e = record (m.b.e) { shutdown = 1 } } }, 0))
    else (m, 0)
