-- ===== src/Programs/Accepted.antt =====
-- A request of a program, when the module is there and takes passengers.
use cop4610_project.Base.{ℕ, ◌≡◌, true, false, Option, some, arith}
use cop4610_project.Elevator.Types.{Passenger, Store}
use cop4610_project.Elevator.Requests.{issue_request, new_passenger}
use cop4610_project.Elevator.Invariant.{StoreOk}
use cop4610_project.Elevator.Invariant.Arriving.{
  allocated, allocated-StoreOk, arrived, arrived-StoreOk,
}
use cop4610_project.Elevator.Invariant.Requesting.{
  InRange, Begun, begin_request-Begun, new_passenger-IsValid, finish_request-arrived,
}
use cop4610_project.Elevator.Kernel.{Kernel, sys_issue_request}
use cop4610_project.Programs.{issue_request_wrapper}

-- The module is loaded, its invariant holds, and no shutdown was asked for.
pub record IsReady (leaked : ℕ → ℕ) (k : Kernel) : Type 0 where
  pub linked : k.stubs.issue ≡ true
  pub store : StoreOk leaked k.store
  pub going : k.store.b.e.shutdown ≡ 0

-- The kernel with one more passenger in a queue.
abbrev pub queued_in : (a t s d : ℕ) → Kernel → Kernel
queued_in a t s d k = record k {
  store = record (allocated a k.store) { b = arrived (new_passenger a t s d) k.store.b };
}

Begun-InRange :
    {m : Store} {a t s d : ℕ} {o : Option (Store × Option Passenger)}
    → Begun m (some a) t s d o
    → InRange t s d
    → m.b.e.shutdown ≡ 0
    → o ≡ some (allocated a m, some (new_passenger a t s d))
Begun-InRange (Begun.turned_down no_way) range going = absurd (no_way (range, going))
Begun-InRange (Begun.crashed r g null) range going = absurd (ground arith)
Begun-InRange {m} {a} {t} {s} {d} (Begun.taken {a = a'} r g got) range going = ground arith

module _ {leaked : ℕ → ℕ} (k : Kernel) (a t s d : ℕ) (ready : IsReady leaked k)
    (range : InRange t s d) (fresh : k.store.live a ≡ false) where
  pub accepted_run :
      issue_request_wrapper (record { acquired = true; block = some a }) t s d k
      ≡ some (queued_in a t s d k, 0)
  unfolding issue_request_wrapper sys_issue_request issue_request
  accepted_run =
      let begun =
        Begun-InRange
          (begin_request-Begun k.store (some a) t s d
            (record { type_int = omega arith; s_int = omega arith; d_int = omega arith }))
          range ready.going in
      rw (
        ready.linked,
        begun,
        finish_request-arrived (allocated a k.store) (new_passenger a t s d)
            (new_passenger-IsValid a t s d range),
      )

  pub accepted-IsReady : IsReady leaked (queued_in a t s d k)
  accepted-IsReady = record {
    linked = ready.linked;
    store =
        arrived-StoreOk leaked (allocated a k.store) (new_passenger a t s d)
          (allocated-StoreOk k.store a ready.store fresh) (new_passenger-IsValid a t s d range);
    going = ready.going;
  }
