-- ===== src/Elevator/Service.antt =====
-- What the elevator of part3/elevator promises, without its lists, counters and locks: who asked, who
-- waits, who is aboard, and how many were brought from each floor.
pub mod Crowds
pub mod Boarding
pub mod Measures
pub mod Sections
pub mod Travelling
pub mod Showing
pub mod Calls
pub mod Refinement
pub mod Brought
pub mod Balance
pub mod Greedy
mod Examples
use cop4610_project.Base.{
  false, ◌≢◌, Option, some, ℕ, ◌+◌, ◌≤◌, ◌<◌, ◌≡◌, ◌⊎◌, Bool, true, List, [], update,
}
use cop4610_project.Elevator.Types.{offline, Passenger}
use cop4610_project.Elevator.System.{System, Step}
use cop4610_project.Elevator.Invariant.Arguments.{IsMadeFor}
use cop4610_project.Elevator.Invariant.{weight, size}
use cop4610_project.Elevator.Invariant.Arriving.{IsValid}
use cop4610_project.Elevator.Service.Crowds.{Crowd, nobody, put, total}

pub record Service : Type 0 where
  pub calling : Crowd
  pub waiting : Crowd
  pub aboard : Crowd
  pub floor : ℕ
  pub asked : ℕ
  pub lost : ℕ
  pub served : ℕ → ℕ

-- Nobody has asked yet.
abbrev pub opening : Service
opening = record {
  calling = nobody;
  waiting = nobody;
  aboard = nobody;
  floor = 0;
  asked = 0;
  lost = 0;
  served = λ i. 0;
}

-- What goes on while the elevator stands on a floor.
pub data Turn : Type 0 where
  leaving boarding : Turn

-- One passenger leaves or boards.
pub data Deed (turn : Turn) (c : Service) : Service → Type 0 where
  leave :
      (p : Passenger) (others : Crowd)
      → turn ≡ Turn.leaving
      → c.aboard ≡ put p others
      → p.d_floor ≡ c.floor
      → Deed turn c (record c {
        aboard = others;
        served = update c.served p.s_floor (c.served p.s_floor + 1);
      })
  board :
      (p : Passenger) (others : Crowd)
      → turn ≡ Turn.boarding
      → c.waiting ≡ put p others
      → p.s_floor ≡ c.floor
      → total weight (put p c.aboard) ≤ 30
      → total size (put p c.aboard) ≤ 10
      → Deed turn c (record c { waiting = others; aboard = put p c.aboard })

pub data Deeds (turn : Turn) (c : Service) : Service → Type 0 where
  none_yet : Deeds turn c c
  then_deed : {d e : Service} → Deeds turn c d → Deed turn d e → Deeds turn c e

-- What the service does in answer to a step of the module, where `s` is the state before it. The first
-- section lets passengers off and then on, at its floor; the second goes to a floor next to it, or
-- stays; a request that is taken asks for the passenger that its arguments describe; the lock lets
-- that passenger join those who wait, and a signal loses the passenger; start_elevator brings an
-- elevator that is offline to the bottom floor. Nothing else is changed by these, and nothing at all
-- by the other steps.
abbrev pub Answer : {signals : Bool} {s t : System} → Step signals s t → Service → Service → Type 0
Answer (Step.first true at allowed run) c d =
    (k : Service) × Deeds Turn.leaving c k × Deeds Turn.boarding k d
Answer (Step.second true at allowed) c d =
    (d ≡ c)
    ⊎ ((i : ℕ) × (i < 10) × ((i ≡ c.floor + 1) ⊎ (c.floor ≡ i + 1)) × (d ≡ record c { floor = i }))
Answer (Step.request {p = p} block p_type s_floor d_floor ints fresh run) c d =
    (a : ℕ) × (block ≡ some a)
    × IsMadeFor p a p_type s_floor d_floor
    × (d ≡ record c { calling = put p c.calling; asked = c.asked + 1 })
Answer (Step.enqueue true before after p at allowed run) c d =
    (others : Crowd) × (c.calling ≡ put p others)
    × (d ≡ record c { calling = others; waiting = put p c.waiting })
Answer {signals} (Step.enqueue false before after p at allowed run) c d =
    (others : Crowd) × (signals ≡ true)
    × (c.calling ≡ put p others)
    × (d ≡ record c { calling = others; lost = c.lost + 1 })
Answer (Step.start {s} true allowed) c d =
    ((s.store.b.e.status ≡ offline) × (d ≡ record c { floor = 0 }))
    ⊎ ((s.store.b.e.status ≢ offline) × (d ≡ c))
Answer _ c d = d ≡ c
