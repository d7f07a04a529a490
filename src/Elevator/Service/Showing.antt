-- ===== src/Elevator/Service/Showing.antt =====
-- How the service shows the module, and how it answers the sections of the thread.
use cop4610_project.Base.{
  ℕ, ◌+◌, ◌<◌, ◌≡◌, refl, ap, sym, ◌∙◌, subst, Bool, true, false, some, arith, tally, tally_snoc,
  sum_below-update, update_each,
}
use mathlib.Core.Option.{some-injective}
use cop4610_project.Elevator.Types.{Passenger, Floors, Building, Store}
use cop4610_project.Elevator.Thread.{first_section, second_section}
use cop4610_project.Elevator.Invariant.{StoreOk}
use cop4610_project.Elevator.Invariant.Counters.{count_in-SameQueue}
use cop4610_project.Elevator.Invariant.Arriving.{longer, arrived}
use cop4610_project.Elevator.Invariant.Servicing.{service-Serviced}
use cop4610_project.Elevator.Invariant.Advancing.{advance-Advanced}
use cop4610_project.Elevator.System.{Phase, System, Step, Allowed}
use cop4610_project.Elevator.Service.Crowds.{total}
use cop4610_project.Elevator.Service.Sections.{Serves, Serviced-Serves}
use cop4610_project.Elevator.Service.Travelling.{Travels, Advanced-Travels}
use cop4610_project.Elevator.Service.Measures.{queued, Shows}
use cop4610_project.Elevator.Service.{Service, Answer}

-- The service shows the module: its crowds hold those in the lists and those whose calls wait for the
-- lock, it is at the elevator's floor, and its numbers are those of the floors, modulo 2 ^ 32.
pub record Shown (s : System) (c : Service) : Type 0 where
  pub store : Shows s.store c
  pub calling : (g : Passenger → ℕ) → total g c.calling ≡ tally g s.pending

-- The service after a step, which answered it as it should.
abbrev pub Simulated : {signals : Bool} {s t : System} → Service → Step signals s t → Type 0
Simulated {t = t} c step = (d : Service) × Answer step c d × Shown t d

-- A change of the store that the thread makes.
thread-Shown :
    (c d : Service) (s : System) (m' : Store) (phase : Phase)
    → Shown s c
    → Shows m' d
    → d.calling ≡ c.calling
    → Shown (record s { store = m'; phase = phase }) d
thread-Shown c d s m' phase sh shows same = record {
  store = shows;
  calling = λ g. ap (total g) same ∙ sh.calling g;
}

pub first-Simulated :
    {signals : Bool} {leaked : ℕ → ℕ} (acquired : Bool) (c : Service) (s : System) (m' : Store)
    → StoreOk leaked s.store
    → Shown s c
    → (at : s.phase ≡ Phase.head) (allowed : Allowed signals acquired)
      (run : first_section acquired s.store ≡ some m')
    → Simulated {signals = signals} {s = s} {t = record s { store = m'; phase = Phase.between }} c
        (Step.first acquired at allowed run)
unfolding first_section
first-Simulated false c s m' ok sh at allowed run =
    let same = some-injective s.store m' run in
    (c, refl, thread-Shown c c s m' Phase.between sh (subst (λ m. Shows m c) same sh.store) refl)
first-Simulated true c s m' ok sh at allowed run =
    let (n, run', ok', what) = service-Serviced s.store ok in
    let serves =
      subst (Serves c) (some-injective n m' (sym run' ∙ run))
        (Serviced-Serves c ok ok' sh.store what) in
    (
      serves.after,
      (serves.between, serves.leaves, serves.boards),
      thread-Shown c serves.after s m' Phase.between sh serves.shows serves.calling,
    )

pub second-Simulated :
    {signals : Bool} {leaked : ℕ → ℕ} (acquired : Bool) (c : Service) (s : System)
    → StoreOk leaked s.store
    → Shown s c
    → (at : s.phase ≡ Phase.between) (allowed : Allowed signals acquired)
    → Simulated {signals = signals} {s = s}
        {t = record s { store = second_section acquired s.store; phase = Phase.head }} c
        (Step.second acquired at allowed)
unfolding second_section
second-Simulated false c s ok sh at allowed =
    (c, refl, thread-Shown c c s s.store Phase.head sh sh.store refl)
second-Simulated true c s ok sh at allowed =
    let (b', run, ok', what) = advance-Advanced s.store ok in
    let travels =
      subst (λ b. Travels c (record (s.store) { b = b })) (sym run)
        (Advanced-Travels c s.store.live ok.motion sh.store what) in
    (
      travels.after,
      travels.rides,
      thread-Shown c travels.after s _ Phase.head sh travels.shows travels.calling,
    )

pub arrived-queued :
    (g : Passenger → ℕ) (p : Passenger) (b : Building)
    → p.s_floor < 10
    → queued g (arrived p b) ≡ g p + queued g b
arrived-queued g p b lt = omega (
  arith,
  sum_below-update 10 (λ (fl : Floors). tally g fl.waiting) b.f p.s_floor (longer p (b.f p.s_floor))
      lt,
  ap (tally g) (count_in-SameQueue p.kind _).waiting,
  tally_snoc g (b.f p.s_floor).waiting p,
)

pub arrived-serviced :
    (p : Passenger) (b : Building) (i : ℕ) → ((arrived p b).f i).serviced ≡ (b.f i).serviced
arrived-serviced p b i =
    update_each (λ k (fl : Floors). fl.serviced ≡ (b.f k).serviced) b.f p.s_floor _
      (count_in-SameQueue p.kind _).serviced i (λ ne. refl)
