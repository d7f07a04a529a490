-- ===== src/Elevator/Service/Calls.antt =====
-- How the service answers the system calls.
use cop4610_project.Base.{
  ℕ, ◌+◌, ◌≡◌, refl, ap, sym, ◌∙◌, subst, Bool, true, false, some, List, ◌∷◌, ◌++◌, ◌==◌, arith,
  tally, tally-cons, tally-append, inl, inr, Bool-cases,
}
use mathlib.Core.Option.{some-injective}
use cop4610_project.Elevator.Types.{Passenger, Building, Store}
use cop4610_project.Elevator.Thread.{is_offline}
use cop4610_project.Elevator.Requests.{finish_request, start_elevator, stop_elevator}
use cop4610_project.Elevator.Invariant.Arriving.{IsValid, arrived}
use cop4610_project.Elevator.Invariant.Requesting.{
  finish_request-arrived, finish_request-interrupted,
}
use cop4610_project.Elevator.System.{System, Step, Allowed}
use cop4610_project.Elevator.Service.Crowds.{
  crowd_of, put, total, total-put, total-crowd_of, crowd_ext,
}
use cop4610_project.Elevator.Service.Measures.{Shows}
use cop4610_project.Elevator.Service.{Service}
use cop4610_project.Elevator.Invariant.Control.{offline_of_test, not_offline_of_test}
use cop4610_project.Elevator.Service.Showing.{Shown, Simulated, arrived-queued, arrived-serviced}

-- One passenger of the calls under way, and the others.
one_called :
    (c : Service) (pending before after : List Passenger) (p : Passenger)
    → ((g : Passenger → ℕ) → total g c.calling ≡ tally g pending)
    → pending ≡ before ++ p ∷ after
    → c.calling ≡ put p (crowd_of (before ++ after))
one_called c pending before after p calling at =
    crowd_ext c.calling (put p (crowd_of (before ++ after))) (λ g. omega (
      arith,
      calling g,
      ap (tally g) at,
      tally-append g before (p ∷ after),
      tally-append g before after,
      tally-cons g p after,
      total-put g p (crowd_of (before ++ after)),
      total-crowd_of g (before ++ after),
    ))

pub interrupted_means : (signals : Bool) → Allowed signals false → signals ≡ true
interrupted_means true allowed = refl
interrupted_means false allowed = cc (allowed refl)

pub enqueue-Simulated :
    {signals : Bool} (acquired : Bool) (c : Service) (s : System) (m' : Store)
    (before after : List Passenger) (p : Passenger)
    → Shown s c
    → IsValid p
    → (at : s.pending ≡ before ++ p ∷ after) (allowed : Allowed signals acquired)
      (run : finish_request acquired p s.store ≡ some m')
    → Simulated {signals = signals} {s = s} {t = record s { store = m'; pending = before ++ after }}
        c
        (Step.enqueue acquired before after p at allowed run)
enqueue-Simulated true c s m' before after p sh valid at allowed run =
    let others = crowd_of (before ++ after) in
    let same = some-injective _ m' (sym (finish_request-arrived s.store p valid) ∙ run) in
    let b' = arrived p s.store.b in
    let shows : Shows (record (s.store) { b = b' })
        (record c { calling = others; waiting = put p c.waiting }) =
      record {
        waiting = λ g. omega (
          arith,
          total-put g p c.waiting,
          sh.store.waiting g,
          arrived-queued g p s.store.b valid.start,
        );
        aboard = sh.store.aboard;
        floor = sh.store.floor;
        served = λ i li. arrived-serviced p s.store.b i ∙ sh.store.served i li;
      } in
    (
      record c { calling = others; waiting = put p c.waiting },
      (others, one_called c s.pending before after p sh.calling at, refl),
      record {
        store =
            subst (λ m. Shows m (record c { calling = others; waiting = put p c.waiting })) same
              shows;
        calling = λ g. total-crowd_of g (before ++ after);
      },
    )
enqueue-Simulated {signals} false c s m' before after p sh valid at allowed run =
    let others = crowd_of (before ++ after) in
    let same = some-injective s.store m' (sym (finish_request-interrupted s.store p) ∙ run) in
    let interrupted : signals ≡ true = interrupted_means signals allowed in
    (
      record c { calling = others; lost = c.lost + 1 },
      (others, interrupted, one_called c s.pending before after p sh.calling at, refl),
      record {
        store =
            subst (λ m. Shows m (record c { calling = others; lost = c.lost + 1 })) same
              (record {
                waiting = sh.store.waiting;
                aboard = sh.store.aboard;
                floor = sh.store.floor;
                served = sh.store.served;
              });
        calling = λ g. total-crowd_of g (before ++ after);
      },
    )

pub start-Simulated :
    {signals : Bool} (acquired : Bool) (c : Service) (s : System)
    → Shown s c
    → (allowed : Allowed signals acquired)
    → Simulated {signals = signals} {s = s}
        {t = record s { store = (start_elevator acquired s.store).0 }} c
        (Step.start acquired allowed)
unfolding start_elevator
start-Simulated false c s sh allowed = (c, refl, sh)
start-Simulated true c s sh allowed = elim (Bool-cases (is_offline s.store.b.e.status)) [
  | inl off ↦ rw off (
    record c { floor = 0 },
    inl (offline_of_test s.store.b.e.status off, refl),
    record {
      store = record {
        waiting = sh.store.waiting;
        aboard = sh.store.aboard;
        floor = refl;
        served = sh.store.served;
      };
      calling = sh.calling;
    },
  )
  | inr active ↦ rw active (c, inr (not_offline_of_test s.store.b.e.status active, refl), sh)
]

pub stop-Simulated :
    {signals : Bool} (acquired : Bool) (c : Service) (s : System)
    → Shown s c
    → (allowed : Allowed signals acquired)
    → Simulated {signals = signals} {s = s}
        {t = record s { store = (stop_elevator acquired s.store).0 }} c
        (Step.stop acquired allowed)
unfolding stop_elevator
stop-Simulated false c s sh allowed = (c, refl, sh)
stop-Simulated true c s sh allowed = elim (Bool-cases (s.store.b.e.shutdown == 0)) [
  | inl going ↦ rw going (
    c,
    refl,
    record {
      store = record {
        waiting = sh.store.waiting;
        aboard = sh.store.aboard;
        floor = sh.store.floor;
        served = sh.store.served;
      };
      calling = sh.calling;
    },
  )
  | inr closing ↦ rw closing (c, refl, sh)
]

-- Only the blocks that are allocated have changed.
pub live_only : {s : System} {c : Service} (m' : Store) → m'.b ≡ s.store.b → Shown s c → Shows m' c
live_only {s} {c} m' same sh =
    let to_b = λ (b : Building). Shows (record { b = b; live = m'.live }) c in
    subst to_b (sym same) (record {
      waiting = sh.store.waiting;
      aboard = sh.store.aboard;
      floor = sh.store.floor;
      served = sh.store.served;
    })

-- Another call is under way.
pub live_asked :
    (p : Passenger) {m : Store} {c : Service}
    → Shows m c
    → Shows m (record c { calling = put p c.calling; asked = c.asked + 1 })
live_asked p sh = record {
  waiting = sh.waiting;
  aboard = sh.aboard;
  floor = sh.floor;
  served = sh.served;
}
