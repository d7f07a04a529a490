-- ===== src/Elevator/Service/Refinement.antt =====
-- Every step of the module as an answer of the service.
use cop4610_project.Base.{
  ℕ, ◌+◌, refl, ap, sym, ◌∙◌, subst, Bool, arith, All, All_middle, tally, tally-cons,
}
use cop4610_project.Elevator.Types.{Building, Store}
use cop4610_project.Elevator.Building.{init_elevator, init_building}
use cop4610_project.Elevator.Invariant.Arriving.{IsValid}
use cop4610_project.Elevator.Invariant.Requesting.{begin_request-Begun}
use cop4610_project.Elevator.System.{System, Step, initial, Reach}
use cop4610_project.Elevator.System.Safety.{Begun-refused, Begun-taken, SystemOk, Reach-SystemOk}
use cop4610_project.Elevator.System.Start.{
  init_lists-empty, init_floors-Fresh, tally-nil, sum_below_zero,
}
use cop4610_project.Elevator.Service.Crowds.{put, total, total-put}
use cop4610_project.Elevator.Service.Measures.{Shows}
use cop4610_project.Elevator.Service.{Service, opening, Answer}
use cop4610_project.Elevator.Service.Showing.{Shown, Simulated, first-Simulated, second-Simulated}
use cop4610_project.Elevator.Invariant.Arguments.{IsMadeFor, new_passenger-IsMadeFor}
use cop4610_project.Elevator.Service.Calls.{
  enqueue-Simulated, start-Simulated, stop-Simulated, live_only, live_asked,
}

Step-from_ok :
    {signals : Bool} {lost : ℕ → ℕ} {s t : System} (c : Service)
    → SystemOk lost s
    → Shown s c
    → (step : Step signals s t) → Simulated c step
Step-from_ok c ok sh (Step.first {s} {m'} acquired at allowed run) =
    first-Simulated acquired c s m' ok.store sh at allowed run
Step-from_ok c ok sh (Step.second {s} acquired at allowed) =
    second-Simulated acquired c s ok.store sh at allowed
Step-from_ok c ok sh (Step.should_stop at) =
    (c, refl, record { store = sh.store; calling = sh.calling })
Step-from_ok c ok sh (Step.refuse {s} {m'} block t f d ints fresh run) =
    let same = Begun-refused (begin_request-Begun s.store block t f d ints) m' run in
    (c, refl, record { store = subst (λ m. Shows m c) same sh.store; calling = sh.calling })
Step-from_ok c ok sh (Step.request {s} {m'} {p} block t f d ints fresh run) =
    let (a, got, new, who, range) =
      Begun-taken (begin_request-Begun s.store block t f d ints) m' p run in
    let made = subst (λ q. IsMadeFor q a t f d) (sym who) (new_passenger-IsMadeFor a t f d range) in
    (
      record c { calling = put p c.calling; asked = c.asked + 1 },
      (a, got, made, refl),
      record {
        store = live_asked p (live_only m' (ap (λ (m : Store). m.b) new) sh);
        calling =
            λ g. omega (arith, total-put g p c.calling, sh.calling g, tally-cons g p s.pending);
      },
    )
Step-from_ok c ok sh (Step.enqueue {s} {m'} acquired before after p at allowed run) =
    let (valid, others) = All_middle IsValid before p after (subst (All IsValid) at ok.pending) in
    enqueue-Simulated acquired c s m' before after p sh valid at allowed run
Step-from_ok c ok sh (Step.start {s} acquired allowed) = start-Simulated acquired c s sh allowed
Step-from_ok c ok sh (Step.stop {s} acquired allowed) = stop-Simulated acquired c s sh allowed

-- From every reachable state that the service shows, the service answers every step of the module,
-- each step in its own way, and shows the new state then. A first section lets passengers leave at
-- their floor and then passengers board at theirs, one at a time and within the limits, and counts
-- each who leaves; a second section moves to a floor next to this one or stays; a request that is
-- taken asks for the passenger that its arguments describe; the lock lets this passenger join those
-- who wait, and an interrupted lock loses the passenger; start_elevator brings an elevator that is
-- offline to the bottom floor; and nothing else is changed by any step.
pub Step-refines :
    {signals : Bool} {b : Building} {s t : System} (c : Service)
    → Reach signals b s
    → Shown s c
    → (step : Step signals s t) → (d : Service) × Answer step c d × Shown t d
Step-refines c r sh step = let (lost, none_lost, ok) = Reach-SystemOk r in Step-from_ok c ok sh step

initial-Shown : (b : Building) → Shown (initial b) opening
unfolding init_building init_elevator total tally
initial-Shown b = record {
  store = record {
    waiting =
        λ g. sym (sum_below_zero _ (λ i li. tally-nil g (init_floors-Fresh 10 b.f i li).waiting));
    aboard = λ g. sym (sum_below_zero _ (λ i li. tally-nil g (init_lists-empty 10 b.e.p i li)));
    floor = refl;
    served = λ i li. (init_floors-Fresh 10 b.f i li).serviced ∙ omega arith;
  };
  calling = λ g. refl;
}

-- Every reachable state is shown by a service.
pub Reach-Shown :
    {signals : Bool} {b : Building} {s : System} → Reach signals b s → (c : Service) × Shown s c
Reach-Shown {b = b} Reach.begin = (opening, initial-Shown b)
Reach-Shown (Reach.next r step) =
    let (c, sh) = Reach-Shown r in let (d, answer, sh') = Step-refines c r sh step in (d, sh')
