-- ===== src/Elevator/Service/Sections.antt =====
-- How the service answers the first critical section of runElevator.
use cop4610_project.Base.{
  ℕ, ◌<◌, ◌≡◌, refl, ap, sym, ◌∙◌, subst, List, arith, All, tally, sum_below-congr,
}
use native.Mathlib.Decide.{ℕ_discrete}
use cop4610_project.Elevator.Types.{loading, Passenger, Store}
use cop4610_project.Elevator.Thread.{set_status}
use cop4610_project.Elevator.Invariant.{WaitsAt, RidesTo, weight, size, ElevatorOk, StoreOk}
use cop4610_project.Elevator.Invariant.Control.{set_status-StoreOk}
use cop4610_project.Elevator.Invariant.Loading.{Loaded}
use cop4610_project.Elevator.Invariant.Unloading.{Unloaded}
use cop4610_project.Elevator.Invariant.Servicing.{Serviced, asleep, vacant, served, FloorServed}
use cop4610_project.Elevator.Service.Crowds.{
  crowd_of, total-crowd_of, crowd_ext, gather, tally-gather,
}
use cop4610_project.Elevator.Service.Boarding.{
  with_all, add_all, total-with_all, total-add_all, add_served, add_served_lem, all_board,
  all_leave,
}
use cop4610_project.Elevator.Service.{Service, Turn, Deeds}
use cop4610_project.Elevator.Service.Measures.{
  All_map, All_front, Loaded-queued, Loaded-aboard, Loaded-serviced, Unloaded-aboard, Shows,
  Follows,
}

Unloaded-Follows :
    {leaked : ℕ → ℕ} (c : Service) (m m' : Store)
    → StoreOk leaked m
    → Shows m c
    → Unloaded m.b.e.current m m'
    → Follows Turn.leaving c m'
Unloaded-Follows c m m' ok sh off =
    let k = m.b.e.current in
    let lt : k < 10 = ok.motion.current in
    let q = m.b.e.p k in
    let others = crowd_of (gather 10 m'.b.e.p) in
    let left =
      λ (g : Passenger → ℕ). total-crowd_of g (gather 10 m'.b.e.p) ∙ tally-gather 10 g m'.b.e.p in
    let apart : c.aboard ≡ with_all q others = crowd_ext c.aboard (with_all q others) (λ g.
      omega
        (arith, sh.aboard g, total-with_all g q others, left g, Unloaded-aboard g k m m' lt off)) in
    let here : All (λ p. p.d_floor ≡ c.floor) q =
      All_map (RidesTo k) (λ p. p.d_floor ≡ c.floor) q (λ p h. h.1 ∙ sym sh.floor)
        (ok.elevator.queues k lt) in
    record {
      after = record c { aboard = others; served = add_served q c.served };
      deeds = all_leave q c others apart here;
      shows = record {
        waiting = λ g.
            sh.waiting g
            ∙ sym (
                sum_below-congr 10 (λ i. tally g (m'.b.f i).waiting)
                  (λ i. tally g (m.b.f i).waiting) (λ i li. ap (tally g) (off.waiting i)));
        aboard = left;
        floor = sh.floor ∙ sym off.control.current;
        served =
            λ i li. omega (arith, off.serviced i li, sh.served i li, add_served_lem q c.served i);
      };
      calling = refl;
      asked = refl;
      lost = refl;
    }

Loaded-Follows :
    (c : Service) (m m' : Store) (taken rest : List Passenger)
    → m.b.e.current < 10
    → All (WaitsAt m.b.e.current) (m.b.f m.b.e.current).waiting
    → ElevatorOk m'.b.e
    → Shows m c
    → Loaded m.b.e.current taken rest m.b m'.b
    → Follows Turn.boarding c m'
Loaded-Follows c m m' taken rest lt queue ok' sh on =
    let k = m.b.e.current in
    let all = All_front (WaitsAt k) taken rest (subst (All (WaitsAt k)) on.queue queue) in
    let low = All_map (WaitsAt k) (λ p. p.d_floor < 10) taken (λ p h. h.2) all in
    let here =
      All_map (WaitsAt k) (λ p. p.s_floor ≡ c.floor) taken (λ p h. h.1 ∙ sym sh.floor) all in
    let wait' = gather 10 (λ i. (m'.b.f i).waiting) in
    let others = crowd_of wait' in
    let left =
      λ (g : Passenger → ℕ). total-crowd_of g wait' ∙ tally-gather 10 g (λ i. (m'.b.f i).waiting) in
    let apart : c.waiting ≡ with_all taken others =
      crowd_ext c.waiting (with_all taken others) (λ g. omega (
        arith,
        sh.waiting g,
        total-with_all g taken others,
        left g,
        Loaded-queued g k taken rest m.b m'.b lt on,
      )) in
    let more = λ (g : Passenger → ℕ). Loaded-aboard g k taken rest m.b m'.b low on in
    record {
      after = record c { waiting = others; aboard = add_all taken c.aboard };
      deeds =
          all_board taken c others apart here
            (omega (arith, sh.aboard weight, more weight, ok'.w_units, ok'.w_max))
            (omega (arith, sh.aboard size, more size, ok'.p_units, ok'.p_max));
      shows = record {
        waiting = left;
        aboard = λ g. omega (arith, total-add_all g taken c.aboard, sh.aboard g, more g);
        floor = sh.floor ∙ sym on.control.current;
        served = λ i li. Loaded-serviced k taken rest m.b m'.b on i ∙ sh.served i li;
      };
      calling = refl;
      asked = refl;
      lost = refl;
    }

-- Nothing that the service shows has changed.
same-Follows : {turn : Turn} (c : Service) (m : Store) → Shows m c → Follows turn c m
same-Follows c m sh = record {
  after = c;
  deeds = Deeds.none_yet;
  shows = sh;
  calling = refl;
  asked = refl;
  lost = refl;
}

-- The first section: passengers leave, and then passengers board.
pub record Serves (c : Service) (m : Store) : Type 0 where
  pub between : Service
  pub after : Service
  pub leaves : Deeds Turn.leaving c between
  pub boards : Deeds Turn.boarding between after
  pub shows : Shows m after
  pub calling : after.calling ≡ c.calling

both_turns :
    (c : Service) {m m' : Store} (off : Follows Turn.leaving c m)
    → Follows Turn.boarding off.after m'
    → Serves c m'
both_turns c off on = record {
  between = off.after;
  after = on.after;
  leaves = off.deeds;
  boards = on.deeds;
  shows = on.shows;
  calling = on.calling ∙ off.calling;
}

same-Serves : (c : Service) (m : Store) → Shows m c → Serves c m
unfolding same-Follows
same-Serves c m sh = both_turns c (same-Follows c m sh) (same-Follows c m sh)

FloorServed-Serves :
    {leaked : ℕ → ℕ} (c : Service) (m m' : Store)
    → StoreOk leaked m
    → StoreOk leaked m'
    → Shows m c
    → FloorServed m.b.e.current m m'
    → Serves c m'
FloorServed-Serves c m m' ok ok' sh fs =
    let k = m.b.e.current in
    let open_doors : Store = set_status loading m in
    let sh' : Shows open_doors c = record {
      waiting = sh.waiting;
      aboard = sh.aboard;
      floor = sh.floor;
      served = sh.served;
    } in
    let out = Unloaded-Follows c open_doors fs.between (set_status-StoreOk ok loading) sh' fs.off in
    elim (ℕ_discrete m.b.e.shutdown 1) [
      | yes shut ↦
          subst (Serves c) (sym (fs.closed shut))
            (both_turns c out (same-Follows out.after fs.between out.shows))
      | no going ↦
          let (taken, rest, on) = fs.on going in
          let at : fs.between.b.e.current ≡ k = fs.off.control.current in
          let queue =
            subst (All (WaitsAt k)) (sym (fs.off.waiting k))
              (ok.floors k ok.motion.current).queue in
          both_turns c out (
            Loaded-Follows out.after fs.between m' taken rest (omega (arith, at, ok.motion.current))
              (subst (λ j. All (WaitsAt j) (fs.between.b.f j).waiting) (sym at) queue) ok'.elevator
              out.shows (subst (λ j. Loaded j taken rest fs.between.b m'.b) (sym at) on))
    ]

pub Serviced-Serves :
    {leaked : ℕ → ℕ} (c : Service) {m m' : Store}
    → StoreOk leaked m
    → StoreOk leaked m'
    → Shows m c
    → Serviced m m'
    → Serves c m'
Serviced-Serves c {m} ok ok' sh (asleep off) = same-Serves c m sh
Serviced-Serves c {m} ok ok' sh (vacant duty none empty) = same-Serves c m sh
Serviced-Serves c {m} {m'} ok ok' sh (served duty some_one fs) =
    FloorServed-Serves c m m' ok ok' sh fs
