-- ===== src/Elevator/Progress/Working.antt =====
-- How much there is left to do, and what each section of the thread does about it.
use native.Mathlib.Decide.{ℕ_discrete}
use mathlib.Core.List.{append-nil}
use cop4610_project.Elevator.System.Start.{tally-nil}
use cop4610_project.Elevator.Exit.Freeing.{sum_below_zero}
use cop4610_project.Base.{
  ℕ, ◌+◌, ◌*◌, ◌<◌, ◌≡◌, ◌≢◌, ◌⊎◌, inl, inr, refl, ap, sym, ◌∙◌, subst, List, [], ◌∷◌, ◌++◌, arith,
  All, tally, sum_below-congr, elem-le-sum_below,
}
use cop4610_project.Elevator.Types.{offline, loading, Passenger, Building, Store}
use cop4610_project.Elevator.Thread.{set_status}
use cop4610_project.Elevator.Invariant.{weight, size, aboard, IsKnown, WaitsAt, StoreOk}
use cop4610_project.Elevator.Invariant.Counters.{weight_bounds}
use cop4610_project.Elevator.Invariant.Boarding.{Boards}
use cop4610_project.Elevator.Invariant.Loading.{bound_for, MustWait, Heads, Loaded}
use cop4610_project.Elevator.Invariant.Servicing.{Serviced, asleep, vacant, served, FloorServed}
use cop4610_project.Elevator.Service.Measures.{
  queued, All_front, All_map, Loaded-queued, Loaded-aboard, Unloaded-aboard,
}

abbrev pub one : Passenger → ℕ
one p = 1

-- Everybody who waits has to board and to get off, everybody aboard to get off.
abbrev pub left : Building → ℕ
left b = 2 * queued one b + aboard one b.e.p

abbrev pub GoesElsewhere : Passenger → Type 0
GoesElsewhere p = p.s_floor ≢ p.d_floor

-- An elevator in service, no shutdown asked for, and nobody waits for the floor where they are.
pub record Working (leaked : ℕ → ℕ) (m : Store) : Type 0 where
  pub ok : StoreOk leaked m
  pub going : m.b.e.shutdown ≡ 0
  pub active : m.b.e.status ≢ offline
  pub queues : (i : ℕ) → i < 10 → All GoesElsewhere (m.b.f i).waiting

-- Nobody boards and nobody gets off.
pub record Idle (m m' : Store) : Type 0 where
  pub riders : (i : ℕ) → i < 10 → m'.b.e.p i ≡ m.b.e.p i
  pub waiting : (i : ℕ) → i < 10 → (m'.b.f i).waiting ≡ (m.b.f i).waiting
  pub nobody_off : m.b.e.p m.b.e.current ≡ []
  pub nobody_on :
      aboard one m.b.e.p ≡ 0
      → (p : Passenger) (ps : List Passenger) → (m.b.f m.b.e.current).waiting ≡ p ∷ ps
      → ¬ Heads m.b.e.direction p

pub tally-one-nil : (l : List Passenger) → tally one l ≡ 0 → l ≡ []
unfolding tally
tally-one-nil [] h = refl
tally-one-nil (p ∷ ps) h = absurd (omega arith)

All_back {ℓ κ} : {A : Type ℓ} (P : A → Type κ) (xs ys : List A) → All P (xs ++ ys) → All P ys
All_back P [] ys all = all
All_back P (x ∷ xs) ys all = All_back P xs ys all.1

bound_for-nil : (i : ℕ) → bound_for i [] ≡ []
unfolding bound_for
bound_for-nil i = refl

-- What the section does: there is less to do, or nothing happened.
pub record Served (leaked : ℕ → ℕ) (m m' : Store) : Type 0 where
  pub working : Working leaked m'
  pub control :
      (m'.b.e.current ≡ m.b.e.current)
      × (m'.b.e.next ≡ m.b.e.next)
      × (m'.b.e.direction ≡ m.b.e.direction)
  pub less : (left m'.b < left m.b) ⊎ Idle m m'

module _ {leaked : ℕ → ℕ} (m m' : Store) (w : Working leaked m) (ok' : StoreOk leaked m')
    (fs : FloorServed m.b.e.current m m') where
  abbrev c : ℕ
  c = m.b.e.current

  abbrev mid : Building
  mid = fs.between.b

  abbrev Boarders : Type 0
  Boarders = (taken : List Passenger) × (rest : List Passenger) × Loaded c taken rest mid m'.b

  loads : Boarders
  loads = fs.on (λ e. omega (arith, e, w.going))

  same_queue : (i : ℕ) → (mid.f i).waiting ≡ (m.b.f i).waiting
  same_queue i = fs.off.waiting i

  in_queue : All (WaitsAt c) (loads.0 ++ loads.1)
  in_queue =
      subst (All (WaitsAt c)) (sym (same_queue c) ∙ loads.2.queue)
        (w.ok.floors c w.ok.motion.current).queue

  -- Nobody and everything stays, if nobody boarded and nobody was here to get off.
  nothing_done : loads.0 ≡ [] → m.b.e.p c ≡ [] → Idle m m'
  nothing_done none nobody =
      let on = loads.2 in
      let riders : (i : ℕ) → m'.b.e.p i ≡ m.b.e.p i = λ i.
        on.riders i
        ∙ ap (λ l. mid.e.p i ++ bound_for i l) none
        ∙ ap (λ l. mid.e.p i ++ l) (bound_for-nil i)
        ∙ append-nil (mid.e.p i)
        ∙ elim (ℕ_discrete i c) [
          | yes e ↦ subst (λ k. mid.e.p k ≡ m.b.e.p k) (sym e) (fs.off.emptied ∙ sym nobody)
          | no ne ↦ fs.off.others i ne
        ] in
      let queue : (m'.b.f c).waiting ≡ (m.b.f c).waiting =
        on.left ∙ ap (λ l. l ++ loads.1) (sym none) ∙ sym on.queue ∙ same_queue c in
      record {
        riders = λ i li. riders i;
        waiting = λ i li. elim (ℕ_discrete i c) [
          | yes e ↦ subst (λ k. (m'.b.f k).waiting ≡ (m.b.f k).waiting) (sym e) queue
          | no ne ↦ ap (λ fl. fl.waiting) (on.others i ne) ∙ same_queue i
        ];
        nobody_off = nobody;
        nobody_on = λ empty p ps at way.
            let all_empty : (i : ℕ) → i < 10 → m'.b.e.p i ≡ [] = λ i li.
              riders i
              ∙ tally-one-nil (m.b.e.p i)
                  (omega (arith, empty, elem-le-sum_below 10 (λ j. tally one (m.b.e.p j)) i li)) in
            let no_measure : (g : Passenger → ℕ) → aboard g m'.b.e.p ≡ 0 = λ g.
              sum_below_zero (λ i. tally g (m'.b.e.p i)) (λ i li. tally-nil g (all_empty i li)) in
            let first : loads.1 ≡ p ∷ ps = sym on.left ∙ queue ∙ at in
            let known : IsKnown p.kind =
              (subst (All (WaitsAt c)) at (w.ok.floors c w.ok.motion.current).queue).0.0 in
            let bounds = weight_bounds p.kind known in
            let boards : Boards m'.b.e p = (
              omega (arith, bounds.1, ok'.elevator.w_units, no_measure weight),
              omega (arith, bounds.3, ok'.elevator.p_units, no_measure size),
              on.control.direction ∙ fs.off.control.direction ∙ way,
            ) in
            subst (MustWait m'.b.e) first on.stop boards;
      }

  FloorServed-Served : Served leaked m m'
  FloorServed-Served =
      let (taken, rest, on) = loads in
      let lt = w.ok.motion.current in
      let low =
        All_map (WaitsAt c) (λ p. p.d_floor < 10) taken (λ p h. h.2)
          (All_front (WaitsAt c) taken rest in_queue) in
      let off = Unloaded-aboard one c (set_status loading m) fs.between lt fs.off in
      let same =
        sum_below-congr 10 (λ i. tally one (mid.f i).waiting) (λ i. tally one (m.b.f i).waiting)
          (λ i li. ap (tally one) (same_queue i)) in
      let gone = Loaded-queued one c taken rest mid m'.b lt on in
      let more = Loaded-aboard one c taken rest mid m'.b low on in
      let elsewhere = subst (All GoesElsewhere) (sym (same_queue c) ∙ on.queue) (w.queues c lt) in
      record {
        working = record {
          ok = ok';
          going = on.control.shutdown ∙ fs.off.control.shutdown ∙ w.going;
          active = λ e. cc (on.control.status, fs.off.control.status, e);
          queues = λ i li. elim (ℕ_discrete i c) [
            | yes e ↦
                subst (λ k. All GoesElsewhere (m'.b.f k).waiting) (sym e)
                  (subst (All GoesElsewhere) (sym on.left)
                    (All_back GoesElsewhere taken rest elsewhere))
            | no ne ↦
                subst (All GoesElsewhere)
                  (sym (ap (λ fl. fl.waiting) (on.others i ne) ∙ same_queue i)) (w.queues i li)
          ];
        };
        control = (
          on.control.current ∙ fs.off.control.current,
          on.control.next ∙ fs.off.control.next,
          on.control.direction ∙ fs.off.control.direction,
        );
        less = elim (ℕ_discrete (tally one taken + tally one (m.b.e.p c)) 0) [
          | yes none ↦ inr (
              nothing_done (tally-one-nil taken (omega arith))
                (tally-one-nil (m.b.e.p c) (omega arith)))
          | no some_one ↦ inl (omega (arith, off, same, gone, more))
        ];
      }

pub Serviced-Served :
    {leaked : ℕ → ℕ} {m m' : Store}
    → Working leaked m
    → StoreOk leaked m'
    → Serviced m m'
    → Served leaked m m'
Serviced-Served w ok' (asleep off) = absurd (w.active off)
Serviced-Served {m = m} w ok' (vacant duty none empty) = record {
  working = w;
  control = (refl, refl, refl);
  less = inr (record {
    riders = λ i li. refl;
    waiting = λ i li. refl;
    nobody_off = empty;
    nobody_on = λ nobody p ps at. cc (at, none);
  });
}
Serviced-Served {m = m} {m' = m'} w ok' (served duty some_one fs) = FloorServed-Served m m' w ok' fs
