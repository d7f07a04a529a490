-- ===== src/Elevator/Invariant/Loading.antt =====
-- The loop of runElevator over the passengers who wait at the current floor.
use cop4610_project.Base.{
  ℕ, ◌<◌, ◌≡◌, ◌≢◌, refl, ap, sym, ◌∙◌, true, false, ◌&&◌, ◌==◌, ==_self, ltb, subst, if◌then◌else◌,
  some, List, [], ◌∷◌, ◌++◌, arith, Bool-cases, inl, inr, update, update_self, update_other,
  update_each, All,
}
use mathlib.Core.List.{append-nil, append_assoc}
use cop4610_project.Elevator.Types.{Passenger, Elevator, Floors, Building, Store}
use cop4610_project.Elevator.Passengers.{can_fit, p_direction}
use cop4610_project.Elevator.Building.{move_pass}
use cop4610_project.Elevator.Thread.{load}
use cop4610_project.Elevator.Invariant.{WaitsAt, StoreOk}
use cop4610_project.Elevator.Invariant.Counters.{SameControl, board-SameCourse, count_out-SameQueue}
use cop4610_project.Elevator.Invariant.Boarding.{
  Boards, Boards-test, test_of_Boards, departed, boarded, move_pass-boarded, boarded-StoreOk,
}

-- The passengers of a list who go to floor `i`, in their order.
unfoldable pub bound_for : ℕ → List Passenger → List Passenger
bound_for i [] = []
bound_for i (p ∷ ps) = if p.d_floor == i then p ∷ bound_for i ps else bound_for i ps

-- The first of a list, if there is one, may not board.
abbrev pub MustWait : Elevator → List Passenger → Type 0
MustWait e [] = Unit
MustWait e (p ∷ ps) = ¬ Boards e p

-- The passenger goes in direction `d`.
abbrev pub Heads : ℕ → Passenger → Type 0
Heads d p = d ≡ (if ltb p.s_floor p.d_floor then 1 else 0)

-- Of the queue at floor `c` the passengers `taken` went aboard, each behind those who already go to
-- the same floor, and those in `rest` still wait; the first of them may not board.
pub record Loaded (c : ℕ) (taken rest : List Passenger) (b b' : Building) : Type 0 where
  pub queue : (b.f c).waiting ≡ taken ++ rest
  pub left : (b'.f c).waiting ≡ rest
  pub others : (i : ℕ) → i ≢ c → b'.f i ≡ b.f i
  pub serviced : (b'.f c).serviced ≡ (b.f c).serviced
  pub riders : (i : ℕ) → b'.e.p i ≡ b.e.p i ++ bound_for i taken
  pub directed : All (Heads b.e.direction) taken
  pub stop : MustWait b'.e rest
  pub control : SameControl b.e b'.e

pub nobody-Loaded :
    (c : ℕ) (l : List Passenger) (b : Building)
    → (b.f c).waiting ≡ l
    → MustWait b.e l
    → Loaded c [] l b b
unfolding bound_for
nobody-Loaded c l b h stop = record {
  queue = h;
  left = h;
  others = λ i ne. refl;
  serviced = refl;
  riders = λ i. sym (append-nil (b.e.p i));
  directed = tt;
  stop = stop;
  control = record {
    status = refl;
    current = refl;
    next = refl;
    shutdown = refl;
    direction = refl;
  };
}

boarded-riders :
    (p : Passenger) (ps taken : List Passenger) (b : Building) (i : ℕ)
    → (boarded p ps b).e.p i ++ bound_for i taken ≡ b.e.p i ++ bound_for i (p ∷ taken)
unfolding bound_for
boarded-riders p ps taken b i =
    update_each
      (λ k (l : List Passenger). l ++ bound_for k taken ≡ b.e.p k ++ bound_for k (p ∷ taken)) b.e.p
      p.d_floor (b.e.p p.d_floor ++ p ∷ [])
      (append_assoc (b.e.p p.d_floor) (p ∷ []) (bound_for p.d_floor taken) ∙ rw (==_self p.d_floor))
      i (λ ne. ground arith)

boarded-waiting :
    (c : ℕ) (p : Passenger) (ps : List Passenger) (b : Building)
    → p.s_floor ≡ c
    → ((boarded p ps b).f c).waiting ≡ ps
boarded-waiting c p ps b at =
    subst (λ k. (update b.f p.s_floor (departed p ps (b.f p.s_floor)) k).waiting ≡ ps) at
      (ap (λ (fl : Floors). fl.waiting) (update_self b.f p.s_floor _))

boarded-serviced :
    (c : ℕ) (p : Passenger) (ps : List Passenger) (b : Building)
    → ((boarded p ps b).f c).serviced ≡ (b.f c).serviced
boarded-serviced c p ps b =
    update_each (λ k (fl : Floors). fl.serviced ≡ (b.f k).serviced) b.f p.s_floor
      (departed p ps (b.f p.s_floor)) (count_out-SameQueue p.kind (b.f p.s_floor)).serviced c
      (λ ne. refl)

boarded-Loaded :
    (c : ℕ) (p : Passenger) (ps taken rest : List Passenger) (b b' : Building)
    → p.s_floor ≡ c
    → (b.f c).waiting ≡ p ∷ ps
    → Heads b.e.direction p
    → Loaded c taken rest (boarded p ps b) b'
    → Loaded c (p ∷ taken) rest b b'
boarded-Loaded c p ps taken rest b b' at h way next =
    let same = board-SameCourse p.kind b.e in
    let now = λ (i : ℕ) (ne : i ≢ c).
      update_other b.f p.s_floor (departed p ps (b.f p.s_floor)) i (λ e. ne (e ∙ at)) in
    record {
      queue =
          h ∙ ap (λ (l : List Passenger). p ∷ l) (sym (boarded-waiting c p ps b at) ∙ next.queue);
      left = next.left;
      others = λ i ne. next.others i ne ∙ now i ne;
      serviced = next.serviced ∙ boarded-serviced c p ps b;
      riders = λ i. next.riders i ∙ boarded-riders p ps taken b i;
      directed = (way, subst (λ d. All (Heads d) taken) same.direction next.directed);
      stop = next.stop;
      control = record {
        status = next.control.status ∙ same.status;
        current = next.control.current ∙ same.current;
        next = next.control.next ∙ same.next;
        shutdown = next.control.shutdown ∙ same.shutdown;
        direction = next.control.direction ∙ same.direction;
      };
    }

load-go :
    (p : Passenger) (ps : List Passenger) (b b1 : Building)
    → (can_fit p b.e && (p_direction p == b.e.direction)) ≡ true
    → p.s_floor ≡ b.e.current
    → move_pass b p ≡ some b1
    → load (p ∷ ps) b ≡ load ps b1
unfolding load
load-go p ps b b1 fits here moved = ground arith

load-stop :
    (p : Passenger) (ps : List Passenger) (b : Building)
    → (can_fit p b.e && (p_direction p == b.e.direction)) ≡ false
    → load (p ∷ ps) b ≡ some b
unfolding load
load-stop p ps b full = rw full

module _ {leaked : ℕ → ℕ} where
  -- The loop never faults, keeps the invariant, and takes the longest part of the queue that fits.
  pub load-Loaded :
      (l : List Passenger) (c : ℕ) (m : Store)
      → StoreOk leaked m
      → m.b.e.current ≡ c
      → (m.b.f c).waiting ≡ l
      → (b' : Building) × (taken : List Passenger) × (rest : List Passenger) × (load l m.b
          ≡ some b')
        × StoreOk leaked (record m { b = b' })
        × Loaded c taken rest m.b b'
  unfolding load
  load-Loaded [] c m ok at h = (m.b, [], [], refl, ok, nobody-Loaded c [] m.b h tt)
  load-Loaded (p ∷ ps) c m ok at h =
      let lt : c < 10 = omega (arith, ok.motion.current) in
      let (known, start, end) = (subst (All (WaitsAt c)) h (ok.floors c lt).queue).0 in
      let ls : p.s_floor < 10 = omega arith in
      elim (Bool-cases (can_fit p m.b.e && (p_direction p == m.b.e.direction))) [
        | inl goes ↦
            let room = Boards-test m.b.e p known ok.elevator ls end goes in
            let queue : (m.b.f p.s_floor).waiting ≡ p ∷ ps =
              ap (λ (k : ℕ). (m.b.f k).waiting) start ∙ h in
            let (b', taken, rest, run, ok', next) =
              load-Loaded ps c (record m { b = boarded p ps m.b })
                (boarded-StoreOk ok p ps ls queue room)
                ((board-SameCourse p.kind m.b.e).current ∙ at) (boarded-waiting c p ps m.b start) in
            (
              b',
              p ∷ taken,
              rest,
              load-go p ps m.b (boarded p ps m.b) goes (start ∙ sym at)
                    (move_pass-boarded ok p ps ls queue)
                  ∙ run,
              ok',
              boarded-Loaded c p ps taken rest m.b b' start h room.2 next,
            )
        | inr full ↦ (
          m.b,
          [],
          p ∷ ps,
          load-stop p ps m.b full,
          ok,
          nobody-Loaded c (p ∷ ps) m.b h
              (λ room. cc (test_of_Boards m.b.e p known ok.elevator ls end room)),
        )
      ]
