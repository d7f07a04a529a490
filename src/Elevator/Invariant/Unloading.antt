-- ===== src/Elevator/Invariant/Unloading.antt =====
-- The loop of runElevator over the passengers who get off at the current floor.
use cop4610_project.Base.{
  ℕ, ◌+◌, ◌%◌, ◌^◌, ◌<◌, ◌≡◌, ◌≢◌, refl, ap, sym, ◌∙◌, false, ◌==◌, if◌then◌else◌, some, List, [],
  ◌∷◌, arith, occurs, occurs-cons, tally, tally-cons, update_self, update_other, update_each,
}
use cop4610_project.Elevator.Types.{Passenger, Floors, Store}
use cop4610_project.Elevator.Building.{del_pass}
use cop4610_project.Elevator.Thread.{unload}
use cop4610_project.Elevator.Invariant.{StoreOk}
use cop4610_project.Elevator.Invariant.Counters.{SameControl, alight-SameCourse}
use cop4610_project.Elevator.Invariant.Alighting.{
  alighted, served, rides, served-waiting, del_pass-alighted, alighted-StoreOk,
}

-- 1 for a passenger who started on floor `i`
abbrev pub from : ℕ → Passenger → ℕ
from i p = if p.s_floor == i then 1 else 0

-- Everybody for floor `c` got off: the blocks are freed, and the floors that these passengers came
-- from count them as serviced. The waiting lists and the lists for the other floors are as before.
pub record Unloaded (c : ℕ) (m m' : Store) : Type 0 where
  pub emptied : m'.b.e.p c ≡ []
  pub others : (i : ℕ) → i ≢ c → m'.b.e.p i ≡ m.b.e.p i
  pub waiting : (i : ℕ) → (m'.b.f i).waiting ≡ (m.b.f i).waiting
  pub serviced :
      (i : ℕ)
      → i < 10
      → (m'.b.f i).serviced ≡ ((m.b.f i).serviced + tally (from i) (m.b.e.p c)) % 2 ^ 32
  pub freed :
      (a : ℕ) → m'.live a ≡ (if occurs (λ q. q.node) a (m.b.e.p c) == 0 then m.live a else false)
  pub control : SameControl m.b.e m'.b.e

served-serviced :
    (p : Passenger) (f : ℕ → Floors) (i : ℕ)
    → (f i).serviced < 2 ^ 32
    → (served p.s_floor f i).serviced ≡ ((f i).serviced + from i p) % 2 ^ 32
served-serviced p f i small =
    update_each
      (λ k (fl : Floors).
        (f k).serviced < 2 ^ 32 → fl.serviced ≡ ((f k).serviced + from k p) % 2 ^ 32)
      f p.s_floor _ (λ le. ground arith) i (λ ne le. ground arith) small

unload-cons :
    (p : Passenger) (ps : List Passenger) (m m1 : Store)
    → p.d_floor ≡ m.b.e.current
    → del_pass m p ≡ some m1
    → unload (p ∷ ps) m ≡ unload ps m1
unfolding unload
unload-cons p ps m m1 here off = ground arith

module _ {leaked : ℕ → ℕ} where
  pub nobody-Unloaded : (c : ℕ) (m : Store) → StoreOk leaked m → m.b.e.p c ≡ [] → Unloaded c m m
  unfolding occurs tally
  nobody-Unloaded c m ok h = record {
    emptied = h;
    others = λ i ne. refl;
    waiting = λ i. refl;
    serviced = λ i li. rw h (omega (arith, (ok.floors i li).serviced));
    freed = λ a. rw h;
    control = record {
      status = refl;
      current = refl;
      next = refl;
      shutdown = refl;
      direction = refl;
    };
  }

  -- One passenger, and then the others.
  alighted-Unloaded :
      (c : ℕ) (p : Passenger) (ps : List Passenger) (m m' : Store)
      → StoreOk leaked m
      → c < 10
      → m.b.e.p c ≡ p ∷ ps
      → Unloaded c (alighted c p ps m) m'
      → Unloaded c m m'
  alighted-Unloaded c p ps m m' ok lt h u =
      let same = alight-SameCourse p.kind m.b.e in
      record {
        emptied = u.emptied;
        others = λ i ne. u.others i ne ∙ update_other m.b.e.p c ps i ne;
        waiting = λ i. u.waiting i ∙ served-waiting p.s_floor m.b.f i;
        serviced = λ i li. omega (
          arith,
          u.serviced i li,
          served-serviced p m.b.f i (ok.floors i li).serviced,
          ap (tally (from i)) (update_self m.b.e.p c ps),
          ap (tally (from i)) h,
          tally-cons (from i) p ps,
        );
        freed = λ a. ground (
          arith,
          u.freed a,
          ap (occurs (λ (q : Passenger). q.node) a) (update_self m.b.e.p c ps),
          ap (occurs (λ (q : Passenger). q.node) a) h,
          occurs-cons (λ (q : Passenger). q.node) a p ps,
        );
        control = record {
          status = u.control.status ∙ same.status;
          current = u.control.current ∙ same.current;
          next = u.control.next ∙ same.next;
          shutdown = u.control.shutdown ∙ same.shutdown;
          direction = u.control.direction ∙ same.direction;
        };
      }

  -- The loop never faults, keeps the invariant, and lets off exactly the passengers for this floor.
  pub unload-Unloaded :
      (l : List Passenger) (c : ℕ) (m : Store)
      → StoreOk leaked m
      → m.b.e.current ≡ c
      → m.b.e.p c ≡ l
      → (m' : Store) × (unload l m ≡ some m') × StoreOk leaked m' × Unloaded c m m'
  unfolding unload
  unload-Unloaded [] c m ok at h = (m, refl, ok, nobody-Unloaded c m ok h)
  unload-Unloaded (p ∷ ps) c m ok at h =
      let lt : c < 10 = omega (arith, ok.motion.current) in
      let to_here : p.d_floor ≡ c = (rides ok c p ps lt h).0.1 in
      let (m', run, ok', u) =
        unload-Unloaded ps c (alighted c p ps m) (alighted-StoreOk ok c p ps lt h)
          ((alight-SameCourse p.kind m.b.e).current ∙ at) (update_self m.b.e.p c ps) in
      (
        m',
        unload-cons p ps m (alighted c p ps m) (to_here ∙ sym at) (del_pass-alighted ok c p ps lt h)
            ∙ run,
        ok',
        alighted-Unloaded c p ps m m' ok lt h u,
      )
