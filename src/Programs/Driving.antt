-- ===== src/Programs/Driving.antt =====
-- What driver.c leaves in the building.
use cop4610_project.Base.{
  ℕ, ◌+◌, ◌-◌, ◌*◌, ◌≤◌, ◌<◌, ◌≡◌, ◌≢◌, refl, ap, ◌∙◌, subst, true, false, some, List, [], ◌∷◌,
  ◌++◌, arith, update, update_self, update_other, sub32,
}
use mathlib.Core.List.{append_assoc}
use cop4610_project.Elevator.Types.{Passenger, Floors}
use cop4610_project.Elevator.Requests.{issue_request, new_passenger, refused}
use cop4610_project.Elevator.Invariant.Counters.{count_in-SameQueue}
use cop4610_project.Elevator.Invariant.Arriving.{longer}
use cop4610_project.Elevator.Invariant.Requesting.{InRange, begin_request-refused}
use cop4610_project.Elevator.Kernel.{Kernel, sys_issue_request}
use cop4610_project.Programs.{Turn, issue_request_wrapper, driver_round, driver_loop, driver_main}
use cop4610_project.Programs.Accepted.{IsReady, queued_in, accepted_run, accepted-IsReady}

-- Every call gets the lock, and call number `j` the block at `addr j`.
abbrev pub smooth : (addr : ℕ → ℕ) → ℕ → Turn
smooth addr j = record { acquired = true; block = some (addr j) }

-- The four passengers of round `i`.
abbrev pub party : (addr : ℕ → ℕ) (i : ℕ) → List Passenger
party addr i =
    new_passenger (addr (4 * i)) 1 i ((i + 1) * 2)
    ∷ new_passenger (addr (4 * i + 1)) 2 i ((i + 1) * 2)
    ∷ new_passenger (addr (4 * i + 2)) 3 i ((i + 1) * 2)
    ∷ new_passenger (addr (4 * i + 3)) 4 i ((i + 1) * 2)
    ∷ []

-- The blocks of the calls from number `m` to below `n` are free.
abbrev pub FreeBlocks : (addr : ℕ → ℕ) (m n : ℕ) → Kernel → Type 0
FreeBlocks addr m n k = (j : ℕ) → m ≤ j → j < n → k.store.live (addr j) ≡ false

-- No two of these blocks are the same.
abbrev pub AreApart : (addr : ℕ → ℕ) (m n : ℕ) → Type 0
AreApart addr m n = (i j : ℕ) → m ≤ i → i < j → j < n → addr j ≢ addr i

module _ (a t s d : ℕ) (k : Kernel) (low : 1 ≤ s) (high : s ≤ 10) where
  queued_here :
      ((queued_in a t s d k).store.b.f (s - 1)).waiting
      ≡ (k.store.b.f (s - 1)).waiting ++ new_passenger a t s d ∷ []
  queued_here =
      let p = new_passenger a t s d in
      let f = k.store.b.f in
      let at : p.s_floor ≡ s - 1 = omega arith in
      subst (λ i. (update f p.s_floor (longer p (f p.s_floor)) i).waiting ≡ (f i).waiting ++ p ∷ [])
        at
        (ap (λ (fl : Floors). fl.waiting) (update_self f p.s_floor (longer p (f p.s_floor)))
          ∙ (count_in-SameQueue p.kind _).waiting)

  queued_elsewhere :
      (j : ℕ) → j ≢ s - 1 → ((queued_in a t s d k).store.b.f j).waiting ≡ (k.store.b.f j).waiting
  queued_elsewhere j ne =
      ap (λ (fl : Floors). fl.waiting)
        (update_other k.store.b.f (sub32 s 1) _ j (λ e. ne (e ∙ omega arith)))

regroup :
    (l : List Passenger) (a b c d : Passenger)
    → (((l ++ a ∷ []) ++ b ∷ []) ++ c ∷ []) ++ d ∷ [] ≡ l ++ a ∷ b ∷ c ∷ d ∷ []
regroup l a b c d = simp append_assoc

refused_run :
    (turn : Turn) (t d : ℕ) (k : Kernel)
    → k.stubs.issue ≡ true
    → issue_request_wrapper turn t 0 d k ≡ some (k, 1)
unfolding issue_request_wrapper sys_issue_request issue_request
refused_run turn t d k linked =
    let no_way : refused k.store t 0 d ≡ true = ground arith in
    rw (linked, begin_request-refused k.store turn.block t 0 d no_way)

round_zero :
    (turns : ℕ → Turn) (k : Kernel) → k.stubs.issue ≡ true → driver_round turns 0 k ≡ some k
unfolding driver_round
round_zero turns k linked = rw (
  refused_run (turns (4 * 0)) 1 ((0 + 1) * 2) k linked,
  refused_run (turns (4 * 0 + 1)) 2 ((0 + 1) * 2) k linked,
  refused_run (turns (4 * 0 + 2)) 3 ((0 + 1) * 2) k linked,
  refused_run (turns (4 * 0 + 3)) 4 ((0 + 1) * 2) k linked,
)

-- What a round with floors that exist does.
record Rounded (leaked addr : ℕ → ℕ) (i : ℕ) (k k' : Kernel) : Type 0 where
  ready : IsReady leaked k'
  queue : (k'.store.b.f (i - 1)).waiting ≡ (k.store.b.f (i - 1)).waiting ++ party addr i
  others : (j : ℕ) → j ≢ i - 1 → (k'.store.b.f j).waiting ≡ (k.store.b.f j).waiting
  free :
      (x : ℕ)
      → ((j : ℕ) → 4 * i ≤ j → j < 4 * i + 4 → x ≢ addr j)
      → k'.store.live x ≡ k.store.live x

-- What a request from a floor that exists does.
record Joined (leaked : ℕ → ℕ) (a t i d : ℕ) (k k' : Kernel) : Type 0 where
  ready : IsReady leaked k'
  queue :
      (k'.store.b.f (i - 1)).waiting ≡ (k.store.b.f (i - 1)).waiting ++ new_passenger a t i d ∷ []
  others : (j : ℕ) → j ≢ i - 1 → (k'.store.b.f j).waiting ≡ (k.store.b.f j).waiting
  free : (x : ℕ) → x ≢ a → k'.store.live x ≡ k.store.live x

request_joins :
    {leaked : ℕ → ℕ} (a t i : ℕ) (k : Kernel)
    → 1 ≤ t
    → t ≤ 4
    → 1 ≤ i
    → i ≤ 4
    → IsReady leaked k
    → k.store.live a ≡ false
    → (k' : Kernel) × (issue_request_wrapper
          (record { acquired = true; block = some a })
          t
          i
          ((i + 1) * 2)
          k
        ≡ some (k', 0))
      × Joined leaked a t i ((i + 1) * 2) k k'
request_joins a t i k lt ht low high ready free =
    let d = (i + 1) * 2 in
    let range : InRange t i d = record {
      type_low = lt;
      type_high = ht;
      s_low = low;
      s_high = omega arith;
      d_low = omega arith;
      d_high = omega arith;
    } in
    (
      queued_in a t i d k,
      accepted_run k a t i d ready range free,
      record {
        ready = accepted-IsReady k a t i d ready range free;
        queue = queued_here a t i d k low (omega arith);
        others = queued_elsewhere a t i d k low (omega arith);
        free = λ x ne. ground arith;
      },
    )

round_lem :
    {leaked : ℕ → ℕ} (addr : ℕ → ℕ) (i : ℕ) (k : Kernel)
    → 1 ≤ i
    → i ≤ 4
    → IsReady leaked k
    → FreeBlocks addr (4 * i) (4 * i + 4) k
    → AreApart addr (4 * i) (4 * i + 4)
    → (k' : Kernel) × (driver_round (smooth addr) i k ≡ some k') × Rounded leaked addr i k k'
unfolding driver_round
round_lem addr i k low high ready free apart =
    let a1 = addr (4 * i) in
    let a2 = addr (4 * i + 1) in
    let a3 = addr (4 * i + 2) in
    let a4 = addr (4 * i + 3) in
    let p1 = new_passenger a1 1 i ((i + 1) * 2) in
    let p2 = new_passenger a2 2 i ((i + 1) * 2) in
    let p3 = new_passenger a3 3 i ((i + 1) * 2) in
    let p4 = new_passenger a4 4 i ((i + 1) * 2) in
    let (k1, run1, j1) =
      request_joins a1 1 i k (omega arith) (omega arith) low high ready
        (free (4 * i) (omega arith) (omega arith)) in
    let (k2, run2, j2) = request_joins a2 2 i k1 (omega arith) (omega arith) low high j1.ready (
      j1.free a2 (apart (4 * i) (4 * i + 1) (omega arith) (omega arith) (omega arith))
      ∙ free (4 * i + 1) (omega arith) (omega arith)) in
    let (k3, run3, j3) = request_joins a3 3 i k2 (omega arith) (omega arith) low high j2.ready (
      j2.free a3 (apart (4 * i + 1) (4 * i + 2) (omega arith) (omega arith) (omega arith))
      ∙ j1.free a3 (apart (4 * i) (4 * i + 2) (omega arith) (omega arith) (omega arith))
      ∙ free (4 * i + 2) (omega arith) (omega arith)) in
    let (k4, run4, j4) = request_joins a4 4 i k3 (omega arith) (omega arith) low high j3.ready (
      j3.free a4 (apart (4 * i + 2) (4 * i + 3) (omega arith) (omega arith) (omega arith))
      ∙ j2.free a4 (apart (4 * i + 1) (4 * i + 3) (omega arith) (omega arith) (omega arith))
      ∙ j1.free a4 (apart (4 * i) (4 * i + 3) (omega arith) (omega arith) (omega arith))
      ∙ free (4 * i + 3) (omega arith) (omega arith)) in
    let after = λ (q : List Passenger) (p : Passenger). q ++ p ∷ [] in
    (
      k4,
      rw (run1, run2, run3, run4) refl,
      record {
        ready = j4.ready;
        queue =
            j4.queue
            ∙ ap (λ q. after q p4)
                (j3.queue ∙ ap (λ q. after q p3) (j2.queue ∙ ap (λ q. after q p2) j1.queue))
            ∙ regroup (k.store.b.f (i - 1)).waiting p1 p2 p3 p4;
        others = λ j ne. j4.others j ne ∙ j3.others j ne ∙ j2.others j ne ∙ j1.others j ne;
        free = λ x le.
            j4.free x (le (4 * i + 3) (omega arith) (omega arith))
            ∙ j3.free x (le (4 * i + 2) (omega arith) (omega arith))
            ∙ j2.free x (le (4 * i + 1) (omega arith) (omega arith))
            ∙ j1.free x (le (4 * i) (omega arith) (omega arith));
      },
    )

-- driver.c on a module that is ready, run alone with no signal and with memory, at any addresses
-- that are free and different: it returns 0 and prints nothing. Its requests from floor 0 are turned down, and one passenger of each type joins the
-- queue of the first floor, and one of each that of the second; the other queues are as before.
pub driver_fills_two :
    {leaked : ℕ → ℕ} (addr : ℕ → ℕ) (k : Kernel)
    → IsReady leaked k
    → FreeBlocks addr 4 12 k
    → AreApart addr 4 12
    → (k' : Kernel) × (driver_main 1 (smooth addr) k ≡ some (k', [], 0))
      × IsReady leaked k'
      × ((k'.store.b.f 0).waiting ≡ (k.store.b.f 0).waiting ++ party addr 1)
      × ((k'.store.b.f 1).waiting ≡ (k.store.b.f 1).waiting ++ party addr 2)
      × ((j : ℕ) → 2 ≤ j → (k'.store.b.f j).waiting ≡ (k.store.b.f j).waiting)
unfolding driver_main driver_loop
driver_fills_two addr k ready free apart =
    let (k1, run1, one) =
      round_lem addr 1 k (omega arith) (omega arith) ready
        (λ j low high. free j (omega arith) (omega arith))
        (λ i j low lt high. apart i j (omega arith) lt (omega arith)) in
    let (k2, run2, two) =
      round_lem addr 2 k1 (omega arith) (omega arith) one.ready
        (λ j low high.
          one.free (addr j) (λ i from below. apart i j (omega arith) (omega arith) (omega arith))
          ∙ free j (omega arith) (omega arith))
        (λ i j low lt high. apart i j (omega arith) lt (omega arith)) in
    (
      k2,
      rw (round_zero (smooth addr) k ready.linked, run1, run2),
      two.ready,
      two.others 0 (omega arith) ∙ one.queue,
      two.queue ∙ ap (λ l. l ++ party addr 2) (one.others 1 (omega arith)),
      λ j le. two.others j (omega arith) ∙ one.others j (omega arith),
    )
