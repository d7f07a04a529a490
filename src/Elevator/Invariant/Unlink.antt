-- ===== src/Elevator/Invariant/Unlink.antt =====
-- list_del on a node that heads one list and stands in no other.
use native.Mathlib.Decide.{dec_lt, ℕ_discrete}
use cop4610_project.Base.{
  ℕ, ◌+◌, ◌≤◌, ◌<◌, ◌≡◌, ◌≢◌, ap₂, ◌∙◌, fun_ext, if◌then◌else◌, ltb, List, ◌∷◌, arith, occurs,
  without, without_absent, without_head, update, elem-le-sum_below, two-le-sum_below,
}
use cop4610_project.Elevator.Types.{Passenger, Floors, Building}
use cop4610_project.Elevator.Building.{list_del}
use cop4610_project.Elevator.Invariant.{placed}

-- The node stands nowhere but at the head of the list for floor `c`.
pub record RidesAlone (b : Building) (c : ℕ) (p : Passenger) (ps : List Passenger) : Type 0 where
  pub head : b.e.p c ≡ p ∷ ps
  pub rest : occurs (λ q. q.node) p.node ps ≡ 0
  pub riding : (i : ℕ) → i < 10 → i ≢ c → occurs (λ q. q.node) p.node (b.e.p i) ≡ 0
  pub waiting : (i : ℕ) → i < 10 → occurs (λ q. q.node) p.node (b.f i).waiting ≡ 0

pub record WaitsAlone (b : Building) (c : ℕ) (p : Passenger) (ps : List Passenger) : Type 0 where
  pub head : (b.f c).waiting ≡ p ∷ ps
  pub rest : occurs (λ q. q.node) p.node ps ≡ 0
  pub waiting : (i : ℕ) → i < 10 → i ≢ c → occurs (λ q. q.node) p.node (b.f i).waiting ≡ 0
  pub riding : (i : ℕ) → i < 10 → occurs (λ q. q.node) p.node (b.e.p i) ≡ 0

module _ (b : Building) (c : ℕ) (p : Passenger) (ps : List Passenger) (lt : c < 10)
    (once : placed p.node b ≤ 1) where
  pub RidesAlone-placed : b.e.p c ≡ p ∷ ps → RidesAlone b c p ps
  unfolding occurs
  RidesAlone-placed h =
      let riding = λ (i : ℕ). occurs (λ (q : Passenger). q.node) p.node (b.e.p i) in
      let queued = λ (i : ℕ). occurs (λ (q : Passenger). q.node) p.node (b.f i).waiting in
      let here : riding c ≡ 1 + occurs (λ q. q.node) p.node ps = rw h (ground arith) in
      record {
        head = h;
        rest = omega (arith, elem-le-sum_below 10 riding c lt);
        riding = λ i li ne. omega (arith, two-le-sum_below 10 riding c i lt li ne);
        waiting = λ i li.
            omega (arith, elem-le-sum_below 10 riding c lt, elem-le-sum_below 10 queued i li);
      }

  pub WaitsAlone-placed : (b.f c).waiting ≡ p ∷ ps → WaitsAlone b c p ps
  unfolding occurs
  WaitsAlone-placed h =
      let riding = λ (i : ℕ). occurs (λ (q : Passenger). q.node) p.node (b.e.p i) in
      let queued = λ (i : ℕ). occurs (λ (q : Passenger). q.node) p.node (b.f i).waiting in
      let here : queued c ≡ 1 + occurs (λ q. q.node) p.node ps = rw h (ground arith) in
      record {
        head = h;
        rest = omega (arith, elem-le-sum_below 10 queued c lt);
        waiting = λ i li ne. omega (arith, two-le-sum_below 10 queued c i lt li ne);
        riding = λ i li.
            omega (arith, elem-le-sum_below 10 queued c lt, elem-le-sum_below 10 riding i li);
      }

-- One array after list_del.
swept_lists :
    (a : ℕ) (q : ℕ → List Passenger) (i : ℕ)
    → (i < 10 → occurs (λ r. r.node) a (q i) ≡ 0)
    → (if ltb i 10 then without (λ r. r.node) a (q i) else q i) ≡ q i
swept_lists a q i h = elim (dec_lt i 10) [
  | yes low ↦ ground (arith, without_absent (λ (r : Passenger). r.node) a (q i) (h low))
  | no high ↦ ground arith
]

swept_floors :
    (a : ℕ) (f : ℕ → Floors) (i : ℕ)
    → (i < 10 → occurs (λ r. r.node) a (f i).waiting ≡ 0)
    → (if ltb i 10 then record (f i) { waiting = without (λ r. r.node) a (f i).waiting } else f i)
      ≡ f i
swept_floors a f i h = elim (dec_lt i 10) [
  | yes low ↦ ground (arith, without_absent (λ (r : Passenger). r.node) a (f i).waiting (h low))
  | no high ↦ ground arith
]

pub list_del-aboard :
    {b : Building} {c : ℕ} {p : Passenger} {ps : List Passenger}
    → c < 10
    → RidesAlone b c p ps
    → list_del p.node b ≡ record b { e = record (b.e) { p = update b.e.p c ps } }
unfolding list_del
list_del-aboard {b} {c} {p} {ps} lt h =
    ap₂ {C = Building} (λ f q. record { f = f; e = record (b.e) { p = q } })
      (fun_ext λ i. swept_floors p.node b.f i (h.waiting i)) (fun_ext λ i. riding i)
  where
    riding :
        (i : ℕ)
        → (if ltb i 10 then without (λ r. r.node) p.node (b.e.p i) else b.e.p i)
          ≡ update b.e.p c ps i
    riding i = elim (ℕ_discrete i c) [
      | yes e ↦ rw (e, h.head) ground (arith, without_head (λ (r : Passenger). r.node) p ps h.rest)
      | no ne ↦ swept_lists p.node b.e.p i (λ li. h.riding i li ne) ∙ ground arith
    ]

pub list_del-waiting :
    {b : Building} {c : ℕ} {p : Passenger} {ps : List Passenger}
    → c < 10
    → WaitsAlone b c p ps
    → list_del p.node b ≡ record b { f = update b.f c (record (b.f c) { waiting = ps }) }
unfolding list_del
list_del-waiting {b} {c} {p} {ps} lt h =
    ap₂ {C = Building} (λ f q. record { f = f; e = record (b.e) { p = q } })
      (fun_ext λ i. waiting i) (fun_ext λ i. swept_lists p.node b.e.p i (h.riding i))
  where
    waiting :
        (i : ℕ)
        → (if ltb i 10
            then record (b.f i) { waiting = without (λ r. r.node) p.node (b.f i).waiting }
            else b.f i)
          ≡ update b.f c (record (b.f c) { waiting = ps }) i
    waiting i = elim (ℕ_discrete i c) [
      | yes e ↦ rw (e, h.head) ground (arith, without_head (λ (r : Passenger). r.node) p ps h.rest)
      | no ne ↦ swept_floors p.node b.f i (λ li. h.waiting i li ne) ∙ ground arith
    ]
