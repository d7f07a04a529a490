-- ===== src/Elevator/System/Safety.antt =====
-- The invariant along the steps of the module.
use mathlib.Core.Option.{some-injective}
use cop4610_project.Base.{
  ℕ, ◌+◌, ◌≡◌, refl, ap, sym, ◌∙◌, subst, fun_ext, Bool, true, false, Option, none, some, List, [],
  ◌∷◌, ◌++◌, arith, All, All_middle, occurs, occurs-cons, occurs-append,
}
use cop4610_project.Elevator.Types.{Passenger, Building, Store}
use cop4610_project.Elevator.Thread.{first_section, second_section}
use cop4610_project.Elevator.Requests.{finish_request, new_passenger}
use cop4610_project.Elevator.Invariant.{StoreOk}
use cop4610_project.Elevator.Invariant.Servicing.{service-Serviced}
use cop4610_project.Elevator.Invariant.Advancing.{advance-Advanced}
use cop4610_project.Elevator.Invariant.Arriving.{
  held, allocated, allocated-StoreOk, IsValid, arrived, arrived-StoreOk,
}
use cop4610_project.Elevator.Invariant.Requesting.{
  InRange, Begun, begin_request-Begun, new_passenger-IsValid, finish_request-arrived,
  finish_request-interrupted, start_elevator-StoreOk, stop_elevator-StoreOk,
}
use cop4610_project.Elevator.System.{System, Step, Allowed, Reach}
use cop4610_project.Elevator.System.Start.{initial-StoreOk}

abbrev pub pending_blocks : System → (ℕ → ℕ) → ℕ → ℕ
pending_blocks s lost a = occurs (λ q. q.node) a s.pending + lost a

-- `lost` counts the blocks that interrupted calls forgot.
pub record SystemOk (lost : ℕ → ℕ) (s : System) : Type 0 where
  pub store : StoreOk (pending_blocks s lost) s.store
  pub pending : All IsValid s.pending

-- The invariant after a step; without signals no block is lost.
abbrev pub Kept : Bool → (ℕ → ℕ) → System → Type 0
Kept signals lost t = (more : ℕ → ℕ) × (signals ≡ false → more ≡ lost) × SystemOk more t

StoreOk-leaked : {l l' : ℕ → ℕ} {m : Store} → StoreOk l m → ((a : ℕ) → l a ≡ l' a) → StoreOk l' m
StoreOk-leaked {m = m} ok e = subst (λ l. StoreOk l m) (fun_ext e) ok

first_section-StoreOk :
    {leaked : ℕ → ℕ} (acquired : Bool) (m m' : Store)
    → StoreOk leaked m
    → first_section acquired m ≡ some m'
    → StoreOk leaked m'
unfolding first_section
first_section-StoreOk {leaked} false m m' ok e = subst (StoreOk leaked) (some-injective m m' e) ok
first_section-StoreOk {leaked} true m m' ok e =
    let (n, run, ok', what) = service-Serviced m ok in
    subst (StoreOk leaked) (some-injective n m' (sym run ∙ e)) ok'

second_section-StoreOk :
    {leaked : ℕ → ℕ} (acquired : Bool) (m : Store)
    → StoreOk leaked m
    → StoreOk leaked (second_section acquired m)
unfolding second_section
second_section-StoreOk false m ok = ok
second_section-StoreOk {leaked} true m ok =
    let (b', run, ok', what) = advance-Advanced m ok in
    subst (λ b. StoreOk leaked (record m { b = b })) (sym run) ok'

-- What a successful first half of a request says.
pub Begun-refused :
    {m : Store} {block : Option ℕ} {t s d : ℕ} {o : Option (Store × Option Passenger)}
    → Begun m block t s d o
    → (m' : Store) → o ≡ some (m', none)
    → m ≡ m'
Begun-refused {m} (Begun.turned_down no_way) m' e =
    ap (λ (r : Store × Option Passenger). r.0) (some-injective (m, none) (m', none) e)
Begun-refused (Begun.crashed range going null) m' e = cc
Begun-refused (Begun.taken {a} range going got) m' e = absurd (ground arith)

pub Begun-taken :
    {m : Store} {block : Option ℕ} {t s d : ℕ} {o : Option (Store × Option Passenger)}
    → Begun m block t s d o
    → (m' : Store) (p : Passenger) → o ≡ some (m', some p)
    → (a : ℕ) × (block ≡ some a)
      × (m' ≡ allocated a m)
      × (p ≡ new_passenger a t s d)
      × InRange t s d
Begun-taken (Begun.turned_down no_way) m' p e = absurd (ground arith)
Begun-taken (Begun.crashed range going null) m' p e = cc
Begun-taken {m} {t} {s} {d} (Begun.taken {a} range going got) m' p e =
    let both = some-injective (allocated a m, some (new_passenger a t s d)) (m', some p) e in
    (
      a,
      got,
      sym (ap (λ (r : Store × Option Passenger). r.0) both),
      sym (
          some-injective (new_passenger a t s d) p
            (ap (λ (r : Store × Option Passenger). r.1) both)),
      range,
    )

-- The block of a pending passenger, apart from the others.
taken_out :
    (lost : ℕ → ℕ) (pending before after : List Passenger) (p : Passenger)
    → pending ≡ before ++ p ∷ after
    → (a : ℕ)
    → occurs (λ q. q.node) a pending + lost a
      ≡ held p.node (λ x. occurs (λ q. q.node) x (before ++ after) + lost x) a
taken_out lost pending before after p at a =
    let on = occurs (λ (q : Passenger). q.node) a in
    omega (
      arith,
      ap on at,
      occurs-append (λ (q : Passenger). q.node) a before (p ∷ after),
      occurs-append (λ (q : Passenger). q.node) a before after,
      occurs-cons (λ (q : Passenger). q.node) a p after,
    )

enqueue-SystemOk :
    {lost : ℕ → ℕ} {signals : Bool} (s : System) (m' : Store) (acquired : Bool)
    (before after : List Passenger) (p : Passenger)
    → SystemOk lost s
    → s.pending ≡ before ++ p ∷ after
    → Allowed signals acquired
    → finish_request acquired p s.store ≡ some m'
    → Kept signals lost (record s { store = m'; pending = before ++ after })
enqueue-SystemOk {lost} s m' true before after p ok at allowed run =
    let (valid, others) = All_middle IsValid before p after (subst (All IsValid) at ok.pending) in
    let left = λ (x : ℕ). occurs (λ (q : Passenger). q.node) x (before ++ after) + lost x in
    let apart = StoreOk-leaked ok.store (taken_out lost s.pending before after p at) in
    (
      lost,
      λ h. refl,
      record {
        store =
            subst (StoreOk left)
              (some-injective (record (s.store) { b = arrived p s.store.b }) m'
                (sym (finish_request-arrived s.store p valid) ∙ run))
              (arrived-StoreOk left s.store p apart valid);
        pending = others;
      },
    )
enqueue-SystemOk {lost} s m' false before after p ok at allowed run =
    let others = (All_middle IsValid before p after (subst (All IsValid) at ok.pending)).1 in
    let same = some-injective s.store m' (sym (finish_request-interrupted s.store p) ∙ run) in
    (
      held p.node lost,
      λ h. cc (allowed h),
      record {
        store =
            StoreOk-leaked (subst (StoreOk (pending_blocks s lost)) same ok.store)
              (λ a. taken_out lost s.pending before after p at a ∙ omega arith);
        pending = others;
      },
    )

pub Step-SystemOk :
    {lost : ℕ → ℕ} {signals : Bool} {s t : System}
    → SystemOk lost s
    → Step signals s t
    → Kept signals lost t
Step-SystemOk {lost} ok (Step.first {s} {m'} acquired at allowed run) = (
  lost,
  λ h. refl,
  record { store = first_section-StoreOk acquired s.store m' ok.store run; pending = ok.pending },
)
Step-SystemOk {lost} ok (Step.second {s} acquired at allowed) = (
  lost,
  λ h. refl,
  record { store = second_section-StoreOk acquired s.store ok.store; pending = ok.pending },
)
Step-SystemOk {lost} ok (Step.should_stop at) =
    (lost, λ h. refl, record { store = ok.store; pending = ok.pending })
Step-SystemOk {lost} ok (Step.refuse {s} {m'} block t f d ints fresh run) =
    let same = Begun-refused (begin_request-Begun s.store block t f d ints) m' run in
    (
      lost,
      λ h. refl,
      record {
        store = subst (StoreOk (pending_blocks s lost)) same ok.store;
        pending = ok.pending;
      },
    )
Step-SystemOk {lost} ok (Step.request {s} {m'} {p} block t f d ints fresh run) =
    let (a, got, new, who, range) =
      Begun-taken (begin_request-Begun s.store block t f d ints) m' p run in
    let grown = allocated-StoreOk s.store a ok.store (fresh a got) in
    let at_node : p.node ≡ a = ap (λ (q : Passenger). q.node) who in
    (
      lost,
      λ h. refl,
      record {
        store =
            StoreOk-leaked (subst (StoreOk (held a (pending_blocks s lost))) (sym new) grown)
              (λ x. ground (arith, occurs-cons (λ (q : Passenger). q.node) x p s.pending));
        pending = (subst IsValid (sym who) (new_passenger-IsValid a t f d range), ok.pending);
      },
    )
Step-SystemOk ok (Step.enqueue {s} {m'} acquired before after p at allowed run) =
    enqueue-SystemOk s m' acquired before after p ok at allowed run
Step-SystemOk {lost} ok (Step.start {s} acquired allowed) = (
  lost,
  λ h. refl,
  record { store = start_elevator-StoreOk s.store acquired ok.store; pending = ok.pending },
)
Step-SystemOk {lost} ok (Step.stop {s} acquired allowed) = (
  lost,
  λ h. refl,
  record { store = stop_elevator-StoreOk s.store acquired ok.store; pending = ok.pending },
)

-- In every state that the module can reach the invariant holds; without signals no block is lost.
pub Reach-SystemOk :
    {signals : Bool} {b : Building} {s : System}
    → Reach signals b s
    → (lost : ℕ → ℕ) × (signals ≡ false → lost ≡ (λ a. 0)) × SystemOk lost s
unfolding occurs
Reach-SystemOk {b = b} Reach.begin = (
  λ a. 0,
  λ h. refl,
  record { store = StoreOk-leaked (initial-StoreOk b) (λ a. no_block a); pending = tt },
)
  where
    no_block : (a : ℕ) → 0 ≡ occurs {A = Passenger} (λ q. q.node) a [] + 0
    no_block a = omega arith
Reach-SystemOk (Reach.next r step) =
    let (lost, none_lost, ok) = Reach-SystemOk r in
    let (more, same, ok') = Step-SystemOk ok step in (more, λ h. same h ∙ none_lost h, ok')
