-- ===== src/Elevator/Invariant/Servicing.antt =====
-- The first critical section of runElevator: unloading, then loading, at the current floor.
use cop4610_project.Base.{
  ℕ, ◌<◌, ◌≡◌, ◌≢◌, ◌⊎◌, refl, sym, ◌∙◌, subst, Bool, true, false, not, ◌||◌, ◌==◌, some, List, [],
  ◌∷◌, arith, Bool-cases, inl, inr, is_empty, get_elem?-lt,
}
use cop4610_project.Elevator.Types.{offline, loading, Passenger, Building, Store}
use cop4610_project.Elevator.Thread.{is_offline, set_status, unload_floor, load_floor, service}
use cop4610_project.Elevator.Invariant.{StoreOk}
use cop4610_project.Elevator.Invariant.Control.{
  set_status-StoreOk, offline_of_test, not_offline_of_test,
}
use cop4610_project.Elevator.Invariant.Unloading.{Unloaded, nobody-Unloaded, unload-Unloaded}
use cop4610_project.Elevator.Invariant.Loading.{Loaded, nobody-Loaded, load-Loaded}

pub is_empty-true {ℓ} : {A : Type ℓ} (l : List A) → is_empty l ≡ true → l ≡ []
is_empty-true [] h = refl
is_empty-true (x ∷ l) h = cc

pub is_empty-false {ℓ} : {A : Type ℓ} (l : List A) → is_empty l ≡ false → l ≢ []
is_empty-false l h e = ground arith

-- At floor `c` everybody for it gets off; then, unless a shutdown was asked for, the queue boards as
-- far as it fits.
pub record FloorServed (c : ℕ) (m m' : Store) : Type 0 where
  pub between : Store
  pub off : Unloaded c (set_status loading m) between
  pub on :
      m.b.e.shutdown ≢ 1
      → (taken : List Passenger) × (rest : List Passenger) × Loaded c taken rest between.b m'.b
  pub closed : m.b.e.shutdown ≡ 1 → m' ≡ between
  pub blocks : m'.live ≡ between.live

-- The three outcomes of the section.
pub data Serviced (m : Store) : Store → Type 0 where
  asleep : m.b.e.status ≡ offline → Serviced m m
  vacant :
      m.b.e.status ≢ offline
      → (m.b.f m.b.e.current).waiting ≡ []
      → m.b.e.p m.b.e.current ≡ []
      → Serviced m m
  served :
      {m' : Store}
      → m.b.e.status ≢ offline
      → ((m.b.f m.b.e.current).waiting ≢ []) ⊎ (m.b.e.p m.b.e.current ≢ [])
      → FloorServed m.b.e.current m m'
      → Serviced m m'

module _ {leaked : ℕ → ℕ} (m : Store) (ok : StoreOk leaked m) where
  pub unload_floor-Unloaded :
      (m' : Store) × (unload_floor m ≡ some m') × StoreOk leaked m' × Unloaded m.b.e.current m m'
  unfolding unload_floor
  unload_floor-Unloaded =
      let c = m.b.e.current in
      let lt : c < 10 = ok.motion.current in
      elim (Bool-cases (is_empty (m.b.e.p c))) [
        | inl nobody ↦ (
          m,
          rw (get_elem?-lt m.b.e.p c lt, nobody),
          ok,
          nobody-Unloaded c m ok (is_empty-true (m.b.e.p c) nobody),
        )
        | inr some_one ↦
            let (m', run, ok', off) = unload-Unloaded (m.b.e.p c) c m ok refl refl in
            (m', rw (get_elem?-lt m.b.e.p c lt, some_one) run, ok', off)
      ]

  pub load_floor-Loaded :
      m.b.e.shutdown ≢ 1
      → (b' : Building) × (taken : List Passenger) × (rest : List Passenger) × (load_floor m
          ≡ some (record m { b = b' }))
        × StoreOk leaked (record m { b = b' })
        × Loaded m.b.e.current taken rest m.b b'
  unfolding load_floor
  load_floor-Loaded going =
      let c = m.b.e.current in
      let lt : c < 10 = ok.motion.current in
      let go : (m.b.e.shutdown == 1) ≡ false = ground arith in
      let queue = (m.b.f c).waiting in
      elim (Bool-cases (is_empty queue)) [
        | inl nobody ↦
            let none_here = is_empty-true queue nobody in
            (
              m.b,
              [],
              [],
              rw (get_elem?-lt m.b.f c lt, nobody),
              ok,
              nobody-Loaded c [] m.b none_here tt,
            )
        | inr some_one ↦
            let (b', taken, rest, run, ok', on) = load-Loaded queue c m ok refl refl in
            (b', taken, rest, rw (get_elem?-lt m.b.f c lt, some_one, go, run), ok', on)
      ]

  pub load_floor-closed : m.b.e.shutdown ≡ 1 → load_floor m ≡ some m
  unfolding load_floor
  load_floor-closed h = rw (get_elem?-lt m.b.f m.b.e.current ok.motion.current) (ground arith)

-- The guard of the section.
abbrev pub busy : Store → Bool
busy m = not (is_empty (m.b.f m.b.e.current).waiting) || not (is_empty (m.b.e.p m.b.e.current))

service-busy :
    (m m1 : Store)
    → is_offline m.b.e.status ≡ false
    → m.b.e.current < 10
    → busy m ≡ true
    → unload_floor (set_status loading m) ≡ some m1
    → service m ≡ load_floor m1
unfolding service
service-busy m m1 active lt some_one off = rw (
  active,
  get_elem?-lt m.b.f m.b.e.current lt,
  get_elem?-lt m.b.e.p m.b.e.current lt,
  some_one,
  off,
)

pub service-vacant :
    (m : Store)
    → is_offline m.b.e.status ≡ false
    → m.b.e.current < 10
    → busy m ≡ false
    → service m ≡ some m
unfolding service
service-vacant m active lt nobody =
    rw (active, get_elem?-lt m.b.f m.b.e.current lt, get_elem?-lt m.b.e.p m.b.e.current lt, nobody)

service-offline : (m : Store) → is_offline m.b.e.status ≡ true → service m ≡ some m
unfolding service
service-offline m off = rw off

busy-true :
    (m : Store)
    → busy m ≡ true
    → ((m.b.f m.b.e.current).waiting ≢ []) ⊎ (m.b.e.p m.b.e.current ≢ [])
busy-true m h = elim (Bool-cases (is_empty (m.b.f m.b.e.current).waiting)) [
  | inl e ↦ inr (is_empty-false (m.b.e.p m.b.e.current) (ground arith))
  | inr ne ↦ inl (is_empty-false (m.b.f m.b.e.current).waiting ne)
]

module _ {leaked : ℕ → ℕ} (m : Store) (ok : StoreOk leaked m) where
  busy-Serviced :
      is_offline m.b.e.status ≡ false
      → busy m ≡ true
      → (m' : Store) × (service m ≡ some m') × StoreOk leaked m' × Serviced m m'
  busy-Serviced active some_one =
      let on_duty = not_offline_of_test m.b.e.status active in
      let lt : m.b.e.current < 10 = ok.motion.current in
      let (m1, off_run, ok1, off) =
        unload_floor-Unloaded (set_status loading m) (set_status-StoreOk ok loading) in
      let start = service-busy m m1 active lt some_one off_run in
      elim (Bool-cases (m.b.e.shutdown == 1)) [
        | inl closing ↦
            let shut : m.b.e.shutdown ≡ 1 = ground arith in
            (
              m1,
              start ∙ load_floor-closed m1 ok1 (off.control.shutdown ∙ shut),
              ok1,
              Serviced.served on_duty (busy-true m some_one) (record {
                between = m1;
                off = off;
                on = λ ne. absurd (ne shut);
                closed = λ e. refl;
                blocks = refl;
              }),
            )
        | inr going ↦
            let open_doors : m.b.e.shutdown ≢ 1 = ground arith in
            let (b', taken, rest, on_run, ok', on) =
              load_floor-Loaded m1 ok1 (λ e. open_doors (sym off.control.shutdown ∙ e)) in
            (
              record m1 { b = b' },
              start ∙ on_run,
              ok',
              Serviced.served on_duty (busy-true m some_one) (record {
                between = m1;
                off = off;
                on = λ ne.
                    (taken, rest, subst (λ c. Loaded c taken rest m1.b b') off.control.current on);
                closed = λ e. absurd (open_doors e);
                blocks = refl;
              }),
            )
      ]

  -- The section never faults, keeps the invariant, and has one of the three outcomes.
  pub service-Serviced : (m' : Store) × (service m ≡ some m') × StoreOk leaked m' × Serviced m m'
  service-Serviced = elim (Bool-cases (is_offline m.b.e.status)) [
    | inl off ↦ (m, service-offline m off, ok, Serviced.asleep (offline_of_test m.b.e.status off))
    | inr active ↦ elim (Bool-cases (busy m)) [
      | inl some_one ↦ busy-Serviced active some_one
      | inr nobody ↦ (
        m,
        service-vacant m active ok.motion.current nobody,
        ok,
        Serviced.vacant (not_offline_of_test m.b.e.status active)
            (is_empty-true (m.b.f m.b.e.current).waiting (ground arith))
            (is_empty-true (m.b.e.p m.b.e.current) (ground arith)),
      )
    ]
  ]
