-- ===== src/Elevator/Service/Greedy.antt =====
-- Who boards, as a plain function of the room that is left, the direction and the queue.
use cop4610_project.Base.{
  ℕ, ◌+◌, ◌-◌, ◌≤◌, ◌<◌, ◌≡◌, refl, ap, sym, ◌∙◌, subst, Bool, true, ◌&&◌, ◌==◌, leb, ltb,
  if◌then◌else◌, some, List, [], ◌∷◌, ◌++◌, arith, All, tally, Bool-cases, inl, inr,
}
use cop4610_project.Elevator.Types.{Passenger, Elevator, Building, Store}
use cop4610_project.Elevator.Thread.{load}
use cop4610_project.Elevator.Invariant.{WaitsAt, weight, size, StoreOk}
use cop4610_project.Elevator.Invariant.Boarding.{Boards}
use cop4610_project.Elevator.Invariant.Loading.{bound_for, MustWait, Heads, load-Loaded}
use cop4610_project.Elevator.Service.Measures.{All_front, All_map, Loaded-aboard}

-- There is room, and the passenger goes in direction `d`.
abbrev pub goes_along : (w p d : ℕ) → Passenger → Bool
goes_along w p d x =
    leb (weight x) w && (leb (size x) p && (d == (if ltb x.s_floor x.d_floor then 1 else 0)))

-- The longest front part of a queue that has room for `w` units of weight and `p` of places, and of
-- which everybody goes in direction `d`; and the rest.
unfoldable pub greedy : (w p d : ℕ) → List Passenger → List Passenger × List Passenger
greedy w p d [] = ([], [])
greedy w p d (x ∷ xs) =
    let (taken, rest) = greedy (w - weight x) (p - size x) d xs in
    if goes_along w p d x then (x ∷ taken, rest) else ([], x ∷ xs)

goes_along-Boards :
    (w p : ℕ) (e : Elevator) (x : Passenger)
    → w + e.w_units ≡ 30
    → p + e.p_units ≡ 10
    → goes_along w p e.direction x ≡ true
    → Boards e x
goes_along-Boards w p e x hw hp goes = ground arith

goes_true :
    (w p d : ℕ) (x : Passenger) → weight x ≤ w → size x ≤ p → Heads d x → goes_along w p d x ≡ true
goes_true w p d x lw lp way = ground arith

greedy_stop :
    (w p : ℕ) (e : Elevator) (l : List Passenger)
    → w + e.w_units ≡ 30
    → p + e.p_units ≡ 10
    → MustWait e l
    → greedy w p e.direction l ≡ ([], l)
unfolding greedy
greedy_stop w p e [] hw hp stop = refl
greedy_stop w p e (x ∷ xs) hw hp stop = elim (Bool-cases (goes_along w p e.direction x)) [
  | inl goes ↦ absurd (stop (goes_along-Boards w p e x hw hp goes))
  | inr stays ↦ rw stays
]

greedy_take :
    (w p : ℕ) (e' : Elevator) (taken rest : List Passenger)
    → All (Heads e'.direction) taken
    → w + e'.w_units ≡ 30 + tally weight taken
    → tally weight taken ≤ w
    → p + e'.p_units ≡ 10 + tally size taken
    → tally size taken ≤ p
    → MustWait e' rest
    → greedy w p e'.direction (taken ++ rest) ≡ (taken, rest)
unfolding greedy tally
greedy_take w p e' [] rest way hw lw hp lp stop =
    greedy_stop w p e' rest (omega arith) (omega arith) stop
greedy_take w p e' (x ∷ taken) rest way hw lw hp lp stop =
    let more =
      greedy_take (w - weight x) (p - size x) e' taken rest way.1 (omega arith) (omega arith)
        (omega arith) (omega arith) stop in
    rw (goes_true w p e'.direction x (omega arith) (omega arith) way.0, more)

-- The loading loop of runElevator, where the invariant holds, ends without a fault, and boards exactly
-- those that `greedy` takes for the room that is left: these stand at the ends of the lists of their
-- destinations, and the rest is the queue.
pub load-greedy :
    {leaked : ℕ → ℕ} (m : Store)
    → StoreOk leaked m
    → let c = m.b.e.current in
      let queue = (m.b.f c).waiting in
      let who = greedy (30 - m.b.e.w_units) (10 - m.b.e.p_units) m.b.e.direction queue in
      (b' : Building) × (load queue m.b ≡ some b')
      × ((b'.f c).waiting ≡ who.1)
      × ((i : ℕ) → b'.e.p i ≡ m.b.e.p i ++ bound_for i who.0)
load-greedy m ok =
    let c = m.b.e.current in
    let queue = (m.b.f c).waiting in
    let (b', taken, rest, run, ok', on) = load-Loaded queue c m ok refl refl in
    let w = 30 - m.b.e.w_units in
    let p = 10 - m.b.e.p_units in
    let all =
      All_front (WaitsAt c) taken rest
        (subst (All (WaitsAt c)) on.queue (ok.floors c ok.motion.current).queue) in
    let low = All_map (WaitsAt c) (λ x. x.d_floor < 10) taken (λ x h. h.2) all in
    let more = λ (g : Passenger → ℕ). Loaded-aboard g c taken rest m.b b' low on in
    let old = ok.elevator in
    let new = ok'.elevator in
    let weights : b'.e.w_units ≡ tally weight taken + m.b.e.w_units =
      omega (arith, new.w_units, old.w_units, more weight) in
    let sizes : b'.e.p_units ≡ tally size taken + m.b.e.p_units =
      omega (arith, new.p_units, old.p_units, more size) in
    let way = subst (λ d. All (Heads d) taken) (sym on.control.direction) on.directed in
    let same : greedy w p m.b.e.direction queue ≡ (taken, rest) =
      ap (λ d. greedy w p d queue) (sym on.control.direction)
      ∙ ap (greedy w p b'.e.direction) on.queue
      ∙ greedy_take w p b'.e taken rest way (omega (arith, weights, old.w_max))
          (omega (arith, weights, new.w_max)) (omega (arith, sizes, old.p_max))
          (omega (arith, sizes, new.p_max)) on.stop in
    (
      b',
      run,
      on.left ∙ ap (λ (x : List Passenger × List Passenger). x.1) (sym same),
      λ i.
          on.riders i
          ∙ ap (λ (x : List Passenger × List Passenger). m.b.e.p i ++ bound_for i x.0) (sym same),
    )
