-- ===== src/Elevator/Mutex/Releasing.antt =====
-- Whoever holds the mutex goes on to its mutex_unlock, alone.
use mathlib.Core.Option.{some-injective}
use cop4610_project.Base.{
  bind_some, Ensures, ensures_if, ensures_bind, ensured, Option, some, false, Bool, ◌≡◌, ◌≢◌, ◌⊎◌,
  inl, inr, refl, sym, ◌∙◌, subst, false, not, ◌&&◌, ◌||◌, ◌==◌, if◌then◌else◌, some, List, [], ◌∷◌,
  get_elem?, is_empty,
}
use cop4610_project.Elevator.Types.{Passenger, Store}
use cop4610_project.Elevator.Building.{del_pass, move_pass}
use cop4610_project.Elevator.Passengers.{can_fit, p_direction}
use cop4610_project.Elevator.Checks.{check_floor}
use cop4610_project.Elevator.Thread.{is_offline}
use cop4610_project.Elevator.Mutex.{Rest, access, Place, Machine, Access}
use cop4610_project.Elevator.Mutex.Accesses.{run_rest, access_then}

-- Not the beginning of another call, and no interrupted lock.
abbrev pub IsOfHolder : {unheld : Option (Bool → Bool)} {f g : Machine} → Access unheld f g → Type 0
IsOfHolder (Access.call c what) = ⊥
IsOfHolder (Access.request block t z d ints fresh run) = ⊥
IsOfHolder (Access.interrupt_first unlock given at) = ⊥
IsOfHolder (Access.interrupt_second unlock given at) = ⊥
IsOfHolder (Access.interrupt unlock c rest before after given at how) = ⊥
IsOfHolder _ = Unit

pub data Accesses (unheld : Option (Bool → Bool)) (g : Machine) : Machine → Type 0 where
  here : Accesses unheld g g
  at_first :
      {f h : Machine} (a : Access unheld f h)
      → IsOfHolder a
      → Accesses unheld g h
      → Accesses unheld g f

-- The thread in its first section.
abbrev pub in_section_at : Machine → Rest → Store → Machine
in_section_at f r m = record f { store = m; place = Place.in_first r }

abbrev pub Ends : Option (Bool → Bool) → Machine → Store → Machine → Type 0
Ends unheld f n start =
    Accesses unheld (record f { locked = false; store = n; place = Place.between }) start

-- What comes after an access.
abbrev Follows : Rest → Rest → Type 0
Follows Rest.entering r = ((l : List Passenger) × (r ≡ Rest.unloading l)) ⊎ (r ≡ Rest.finished)
Follows (Rest.unloading []) r = r ≡ Rest.boarding
Follows (Rest.unloading (p ∷ ps)) r = r ≡ Rest.unloading ps
Follows Rest.boarding r = ((l : List Passenger) × (r ≡ Rest.letting_in l)) ⊎ (r ≡ Rest.finished)
Follows (Rest.letting_in []) r = r ≡ Rest.finished
Follows (Rest.letting_in (p ∷ ps)) r = (r ≡ Rest.letting_in ps) ⊎ (r ≡ Rest.finished)
Follows Rest.finished r = r ≡ Rest.finished

access-Follows : (r : Rest) (m : Store) → Ensures (access r m) (λ step. Follows r step.0)
unfolding access
access-Follows Rest.entering m =
    let P = λ (step : Rest × Store). Follows Rest.entering step.0 in
    ensures_if P (is_offline m.b.e.status) _ _ (inr refl) (
      ensures_bind P (get_elem? m.b.f m.b.e.current) _ λ fl at.
        ensures_bind P (get_elem? m.b.e.p m.b.e.current) _ λ q at_q.
          ensures_if P (not (is_empty fl.waiting) || not (is_empty q)) _ _ (inl (q, refl))
            (inr refl))
access-Follows (Rest.unloading []) m = refl
access-Follows (Rest.unloading (p ∷ ps)) m =
    ensures_bind (λ (step : Rest × Store). step.0 ≡ Rest.unloading ps)
      (if p.d_floor == m.b.e.current then del_pass m p else some m) _ (λ m' off. refl)
access-Follows Rest.boarding m =
    let P = λ (step : Rest × Store). Follows Rest.boarding step.0 in
    ensures_bind P (check_floor m.b m.b.e.current) _ λ here at_here.
      ensures_bind P (get_elem? m.b.f m.b.e.current) _ λ fl at.
        ensures_if P (here && not (m.b.e.shutdown == 1)) _ _ (inl (fl.waiting, refl)) (inr refl)
access-Follows (Rest.letting_in []) m = refl
access-Follows (Rest.letting_in (p ∷ ps)) m =
    let P = λ (step : Rest × Store). Follows (Rest.letting_in (p ∷ ps)) step.0 in
    ensures_if P (can_fit p m.b.e && (p_direction p == m.b.e.direction)) _ _
      (ensures_bind P (if p.s_floor == m.b.e.current then move_pass m.b p else some m.b) _
        (λ b' boarded. inl refl))
      (inr refl)
access-Follows Rest.finished m = refl

-- The rest of the section from `r` on, whatever the store is.
abbrev pub Finishes : Option (Bool → Bool) → Machine → Rest → Type 0
Finishes unheld f r = (m n : Store) → run_rest r m ≡ some n → Ends unheld f n (in_section_at f r m)

finished-Finishes : (unheld : Option (Bool → Bool)) (f : Machine) → Finishes unheld f Rest.finished
unfolding run_rest
finished-Finishes unheld f m n run =
    subst (λ k. Ends unheld f k (in_section_at f Rest.finished m)) (some-injective m n run)
      (Accesses.at_first (Access.unlock_first refl) tt Accesses.here)

-- What follows an access finishes, so the access does.
Finishes-first :
    (unheld : Option (Bool → Bool)) (f : Machine) (r : Rest)
    → r ≢ Rest.finished
    → ((r' : Rest) → Follows r r' → Finishes unheld f r')
    → Finishes unheld f r
Finishes-first unheld f r more after m n run =
    let ((r', m'), one, rest) =
      bind_some (access r m) (λ step. run_rest step.0 step.1) (sym (access_then r m) ∙ run) in
    Accesses.at_first (Access.in_section r r' m' refl more one) tt (
      after r' (ensured (λ (step : Rest × Store). Follows r step.0) (access-Follows r m) one) m' n
        rest)

letting_in-Finishes :
    (unheld : Option (Bool → Bool)) (f : Machine) (l : List Passenger)
    → Finishes unheld f (Rest.letting_in l)
letting_in-Finishes unheld f [] =
    Finishes-first unheld f (Rest.letting_in []) (λ e. cc e)
      (λ r' e. subst (Finishes unheld f) (sym e) (finished-Finishes unheld f))
letting_in-Finishes unheld f (p ∷ ps) =
    let rest = letting_in-Finishes unheld f ps in
    Finishes-first unheld f (Rest.letting_in (p ∷ ps)) (λ e. cc e)
      λ r' next. elim next [
        | inl e ↦ subst (Finishes unheld f) (sym e) rest
        | inr e ↦ subst (Finishes unheld f) (sym e) (finished-Finishes unheld f)
      ]

boarding-Finishes : (unheld : Option (Bool → Bool)) (f : Machine) → Finishes unheld f Rest.boarding
boarding-Finishes unheld f =
    Finishes-first unheld f Rest.boarding (λ e. cc e)
      λ r' next. elim next [
        | inl (l, e) ↦ subst (Finishes unheld f) (sym e) (letting_in-Finishes unheld f l)
        | inr e ↦ subst (Finishes unheld f) (sym e) (finished-Finishes unheld f)
      ]

unloading-Finishes :
    (unheld : Option (Bool → Bool)) (f : Machine) (l : List Passenger)
    → Finishes unheld f (Rest.unloading l)
unloading-Finishes unheld f [] =
    Finishes-first unheld f (Rest.unloading []) (λ e. cc e)
      (λ r' e. subst (Finishes unheld f) (sym e) (boarding-Finishes unheld f))
unloading-Finishes unheld f (p ∷ ps) =
    let rest = unloading-Finishes unheld f ps in
    Finishes-first unheld f (Rest.unloading (p ∷ ps)) (λ e. cc e)
      (λ r' e. subst (Finishes unheld f) (sym e) rest)

pub section-Finishes :
    (unheld : Option (Bool → Bool)) (f : Machine) (r : Rest) → Finishes unheld f r
section-Finishes unheld f Rest.entering =
    Finishes-first unheld f Rest.entering (λ e. cc e)
      λ r' next. elim next [
        | inl (l, e) ↦ subst (Finishes unheld f) (sym e) (unloading-Finishes unheld f l)
        | inr e ↦ subst (Finishes unheld f) (sym e) (finished-Finishes unheld f)
      ]
section-Finishes unheld f (Rest.unloading l) = unloading-Finishes unheld f l
section-Finishes unheld f Rest.boarding = boarding-Finishes unheld f
section-Finishes unheld f (Rest.letting_in l) = letting_in-Finishes unheld f l
section-Finishes unheld f Rest.finished = finished-Finishes unheld f
