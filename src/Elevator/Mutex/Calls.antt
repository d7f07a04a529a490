-- ===== src/Elevator/Mutex/Calls.antt =====
-- The accesses of the system calls as whole sections.
use mathlib.Core.Option.{some-injective}
use cop4610_project.Base.{
  ℕ, ◌+◌, ◌≡◌, inl, inr, refl, ap, subst, not, ◌||◌, ◌==◌, Bool-cases, some, List, [], ◌∷◌, ◌++◌,
  arith, tally, tally-append,
}
use cop4610_project.Elevator.Types.{Passenger, Store}
use cop4610_project.Elevator.Requests.{begin_request, new_passenger, refused, out_of_range}
use cop4610_project.Elevator.Invariant.Arriving.{allocated}
use cop4610_project.Elevator.Mutex.{Call, enters, leaves, holds}
use cop4610_project.Elevator.Mutex.Atomic.{wants, asks, asks-append}

-- What a call that waits becomes under the mutex.
pub record Entered (c c' : Call) : Type 0 where
  pub before : holds c ≡ 0
  pub after : holds c' ≡ 1
  pub same : wants c' ≡ wants c

pub enters-Entered : (c c' : Call) → enters c ≡ some c' → Entered c c'
unfolding enters holds
enters-Entered (Call.asking p) c' h =
    subst (Entered (Call.asking p)) (some-injective (Call.adding p) c' h)
      (record { before = refl; after = refl; same = refl })
enters-Entered Call.starting c' h =
    subst (Entered Call.starting) (some-injective Call.starts c' h)
      (record { before = refl; after = refl; same = refl })
enters-Entered Call.stopping c' h =
    subst (Entered Call.stopping) (some-injective Call.stops c' h)
      (record { before = refl; after = refl; same = refl })
enters-Entered Call.opening c' h =
    subst (Entered Call.opening) (some-injective Call.printing c' h)
      (record { before = refl; after = refl; same = refl })
enters-Entered _ c' h = cc

-- What a call that has done its part leaves behind.
pub record Left (c : Call) (rest : List Call) : Type 0 where
  pub before : holds c ≡ 1
  pub after : tally holds rest ≡ 0
  pub nobody : wants c ≡ []
  pub same : asks rest ≡ []

pub leaves-Left : (c : Call) (rest : List Call) → leaves c ≡ some rest → Left c rest
unfolding leaves holds asks tally
leaves-Left Call.done rest h =
    subst (Left Call.done) (some-injective [] rest h)
      (record { before = refl; after = refl; nobody = refl; same = refl })
leaves-Left (Call.printed text) rest h =
    subst (Left (Call.printed text)) (some-injective (Call.shown text ∷ []) rest h)
      (record { before = refl; after = refl; nobody = refl; same = refl })
leaves-Left _ rest h = cc

-- The start of a request sees of the store the shutdown flag only.
pub begin_request_again :
    (a t z d : ℕ) (m n m' : Store) (p : Passenger)
    → n.b.e.shutdown ≡ m.b.e.shutdown
    → begin_request (some a) t z d m ≡ some (m', some p)
    → begin_request (some a) t z d n ≡ some (allocated a n, some p)
unfolding begin_request
begin_request_again a t z d m n m' p same run =
    let refuses : refused n t z d ≡ refused m t z d =
      ap (λ v. out_of_range t 4 || out_of_range z 10 || out_of_range d 10 || not (v == 0)) same in
    elim (Bool-cases (refused m t z d)) [
      | inl no_way ↦ absurd (ground (arith, no_way, run))
      | inr going ↦
          let who : new_passenger a t z d ≡ p = ground (arith, going, run) in
          rw (refuses, going) (ap (λ q. some (allocated a n, some q)) who)
    ]

-- One call of all, and the others.
pub around :
    (g : Call → ℕ) (before middle after : List Call)
    → tally g (before ++ middle ++ after) ≡ tally g before + tally g middle + tally g after
around g before middle after =
    omega (arith, tally-append g (before ++ middle) after, tally-append g before middle)

pub asks-around :
    (before after : List Call) (c : Call)
    → asks (before ++ c ∷ after) ≡ asks before ++ (wants c ++ asks after)
unfolding asks
asks-around before after c = asks-append before (c ∷ after)

pub tally-around :
    (before after : List Call) (c : Call)
    → tally holds (before ++ c ∷ after) ≡ tally holds before + holds c + tally holds after
unfolding tally
tally-around before after c = omega (arith, tally-append holds before (c ∷ after))
