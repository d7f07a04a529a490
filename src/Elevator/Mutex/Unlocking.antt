-- ===== src/Elevator/Mutex/Unlocking.antt =====
-- The mutex is unlocked again.
use cop4610_project.Base.{
  Option, some, false, Bool, ℕ, zero, suc, ◌+◌, ◌≡◌, ◌⊎◌, inl, inr, refl, ap, sym, ◌∙◌, subst, true,
  false, some, ◌>>=◌, List, [], ◌∷◌, ◌++◌, arith, All, All_middle, tally,
}
use cop4610_project.Elevator.Types.{Building}
use cop4610_project.Elevator.Proc.{print_stats}
use cop4610_project.Elevator.Invariant.Arriving.{IsValid}
use cop4610_project.Elevator.Invariant.Requesting.{finish_request-arrived}
use cop4610_project.Elevator.System.{System}
use cop4610_project.Elevator.System.Safety.{Reach-SystemOk}
use cop4610_project.Elevator.Mutex.{
  Place, Call, acts, leaves, thread_holds, holds, Machine, Access, Runs,
}
use cop4610_project.Elevator.Mutex.Accesses.{run_rest}
use cop4610_project.Elevator.Mutex.Atomic.{rest_of, asks, asks-append, flag, Matches}
use cop4610_project.Elevator.Mutex.Sections.{Runs-Matched, IsHarmless}
use cop4610_project.Elevator.Mutex.Releasing.{IsOfHolder, Accesses, Ends, section-Finishes}

-- Accesses of the holder alone that end with the mutex free.
abbrev pub IsReleased : Option (Bool → Bool) → Machine → Type 0
IsReleased unheld f = (g : Machine) × (g.locked ≡ false) × Accesses unheld g f

first_then :
    {unheld : Option (Bool → Bool)} {f h : Machine} (a : Access unheld f h)
    → IsOfHolder a
    → IsReleased unheld h
    → IsReleased unheld f
first_then a own (g, free, more) = (g, free, Accesses.at_first a own more)

moved-IsReleased :
    {unheld : Option (Bool → Bool)} (f : Machine) → f.place ≡ Place.moved → IsReleased unheld f
moved-IsReleased f at = (_, refl, Accesses.at_first (Access.unlock_second at) tt Accesses.here)

thread-IsReleased :
    {unheld : Option (Bool → Bool)} {signals : Bool} {b : Building} {f : Machine} {s : System}
    → Matches signals b f s
    → (p : Place) → f.place ≡ p
    → thread_holds p ≡ 1
    → IsReleased unheld f
unfolding thread_holds
thread-IsReleased {unheld} {f = f} {s = s} m (Place.in_first r) at one =
    let run = ap (λ p. run_rest (rest_of p) f.store) (sym at) ∙ m.store in
    (
      _,
      refl,
      subst (Ends unheld f s.store) (ap (λ p. record f { place = p }) (sym at))
          (section-Finishes unheld f r f.store s.store run),
    )
thread-IsReleased {f = f} m Place.in_second at one =
    first_then (Access.move at) tt (moved-IsReleased _ refl)
thread-IsReleased {f = f} m Place.moved at one = moved-IsReleased f at
thread-IsReleased m _ at one = absurd (omega (arith, one))

-- The call that holds the mutex.
record Holding (l : List Call) : Type 0 where
  before : List Call
  c : Call
  after : List Call
  at : l ≡ before ++ c ∷ after
  one : holds c ≡ 1

holds_or_not : (c : Call) → (holds c ≡ 1) ⊎ (holds c ≡ 0)
unfolding holds
holds_or_not (Call.adding p) = inl refl
holds_or_not Call.starts = inl refl
holds_or_not Call.stops = inl refl
holds_or_not Call.printing = inl refl
holds_or_not Call.done = inl refl
holds_or_not (Call.printed text) = inl refl
holds_or_not _ = inr refl

find_holder : (l : List Call) → tally holds l ≡ 1 → Holding l
unfolding tally
find_holder [] one = absurd (omega (arith, one))
find_holder (c ∷ cs) one =
    let rest = find_holder cs in
    elim (holds_or_not c) [
      | inl this ↦ record { before = []; c = c; after = cs; at = refl; one = this }
      | inr other ↦
          let there = rest (omega (arith, one, other)) in
          record {
            before = c ∷ there.before;
            c = there.c;
            after = there.after;
            at = ap (λ k. c ∷ k) there.at;
            one = there.one;
          }
    ]

left :
    {unheld : Option (Bool → Bool)} {f : Machine} (c : Call) (rest before after : List Call)
    → f.calls ≡ before ++ c ∷ after
    → leaves c ≡ some rest
    → IsReleased unheld f
left c rest before after at how =
    (_, refl, Accesses.at_first (Access.leave c rest before after at how) tt Accesses.here)

call-IsReleased :
    {unheld : Option (Bool → Bool)} {signals : Bool} {b : Building} {f : Machine} {s : System}
    → Matches signals b f s
    → (c : Call) (before after : List Call) → f.calls ≡ before ++ c ∷ after
    → holds c ≡ 1
    → IsReleased unheld f
unfolding holds acts leaves asks
call-IsReleased {f = f} {s = s} m (Call.adding p) before after at one =
    let waits : s.pending ≡ asks before ++ p ∷ asks after =
      m.pending ∙ ap asks at ∙ asks-append before (Call.adding p ∷ after) in
    let pending = ((Reach-SystemOk m.reach).2).pending in
    let valid =
      (All_middle IsValid (asks before) p (asks after) (subst (All IsValid) waits pending)).0 in
    let run = ap (λ o. (do n ← o; some (n, Call.done))) (finish_request-arrived f.store p valid) in
    first_then (Access.act (Call.adding p) Call.done _ before after at run) tt
      (left Call.done [] before after refl refl)
call-IsReleased m Call.starts before after at one =
    first_then (Access.act Call.starts Call.done _ before after at refl) tt
      (left Call.done [] before after refl refl)
call-IsReleased m Call.stops before after at one =
    first_then (Access.act Call.stops Call.done _ before after at refl) tt
      (left Call.done [] before after refl refl)
call-IsReleased {f = f} m Call.printing before after at one =
    let text = print_stats f.store.b in
    first_then (Access.act Call.printing (Call.printed text) _ before after at refl) tt
      (left (Call.printed text) (Call.shown text ∷ []) before after refl refl)
call-IsReleased m Call.done before after at one = left Call.done [] before after at refl
call-IsReleased m (Call.printed text) before after at one =
    left (Call.printed text) (Call.shown text ∷ []) before after at refl
call-IsReleased m _ before after at one = absurd (omega (arith, one))

one_of_two : (k l : ℕ) → k + l ≡ 1 → (k ≡ 1) ⊎ (l ≡ 1)
one_of_two zero l h = inr (omega (arith, h))
one_of_two (suc k) l h = inl (omega (arith, h))

-- In every state between two accesses in which the mutex is locked the holder goes on alone to its
-- mutex_unlock: it is never blocked, no access of it faults, and its loops end; where no lock is
-- interrupted, or a mutex_unlock by somebody who does not hold the mutex has no effect.
pub mutex_is_released :
    {unheld : Option (Bool → Bool)} {b : Building} {f : Machine}
    → IsHarmless unheld
    → Runs unheld b f
    → f.locked ≡ true
    → (g : Machine) × (g.locked ≡ false) × Accesses unheld g f
mutex_is_released {f = f} harmless r locked =
    let (s, m) = Runs-Matched harmless r in
    elim (one_of_two (thread_holds f.place) (tally holds f.calls) (m.exclusion ∙ ap flag locked)) [
      | inl thread ↦ thread-IsReleased m f.place refl thread
      | inr call ↦
          let h = find_holder f.calls call in call-IsReleased m h.c h.before h.after h.at h.one
    ]
