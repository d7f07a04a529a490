-- ===== src/Elevator/Mutex/Overlapping.antt =====
-- What interrupted locks do to the mutex if a mutex_unlock unlocks it for anybody.
use cop4610_project.Base.{
  ◌+◌, ◌≡◌, inr, refl, ap, ◌∙◌, Bool, true, false, some, [], ◌∷◌, arith, tally-cons,
}
use cop4610_project.Elevator.Types.{Building}
use cop4610_project.Elevator.Mutex.{
  Call, enters, interrupted, holds, Machine, holders, Access, Runs,
}

-- If a mutex_unlock frees the mutex whoever holds it, then from every state in which the mutex is
-- locked one call of elevator_open with one interrupted lock comes to printStats while all who held
-- the mutex are where they were: there is one holder more, and printStats sees the store as it is in
-- the middle of the section of another.
pub interrupted_locks_overlap :
    {unlock : Bool → Bool} {b : Building} {f : Machine}
    → unlock true ≡ false
    → Runs (some unlock) b f
    → f.locked ≡ true
    → (g : Machine) × Runs (some unlock) b g
      × (holders g ≡ holders f + 1)
      × (g.place ≡ f.place)
      × (g.calls ≡ Call.printing ∷ f.calls)
      × (g.store ≡ f.store)
unfolding enters interrupted holds
interrupted_locks_overlap {unlock} {f = f} frees r locked =
    let called = Runs.next r (Access.call Call.opening (inr (inr refl))) in
    let again =
      Runs.next called
        (Access.interrupt unlock Call.opening (Call.opening ∷ []) [] f.calls refl refl refl) in
    let inside =
      Runs.next again
        (Access.enter Call.opening Call.printing [] f.calls refl (ap unlock locked ∙ frees) refl) in
    (_, inside, omega (arith, tally-cons holds Call.printing f.calls), refl, refl, refl)
