-- ===== src/Elevator/Mutex/Interrupting.antt =====
-- Interrupted locks of the calls, where the mutex_unlock after them has no effect.
use mathlib.Core.Option.{some-injective}
use mathlib.Core.List.{append_assoc}
use cop4610_project.Base.{
  Bool, ◌≡◌, refl, ap, sym, ◌∙◌, subst, true, false, some, List, [], ◌∷◌, ◌++◌, arith, tally,
}
use cop4610_project.Elevator.Types.{Passenger, Building}
use cop4610_project.Elevator.System.{System, Step, Reach}
use cop4610_project.Elevator.Mutex.{Call, holds, Machine}
use cop4610_project.Elevator.Mutex.Atomic.{wants, asks, asks-append, flag, Matches, Matched}
use cop4610_project.Elevator.Mutex.{interrupted}
use cop4610_project.Elevator.Invariant.Requesting.{finish_request-interrupted}
use cop4610_project.Elevator.Mutex.Calls.{around, asks-around, tally-around}

-- A call that goes on or returns without its body, and has no passenger.
record Dropped (c : Call) (rest : List Call) : Type 0 where
  before : holds c ≡ 0
  after : tally holds rest ≡ 0

interrupted-Dropped : (c : Call) (rest : List Call) → interrupted c ≡ some rest → Dropped c rest
unfolding interrupted holds tally
interrupted-Dropped (Call.asking p) rest h =
    subst (Dropped (Call.asking p)) (some-injective [] rest h)
      (record { before = refl; after = refl })
interrupted-Dropped Call.starting rest h =
    subst (Dropped Call.starting) (some-injective [] rest h)
      (record { before = refl; after = refl })
interrupted-Dropped Call.stopping rest h =
    subst (Dropped Call.stopping) (some-injective [] rest h)
      (record { before = refl; after = refl })
interrupted-Dropped Call.opening rest h =
    subst (Dropped Call.opening) (some-injective (Call.opening ∷ []) rest h)
      (record { before = refl; after = refl })
interrupted-Dropped _ rest h = cc

module _ {signals : Bool} {b : Building} {f : Machine} {s : System}
    (m : Matches signals b f s) where
  -- A call without a body, with the requests that are left.
  dropped :
      (unlock : Bool → Bool) (c : Call) (rest before after : List Call) (pending : List Passenger)
      → unlock f.locked ≡ f.locked
      → f.calls ≡ before ++ c ∷ after
      → interrupted c ≡ some rest
      → pending ≡ asks before ++ (asks rest ++ asks after)
      → Reach signals b (record s { pending = pending })
      → Matched signals b (record f { locked = unlock f.locked; calls = before ++ rest ++ after })
  dropped unlock c rest before after pending as_before at how left reach =
      let d = interrupted-Dropped c rest how in
      (
        record s { pending = pending },
        record {
          reach = reach;
          exclusion = omega (
            arith,
            m.exclusion,
            ap flag as_before,
            ap (tally holds) at,
            tally-around before after c,
            around holds before rest after,
            d.before,
            d.after,
          );
          pending =
              left
              ∙ sym (
                  asks-append (before ++ rest) after
                  ∙ ap (λ k. k ++ asks after) (asks-append before rest)
                  ∙ append_assoc (asks before) (asks rest) (asks after));
          phase = m.phase;
          store = m.store;
        },
      )

  -- A call that asked for nobody.
  nobody_dropped :
      (unlock : Bool → Bool) (c : Call) (rest before after : List Call)
      → unlock f.locked ≡ f.locked
      → f.calls ≡ before ++ c ∷ after
      → interrupted c ≡ some rest
      → wants c ≡ asks rest
      → Matched signals b (record f { locked = unlock f.locked; calls = before ++ rest ++ after })
  nobody_dropped unlock c rest before after as_before at how same =
      dropped unlock c rest before after s.pending as_before at how
        (m.pending
          ∙ ap asks at
          ∙ asks-around before after c
          ∙ ap (λ k. asks before ++ (k ++ asks after)) same)
        m.reach

  pub interrupt-Matched :
      (unlock : Bool → Bool) (c : Call) (rest before after : List Call)
      → unlock f.locked ≡ f.locked
      → signals ≡ true
      → f.calls ≡ before ++ c ∷ after
      → interrupted c ≡ some rest
      → Matched signals b (record f { locked = unlock f.locked; calls = before ++ rest ++ after })
  unfolding interrupted asks
  interrupt-Matched unlock (Call.asking p) rest before after as_before on at how =
      let waits : s.pending ≡ asks before ++ p ∷ asks after =
        m.pending ∙ ap asks at ∙ asks-around before after (Call.asking p) in
      dropped unlock (Call.asking p) rest before after (asks before ++ asks after) as_before at how
        (ap (λ k. asks before ++ (asks k ++ asks after)) (some-injective [] rest how))
        (Reach.next m.reach (
          Step.enqueue false (asks before) (asks after) p waits (λ h. cc (h, on))
            (finish_request-interrupted s.store p)))
  interrupt-Matched unlock Call.starting rest before after as_before on at how =
      nobody_dropped unlock Call.starting rest before after as_before at how
        (ap asks (some-injective [] rest how))
  interrupt-Matched unlock Call.stopping rest before after as_before on at how =
      nobody_dropped unlock Call.stopping rest before after as_before at how
        (ap asks (some-injective [] rest how))
  interrupt-Matched unlock Call.opening rest before after as_before on at how =
      nobody_dropped unlock Call.opening rest before after as_before at how
        (ap asks (some-injective (Call.opening ∷ []) rest how))
  interrupt-Matched unlock _ rest before after as_before on at how = cc
