-- ===== src/Elevator/Mutex/Acting.antt =====
-- The bodies of the calls as whole sections.
use mathlib.Core.Option.{some-injective}
use cop4610_project.Base.{
  bind_some, Bool, ◌≡◌, refl, ap, sym, ◌∙◌, subst, true, some, List, ◌∷◌, ◌++◌, arith, tally,
}
use cop4610_project.Elevator.Types.{Passenger, Building, Store}
use cop4610_project.Elevator.Requests.{finish_request, start_elevator, stop_elevator}
use cop4610_project.Elevator.Proc.{print_stats}
use cop4610_project.Elevator.System.{System, Step, Reach}
use cop4610_project.Elevator.Mutex.{Call, acts, holds, Machine}
use cop4610_project.Elevator.Mutex.Accesses.{run_rest}
use cop4610_project.Elevator.Mutex.Atomic.{wants, asks, Matches, Matched, idle_thread}
use cop4610_project.Elevator.Mutex.Calls.{asks-around, tally-around}
use cop4610_project.Elevator.Mutex.Waiting.{others_out}

module _ {signals : Bool} {b : Building} {f : Machine} {s : System}
    (m : Matches signals b f s) where
  -- A body that some step of the system stands for.
  acted :
      (c c' : Call) (m' : Store) (before after : List Call) (pending : List Passenger)
      → f.calls ≡ before ++ c ∷ after
      → holds c ≡ 1
      → holds c' ≡ 1
      → pending ≡ asks (before ++ c' ∷ after)
      → (f.store ≡ s.store → Reach signals b (record s { store = m'; pending = pending }))
      → Matched signals b (record f { store = m'; calls = before ++ c' ∷ after })
  unfolding run_rest
  acted c c' m' before after pending at one one' left step =
      let (out, same, nobody) = others_out m c before after at one in
      (
        record s { store = m'; pending = pending },
        record {
          reach = step same;
          exclusion = omega (
            arith,
            m.exclusion,
            ap (tally holds) at,
            tally-around before after c,
            tally-around before after c',
            one,
            one',
          );
          pending = left;
          phase = m.phase;
          store = ap (λ r. run_rest r m') (idle_thread f.place out);
        },
      )

  -- The pending requests where a body leaves them alone.
  still_pending :
      (c c' : Call) (before after : List Call)
      → f.calls ≡ before ++ c ∷ after
      → wants c ≡ wants c'
      → s.pending ≡ asks (before ++ c' ∷ after)
  still_pending c c' before after at same =
      m.pending
      ∙ ap asks at
      ∙ asks-around before after c
      ∙ ap (λ l. asks before ++ (l ++ asks after)) same
      ∙ sym (asks-around before after c')

  pub act-Matched :
      (c c' : Call) (m' : Store) (before after : List Call)
      → f.calls ≡ before ++ c ∷ after
      → acts c f.store ≡ some (m', c')
      → Matched signals b (record f { store = m'; calls = before ++ c' ∷ after })
  unfolding acts holds
  act-Matched (Call.adding p) c' m' before after at run =
      let (n, fin, e) = bind_some (finish_request true p f.store) (λ k. some (k, Call.done)) run in
      let both = some-injective (n, Call.done) (m', c') e in
      let done = ap (λ (x : Store × Call). x.1) both in
      let new = ap (λ (x : Store × Call). x.0) both in
      let waits : s.pending ≡ asks before ++ p ∷ asks after =
        m.pending ∙ ap asks at ∙ asks-around before after (Call.adding p) in
      acted (Call.adding p) c' m' before after (asks before ++ asks after) at refl
        (ap holds (sym done))
        (sym (
          asks-around before after c'
          ∙ ap (λ k. asks before ++ (wants k ++ asks after)) (sym done)))
        (λ same.
          subst (λ k. Reach signals b (record s { store = k; pending = asks before ++ asks after }))
            new
            (Reach.next m.reach (
              Step.enqueue true (asks before) (asks after) p waits (λ h. refl)
                (ap (finish_request true p) (sym same) ∙ fin))))
  act-Matched Call.starts c' m' before after at run =
      let both = some-injective ((start_elevator true f.store).0, Call.done) (m', c') run in
      let done = ap (λ (x : Store × Call). x.1) both in
      let new = ap (λ (x : Store × Call). x.0) both in
      acted Call.starts c' m' before after s.pending at refl (ap holds (sym done))
        (still_pending Call.starts c' before after at (ap wants done))
        (λ same.
          subst (λ n. Reach signals b (record s { store = n }))
            (ap (λ n. (start_elevator true n).0) (sym same) ∙ new)
            (Reach.next m.reach (Step.start true (λ h. refl))))
  act-Matched Call.stops c' m' before after at run =
      let both = some-injective ((stop_elevator true f.store).0, Call.done) (m', c') run in
      let done = ap (λ (x : Store × Call). x.1) both in
      let new = ap (λ (x : Store × Call). x.0) both in
      acted Call.stops c' m' before after s.pending at refl (ap holds (sym done))
        (still_pending Call.stops c' before after at (ap wants done))
        (λ same.
          subst (λ n. Reach signals b (record s { store = n }))
            (ap (λ n. (stop_elevator true n).0) (sym same) ∙ new)
            (Reach.next m.reach (Step.stop true (λ h. refl))))
  act-Matched Call.printing c' m' before after at run =
      let both = some-injective (f.store, Call.printed (print_stats f.store.b)) (m', c') run in
      let done = ap (λ (x : Store × Call). x.1) both in
      let new = ap (λ (x : Store × Call). x.0) both in
      acted Call.printing c' m' before after s.pending at refl (ap holds (sym done))
        (still_pending Call.printing c' before after at (ap wants done))
        (λ same. subst (λ n. Reach signals b (record s { store = n })) (sym same ∙ new) m.reach)
  act-Matched _ c' m' before after at run = cc
