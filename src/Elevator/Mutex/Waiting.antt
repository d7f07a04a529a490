-- ===== src/Elevator/Mutex/Waiting.antt =====
-- The calls before and after their bodies.
use mathlib.Core.List.{append_assoc}
use cop4610_project.Base.{
  ensured, Bool, ℕ, ◌+◌, ◌≡◌, ◌⊎◌, inl, inr, ap, sym, ◌∙◌, subst, true, false, Option, some, List,
  [], ◌∷◌, ◌++◌, arith, tally, tally-cons,
}
use cop4610_project.Elevator.Types.{Passenger, Building, Store}
use cop4610_project.Elevator.Requests.{begin_request}
use cop4610_project.Elevator.Invariant.Arriving.{allocated}
use cop4610_project.Elevator.Invariant.Requesting.{AreInts, IsFresh, begin_request-Begun}
use cop4610_project.Elevator.System.{System, Step, Reach}
use cop4610_project.Elevator.System.Safety.{Begun-taken}
use cop4610_project.Elevator.Mutex.{Call, enters, leaves, thread_holds, holds, Machine}
use cop4610_project.Elevator.Mutex.Accesses.{run_rest}
use cop4610_project.Elevator.Mutex.Beside.{Beside, run_rest-Beside}
use cop4610_project.Elevator.Mutex.Atomic.{
  rest_of, wants, asks, asks-append, flag, flag-le, Matches, Matched, idle_thread, same_store,
}
use cop4610_project.Elevator.Mutex.Calls.{
  enters-Entered, leaves-Left, begin_request_again, around, asks-around, tally-around,
}

module _ {signals : Bool} {b : Building} {f : Machine} {s : System}
    (m : Matches signals b f s) where
  pub call-Matched :
      (c : Call)
      → (c ≡ Call.starting) ⊎ (c ≡ Call.stopping) ⊎ (c ≡ Call.opening)
      → Matched signals b (record f { calls = c ∷ f.calls })
  unfolding asks holds
  call-Matched c what =
      let free : holds c ≡ 0 = elim what [
        | inl e ↦ ap holds e
        | inr (inl e) ↦ ap holds e
        | inr (inr e) ↦ ap holds e
      ] in
      let nobody : wants c ≡ [] = elim what [
        | inl e ↦ ap wants e
        | inr (inl e) ↦ ap wants e
        | inr (inr e) ↦ ap wants e
      ] in
      (
        s,
        record {
          reach = m.reach;
          exclusion = omega (arith, m.exclusion, free, tally-cons holds c f.calls);
          pending = m.pending ∙ ap (λ l. l ++ asks f.calls) (sym nobody);
          phase = m.phase;
          store = m.store;
        },
      )

  pub request-Matched :
      (m' : Store) (p : Passenger) (block : Option ℕ) (p_type s_floor d_floor : ℕ)
      → AreInts p_type s_floor d_floor
      → IsFresh f.store block
      → begin_request block p_type s_floor d_floor f.store ≡ some (m', some p)
      → Matched signals b (record f { store = m'; calls = Call.asking p ∷ f.calls })
  unfolding asks holds
  request-Matched m' p block t z d ints fresh run =
      let (a, got, new, who, range) =
        Begun-taken (begin_request-Begun f.store block t z d ints) m' p run in
      let unused = fresh a got in
      let beside =
        ensured (Beside a f.store (run_rest (rest_of f.place) (allocated a f.store)))
          (run_rest-Beside a (rest_of f.place) f.store unused) m.store in
      let fresh_too : IsFresh s.store block = λ x e. beside.kept.unused x (fresh x e) in
      let same_start =
        begin_request_again a t z d f.store s.store m' p beside.kept.shutdown
          (subst (λ o. begin_request o t z d f.store ≡ some (m', some p)) got run) in
      let same_start =
        subst (λ o. begin_request o t z d s.store ≡ some (allocated a s.store, some p)) (sym got)
          same_start in
      (
        record s { store = allocated a s.store; pending = p ∷ s.pending },
        record {
          reach = Reach.next m.reach (Step.request block t z d ints fresh_too same_start);
          exclusion = omega (arith, m.exclusion, tally-cons holds (Call.asking p) f.calls);
          pending = ap (λ l. p ∷ l) m.pending;
          phase = m.phase;
          store = ap (run_rest (rest_of f.place)) new ∙ beside.same;
        },
      )

  pub enter-Matched :
      (c c' : Call) (before after : List Call)
      → f.calls ≡ before ++ c ∷ after
      → f.locked ≡ false
      → enters c ≡ some c'
      → Matched signals b (record f { locked = true; calls = before ++ c' ∷ after })
  enter-Matched c c' before after at free how =
      let e = enters-Entered c c' how in
      (
        s,
        record {
          reach = m.reach;
          exclusion = omega (
            arith,
            m.exclusion,
            ap flag free,
            ap (tally holds) at,
            tally-around before after c,
            tally-around before after c',
            e.before,
            e.after,
          );
          pending =
              m.pending
              ∙ ap asks at
              ∙ asks-around before after c
              ∙ ap (λ l. asks before ++ (l ++ asks after)) (sym e.same)
              ∙ sym (asks-around before after c');
          phase = m.phase;
          store = m.store;
        },
      )

  -- A call that holds the mutex keeps the thread out.
  pub others_out :
      (c : Call) (before after : List Call)
      → f.calls ≡ before ++ c ∷ after
      → holds c ≡ 1
      → (thread_holds f.place ≡ 0)
        × (f.store ≡ s.store)
        × (tally holds before + tally holds after ≡ 0)
  others_out c before after at one =
      let sum = tally-around before after c in
      let all = ap (tally holds) at in
      let out : thread_holds f.place ≡ 0 =
        omega (arith, m.exclusion, flag-le f.locked, all, sum, one) in
      (
        out,
        same_store m (idle_thread f.place out),
        omega (arith, m.exclusion, flag-le f.locked, all, sum, one),
      )

  pub leave-Matched :
      (c : Call) (rest before after : List Call)
      → f.calls ≡ before ++ c ∷ after
      → leaves c ≡ some rest
      → Matched signals b (record f { locked = false; calls = before ++ rest ++ after })
  leave-Matched c rest before after at how =
      let l = leaves-Left c rest how in
      let (out, same, nobody) = others_out c before after at l.before in
      (
        s,
        record {
          reach = m.reach;
          exclusion = omega (arith, out, nobody, l.after, around holds before rest after);
          pending =
              m.pending
              ∙ ap asks at
              ∙ asks-around before after c
              ∙ ap (λ k. asks before ++ (k ++ asks after)) (l.nobody ∙ sym l.same)
              ∙ sym (
                  asks-append (before ++ rest) after
                  ∙ ap (λ k. k ++ asks after) (asks-append before rest)
                  ∙ append_assoc (asks before) (asks rest) (asks after));
          phase = m.phase;
          store = m.store;
        },
      )
