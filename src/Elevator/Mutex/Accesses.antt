-- ===== src/Elevator/Mutex/Accesses.antt =====
-- The accesses of the first section, one after the other, and what kmalloc in between leaves alone.
use cop4610_project.Base.{
  Ensures, ensures_if, ensures_bind, ensured, ℕ, ◌≡◌, refl, ap, ◌∙◌, subst, false, ◌&&◌, ◌==◌,
  if◌then◌else◌, Option, some, ◌>>=◌, List, [], ◌∷◌, arith, get_elem?, update, add32, sub32,
}
use cop4610_project.Elevator.Types.{Passenger, Building, Store}
use cop4610_project.Elevator.Building.{move_pass, board, count_out, list_del, list_move_tail}
use cop4610_project.Elevator.Invariant.Counters.{board-SameCourse}
use cop4610_project.Elevator.Passengers.{get_weight, get_pass, is_invalid, can_fit, p_direction}
use cop4610_project.Elevator.Thread.{unload, unload_floor, load, load_floor, service}
use cop4610_project.Elevator.Mutex.{Rest, access}

-- All that is left of the section at once.
unfoldable pub run_rest : Rest → Store → Option Store
run_rest Rest.entering m = service m
run_rest (Rest.unloading l) m = do m' ← unload l m; load_floor m'
run_rest Rest.boarding m = load_floor m
run_rest (Rest.letting_in l) m = do b' ← load l m.b; some (record m { b = b' })
run_rest Rest.finished m = some m

-- An access, and then the rest, is the section.
pub access_then :
    (r : Rest) (m : Store) → run_rest r m ≡ (do step ← access r m; run_rest step.0 step.1)
unfolding access run_rest service unload_floor unload load load_floor
access_then Rest.entering m = ground arith
access_then (Rest.unloading []) m = refl
access_then (Rest.unloading (p ∷ ps)) m = ground arith
access_then Rest.boarding m = ground arith
access_then (Rest.letting_in []) m = refl
access_then (Rest.letting_in (p ∷ ps)) m = ground arith
access_then Rest.finished m = refl

pub access-run_rest :
    (r r' : Rest) (m m' : Store) → access r m ≡ some (r', m') → run_rest r m ≡ run_rest r' m'
access-run_rest r r' m m' h =
    access_then r m ∙ ap (λ (o : Option (Rest × Store)). o >>= (λ step. run_rest step.0 step.1)) h

-- The section leaves the shutdown flag alone, and allocates nothing.
pub record Kept (m n : Store) : Type 0 where
  pub shutdown : n.b.e.shutdown ≡ m.b.e.shutdown
  pub unused : (x : ℕ) → m.live x ≡ false → n.live x ≡ false

pub Kept-trans : (k m n : Store) → Kept k m → Kept m n → Kept k n
Kept-trans k m n one two = record {
  shutdown = two.shutdown ∙ one.shutdown;
  unused = λ x h. two.unused x (one.unused x h);
}

list_move_tail-shutdown :
    (p : Passenger) (d : ℕ) (b : Building)
    → Ensures (list_move_tail p d b) (λ b'. b'.e.shutdown ≡ b.e.shutdown)
unfolding list_move_tail list_del
list_move_tail-shutdown p d b =
    ensures_bind (λ (b' : Building). b'.e.shutdown ≡ b.e.shutdown)
      (get_elem? (list_del p.node b).e.p d) _ (λ q at. refl)

move_pass-shutdown :
    (p : Passenger) (b : Building) → Ensures (move_pass b p) (λ b'. b'.e.shutdown ≡ b.e.shutdown)
unfolding move_pass
move_pass-shutdown p b =
    let P = λ (b' : Building). b'.e.shutdown ≡ b.e.shutdown in
    ensures_if P (is_invalid p) (some b) _ refl (
      ensures_bind P (get_elem? b.f p.s_floor) _ λ fl at.
        let fl1 = count_out p.kind fl in
        let fl2 = record fl1 {
          w_units = sub32 fl1.w_units (get_weight p);
          p_units = sub32 fl1.p_units (get_pass p);
        } in
        let e1 = board p.kind b.e in
        let e2 = record e1 {
          w_units = add32 e1.w_units (get_weight p);
          p_units = add32 e1.p_units (get_pass p);
        } in
        let moving : Building = record { f = update b.f p.s_floor fl2; e = e2 } in
        subst (λ v. Ensures (list_move_tail p p.d_floor moving) (λ b'. b'.e.shutdown ≡ v))
          (board-SameCourse p.kind b.e).shutdown (list_move_tail-shutdown p p.d_floor moving))

pub load-shutdown :
    (l : List Passenger) (b : Building) → Ensures (load l b) (λ b'. b'.e.shutdown ≡ b.e.shutdown)
unfolding load
load-shutdown [] b = refl
load-shutdown (p ∷ ps) b =
    let P = λ (b' : Building). b'.e.shutdown ≡ b.e.shutdown in
    ensures_if P (can_fit p b.e && (p_direction p == b.e.direction)) _ (some b)
      (ensures_bind P (if p.s_floor == b.e.current then move_pass b p else some b) (load ps)
        λ b1 one.
          let kept : b1.e.shutdown ≡ b.e.shutdown =
            ensured P
              (ensures_if P (p.s_floor == b.e.current) (move_pass b p) (some b)
                (move_pass-shutdown p b) refl)
              one in
          subst (λ v. Ensures (load ps b1) (λ b'. b'.e.shutdown ≡ v)) kept (load-shutdown ps b1))
      refl
