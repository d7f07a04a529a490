-- ===== src/Elevator/Mutex/Beside.antt =====
-- What an allocation between two accesses of the first section changes: one block, and nothing else.
use cop4610_project.Base.{
  Ensures, ℕ, ◌≡◌, ◌≢◌, inl, inr, refl, ap, fun_ext, Bool, Bool-cases, true, false, not, ◌&&◌, ◌||◌,
  ◌==◌, if◌then◌else◌, Option, none, some, ◌>>=◌, List, [], ◌∷◌, arith, get_elem?, is_empty, update,
  add32, sub32,
}
use cop4610_project.Elevator.Types.{loading, Passenger, Building, Store}
use cop4610_project.Elevator.Building.{del_pass, kfree, alight, list_del}
use cop4610_project.Elevator.Invariant.Counters.{alight-SameCourse}
use cop4610_project.Elevator.Passengers.{get_weight, get_pass, is_invalid}
use cop4610_project.Elevator.Checks.{check_floor}
use cop4610_project.Elevator.Thread.{
  is_offline, set_status, unload, unload_floor, load, load_floor, service,
}
use cop4610_project.Elevator.Invariant.Arriving.{allocated}
use cop4610_project.Elevator.Mutex.{Rest}
use cop4610_project.Elevator.Mutex.Accesses.{run_rest, Kept, Kept-trans, load-shutdown}

-- With another block allocated, the same happens, and that block stays.
pub record Beside (a : ℕ) (m : Store) (more : Option Store) (n : Store) : Type 0 where
  pub kept : Kept m n
  pub same : more ≡ some (allocated a n)

update_swap :
    (live : ℕ → Bool) (a x : ℕ)
    → x ≢ a
    → update (update live a true) x false ≡ update (update live x false) a true
update_swap live a x apart = fun_ext (λ y. ground (arith, apart))

kfree-Beside :
    (a x : ℕ) (m : Store)
    → m.live a ≡ false
    → Ensures (kfree x m) (Beside a m (kfree x (allocated a m)))
unfolding kfree
kfree-Beside a x m unused = elim (Bool-cases (m.live x)) [
  | inl live ↦
      let apart : x ≢ a = λ e. cc (ap m.live e, live, unused) in
      let other : (if x == a then true else true) ≡ true = ground arith in
      rw (live, other)
        (record {
          kept = record { shutdown = refl; unused = λ y h. ground (arith, h) };
          same = ap (λ l. some (record m { live = l })) (update_swap m.live a x apart);
        })
  | inr dead ↦ rw dead tt
]

module _ (a : ℕ) (m : Store) where
  Beside-here : Ensures (some m) (Beside a m (some (allocated a m)))
  Beside-here = record { kept = record { shutdown = refl; unused = λ x h. h }; same = refl }

  Beside-if :
      (test : Bool) (x y x' y' : Option Store)
      → Ensures x (Beside a m x')
      → Ensures y (Beside a m y')
      → Ensures (if test then x else y) (Beside a m (if test then x' else y'))
  Beside-if true x y x' y' hx hy = hx
  Beside-if false x y x' y' hx hy = hy

  Beside-get {ℓ} :
      {A : Type ℓ} (o : Option A) (f g : A → Option Store)
      → ((x : A) → Ensures (f x) (Beside a m (g x)))
      → Ensures (o >>= f) (Beside a m (o >>= g))
  Beside-get none f g h = tt
  Beside-get (some x) f g h = h x

  Beside-after :
      (n : Store) (o o' : Option Store)
      → Kept m n
      → Ensures o (Beside a n o')
      → Ensures o (Beside a m o')
  Beside-after n none o' kept h = tt
  Beside-after n (some x) o' kept h = record { kept = Kept-trans m n x kept h.kept; same = h.same }

  Beside-bind :
      (o o' : Option Store) (f : Store → Option Store)
      → Ensures o (Beside a m o')
      → ((x : Store) → Kept m x → Ensures (f x) (Beside a x (f (allocated a x))))
      → Ensures (o >>= f) (Beside a m (o' >>= f))
  Beside-bind none o' f h then_f = tt
  Beside-bind (some x) o' f h then_f =
      rw h.same (Beside-after x (f x) (f (allocated a x)) h.kept (then_f x h.kept))

del_pass-Beside :
    (a : ℕ) (m : Store) (p : Passenger)
    → m.live a ≡ false
    → Ensures (del_pass m p) (Beside a m (del_pass (allocated a m) p))
unfolding del_pass list_del
del_pass-Beside a m p unused = Beside-if a m (is_invalid p) (some m) _ _ _ (Beside-here a m) (
    Beside-get a m (get_elem? m.b.f p.s_floor) _ _ λ fl.
      let e1 = alight p.kind m.b.e in
      let e2 = record e1 {
        w_units = sub32 e1.w_units (get_weight p);
        p_units = sub32 e1.p_units (get_pass p);
      } in
      let f' = update m.b.f p.s_floor (record fl { serviced = add32 fl.serviced 1 }) in
      let off : Store = record m { b = list_del p.node (record { f = f'; e = e2 }) } in
      let kept : Kept m off = record {
        shutdown = (alight-SameCourse p.kind m.b.e).shutdown;
        unused = λ x h. h;
      } in
      Beside-after a m off (kfree p.node off) (kfree p.node (allocated a off)) kept
        (kfree-Beside a p.node off unused))

unload-Beside :
    (a : ℕ) (l : List Passenger) (m : Store)
    → m.live a ≡ false
    → Ensures (unload l m) (Beside a m (unload l (allocated a m)))
unfolding unload
unload-Beside a [] m unused = Beside-here a m
unload-Beside a (p ∷ ps) m unused =
    Beside-bind a m (if p.d_floor == m.b.e.current then del_pass m p else some m)
      (if p.d_floor == m.b.e.current then del_pass (allocated a m) p else some (allocated a m))
      (unload ps)
      (Beside-if a m (p.d_floor == m.b.e.current) (del_pass m p) (some m)
        (del_pass (allocated a m) p) (some (allocated a m)) (del_pass-Beside a m p unused)
        (Beside-here a m))
      (λ x kept. unload-Beside a ps x (kept.unused a unused))

boarded-Beside :
    (a : ℕ) (m : Store) (o : Option Building)
    → Ensures o (λ b'. b'.e.shutdown ≡ m.b.e.shutdown)
    → Ensures
        (do b' ← o; some (record m { b = b' }))
        (Beside a m (do b' ← o; some (record (allocated a m) { b = b' })))
boarded-Beside a m none h = tt
boarded-Beside a m (some b') h = record {
  kept = record { shutdown = h; unused = λ x e. e };
  same = refl;
}

load_floor-Beside :
    (a : ℕ) (m : Store) → Ensures (load_floor m) (Beside a m (load_floor (allocated a m)))
unfolding load_floor
load_floor-Beside a m = Beside-get a m (check_floor m.b m.b.e.current) _ _ λ here.
    Beside-get a m (get_elem? m.b.f m.b.e.current) _ _ λ fl.
      Beside-if a m (here && not (m.b.e.shutdown == 1)) _ (some m) _ (some (allocated a m))
        (boarded-Beside a m (load fl.waiting m.b) (load-shutdown fl.waiting m.b)) (Beside-here a m)

unload_floor-Beside :
    (a : ℕ) (m : Store)
    → m.live a ≡ false
    → Ensures (unload_floor m) (Beside a m (unload_floor (allocated a m)))
unfolding unload_floor
unload_floor-Beside a m unused = Beside-get a m (get_elem? m.b.e.p m.b.e.current) _ _ λ q.
    Beside-if a m (not (is_empty q)) (unload q m) (some m) (unload q (allocated a m))
      (some (allocated a m)) (unload-Beside a q m unused) (Beside-here a m)

service-Beside :
    (a : ℕ) (m : Store)
    → m.live a ≡ false
    → Ensures (service m) (Beside a m (service (allocated a m)))
unfolding service
service-Beside a m unused =
    let on : Store = set_status loading m in
    let kept : Kept m on = record { shutdown = refl; unused = λ x h. h } in
    Beside-if a m (is_offline m.b.e.status) (some m) _ (some (allocated a m)) _ (Beside-here a m) (
      Beside-get a m (get_elem? m.b.f m.b.e.current) _ _ λ fl.
        Beside-get a m (get_elem? m.b.e.p m.b.e.current) _ _ λ q.
          Beside-if a m (not (is_empty fl.waiting) || not (is_empty q)) _ (some m) _
            (some (allocated a m))
            (Beside-after a m on _ _ kept (
              Beside-bind a on (unload_floor on) (unload_floor (allocated a on)) load_floor
                (unload_floor-Beside a on unused) (λ x more. load_floor-Beside a x)))
            (Beside-here a m))

-- An allocation before what is left of the section is as good as one after it.
pub run_rest-Beside :
    (a : ℕ) (r : Rest) (m : Store)
    → m.live a ≡ false
    → Ensures (run_rest r m) (Beside a m (run_rest r (allocated a m)))
unfolding run_rest
run_rest-Beside a Rest.entering m unused = service-Beside a m unused
run_rest-Beside a (Rest.unloading l) m unused =
    Beside-bind a m (unload l m) (unload l (allocated a m)) load_floor (unload-Beside a l m unused)
      (λ x kept. load_floor-Beside a x)
run_rest-Beside a Rest.boarding m unused = load_floor-Beside a m
run_rest-Beside a (Rest.letting_in l) m unused =
    boarded-Beside a m (load l m.b) (load-shutdown l m.b)
run_rest-Beside a Rest.finished m unused = Beside-here a m
