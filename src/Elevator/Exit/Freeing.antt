-- ===== src/Elevator/Exit/Freeing.antt =====
-- What elevator_exit does to the lists and the blocks of the passengers that are left.
use native.Mathlib.Decide.{ℕ_discrete}
use cop4610_project.Base.{
  ℕ, zero, suc, ◌+◌, ◌<◌, ◌≡◌, ◌≢◌, refl, ap, sym, ◌∙◌, subst, not, if◌then◌else◌, some, List, [],
  ◌∷◌, arith, is_empty, occurs, update_self, update_other, sum_below, sum_below-congr,
}
use cop4610_project.Elevator.Types.{Passenger, Floors, Store}
use cop4610_project.Elevator.Building.{list_del, kfree}
use cop4610_project.Elevator.Exit.{free_list, free_floor, free_floors, free_passengers}
use cop4610_project.Elevator.Invariant.{BlocksOk}
use cop4610_project.Elevator.Exit.Removing.{
  node, off_board, off_queue, off_board-run, off_queue-run, off_board-BlocksOk, off_queue-BlocksOk,
}

-- Only the lists of floor `c` change; which of them is emptied is said beside it.
record OnlyAt (c : ℕ) (m m' : Store) : Type 0 where
  queues : (i : ℕ) → i ≢ c → (m'.b.f i).waiting ≡ (m.b.f i).waiting
  riders : (i : ℕ) → i ≢ c → m'.b.e.p i ≡ m.b.e.p i

free_list-cons :
    (p : Passenger) (ps : List Passenger) (m m1 : Store)
    → kfree p.node (record m { b = list_del p.node m.b }) ≡ some m1
    → free_list (p ∷ ps) m ≡ free_list ps m1
unfolding free_list
free_list-cons p ps m m1 e = rw e

module _ (leaked : ℕ → ℕ) where
  free_riders :
      (l : List Passenger) (c : ℕ) (m : Store)
      → BlocksOk leaked m
      → c < 10
      → m.b.e.p c ≡ l
      → (m' : Store) × (free_list l m ≡ some m')
        × BlocksOk leaked m'
        × OnlyAt c m m'
        × (m'.b.e.p c ≡ [])
        × ((m'.b.f c).waiting ≡ (m.b.f c).waiting)
  unfolding free_list
  free_riders [] c m ok lt h =
      (m, refl, ok, record { queues = λ i ne. refl; riders = λ i ne. refl }, h, refl)
  free_riders (p ∷ ps) c m ok lt h =
      let (m', run, ok', only, empty, queue) =
        free_riders ps c (off_board c p ps m) (off_board-BlocksOk leaked m ok c p ps lt h) lt
          (update_self m.b.e.p c ps) in
      (
        m',
        free_list-cons p ps m (off_board c p ps m) (off_board-run leaked m ok c p ps lt h) ∙ run,
        ok',
        record {
          queues = only.queues;
          riders = λ i ne. only.riders i ne ∙ update_other m.b.e.p c ps i ne;
        },
        empty,
        queue,
      )

  free_queue :
      (l : List Passenger) (c : ℕ) (m : Store)
      → BlocksOk leaked m
      → c < 10
      → (m.b.f c).waiting ≡ l
      → (m' : Store) × (free_list l m ≡ some m')
        × BlocksOk leaked m'
        × OnlyAt c m m'
        × ((m'.b.f c).waiting ≡ [])
        × (m'.b.e.p c ≡ m.b.e.p c)
  unfolding free_list
  free_queue [] c m ok lt h =
      (m, refl, ok, record { queues = λ i ne. refl; riders = λ i ne. refl }, h, refl)
  free_queue (p ∷ ps) c m ok lt h =
      let new = record (m.b.f c) { waiting = ps } in
      let (m', run, ok', only, empty, riders) =
        free_queue ps c (off_queue c p ps m) (off_queue-BlocksOk leaked m ok c p ps lt h) lt
          (ap (λ (fl : Floors). fl.waiting) (update_self m.b.f c new)) in
      (
        m',
        free_list-cons p ps m (off_queue c p ps m) (off_queue-run leaked m ok c p ps lt h) ∙ run,
        ok',
        record {
          queues = λ i ne.
              only.queues i ne ∙ ap (λ (fl : Floors). fl.waiting) (update_other m.b.f c new i ne);
          riders = only.riders;
        },
        empty,
        riders,
      )

occurs-nil : (a : ℕ) → node a [] ≡ 0
unfolding occurs
occurs-nil a = refl

pub sum_below_zero : (g : ℕ → ℕ) → ((i : ℕ) → i < 10 → g i ≡ 0) → sum_below 10 g ≡ 0
unfolding sum_below
sum_below_zero g h = sum_below-congr 10 g (λ i. 0) h

-- Both lists of a floor are empty.
record Cleared (i : ℕ) (m : Store) : Type 0 where
  queue : (m.b.f i).waiting ≡ []
  riders : m.b.e.p i ≡ []

free_floor-run :
    (c : ℕ) (m m1 m2 : Store)
    → free_list (m.b.e.p c) m ≡ some m1
    → free_list (m1.b.f c).waiting m1 ≡ some m2
    → free_floor c m ≡ some m2
unfolding free_floor free_list
free_floor-run c m m1 m2 one two =
    rw (guarded (m.b.e.p c) m m1 one) (guarded (m1.b.f c).waiting m1 m2 two)
  where
    guarded :
        (l : List Passenger) (x y : Store)
        → free_list l x ≡ some y
        → (if not (is_empty l) then free_list l x else some x) ≡ some y
    guarded [] x y e = e
    guarded (p ∷ ps) x y e = e

module _ (leaked : ℕ → ℕ) where
  clear_floor :
      (c : ℕ) (m : Store)
      → BlocksOk leaked m
      → c < 10
      → (m' : Store) × (free_floor c m ≡ some m')
        × BlocksOk leaked m'
        × OnlyAt c m m'
        × Cleared c m'
  clear_floor c m ok lt =
      let (m1, one, ok1, only1, off, queue) = free_riders leaked (m.b.e.p c) c m ok lt refl in
      let (m2, two, ok2, only2, gone, riders) =
        free_queue leaked (m1.b.f c).waiting c m1 ok1 lt refl in
      (
        m2,
        free_floor-run c m m1 m2 one two,
        ok2,
        record {
          queues = λ i ne. only2.queues i ne ∙ only1.queues i ne;
          riders = λ i ne. only2.riders i ne ∙ only1.riders i ne;
        },
        record { queue = gone; riders = riders ∙ off },
      )

  clear_floors :
      (n i : ℕ) (m : Store)
      → BlocksOk leaked m
      → i + n ≡ 10
      → ((j : ℕ) → j < i → Cleared j m)
      → (m' : Store) × (free_floors n i m ≡ some m')
        × BlocksOk leaked m'
        × ((j : ℕ) → j < 10 → Cleared j m')
  unfolding free_floors
  clear_floors zero i m ok total done = (m, refl, ok, λ j lj. done j (omega arith))
  clear_floors (suc n) i m ok total done =
      let (m1, one, ok1, only, here) = clear_floor i m ok (omega arith) in
      let (m2, more, ok2, all) = clear_floors n (i + 1) m1 ok1 (omega arith) (λ j lj.
        elim (ℕ_discrete j i) [
          | yes e ↦ subst (λ k. Cleared k m1) (sym e) here
          | no ne ↦
              let before = done j (omega arith) in
              record {
                queue = only.queues j ne ∙ before.queue;
                riders = only.riders j ne ∙ before.riders;
              }
        ]) in
      (m2, rw one more, ok2, all)

  -- elevator_exit never faults, and of the passenger blocks only those stay allocated that no list
  -- of the building held.
  pub free_passengers-frees :
      (m : Store)
      → BlocksOk leaked m
      → (m' : Store) × (free_passengers m ≡ some m')
        × ((a : ℕ) → (if m'.live a then 1 else 0) ≡ leaked a)
        × ((i : ℕ) → i < 10 → ((m'.b.f i).waiting ≡ []) × (m'.b.e.p i ≡ []))
  unfolding free_passengers
  free_passengers-frees m ok =
      let (m', run, ok', all) =
        clear_floors 10 0 m ok (omega arith) (λ j lj. absurd (omega arith)) in
      (
        m',
        run,
        λ a.
            let nothing = λ (l : List Passenger) (e : l ≡ []). ap (node a) e ∙ occurs-nil a in
            omega (
              arith,
              ok' a,
              sum_below_zero (λ i. node a (m'.b.f i).waiting) (λ i li. nothing _ (all i li).queue),
              sum_below_zero (λ i. node a (m'.b.e.p i)) (λ i li. nothing _ (all i li).riders),
            ),
        λ i li. ((all i li).queue, (all i li).riders),
      )
