-- ===== src/Elevator/Exit/Removing.antt =====
-- What list_del and kfree do to the first passenger of a list, in elevator_exit.
use cop4610_project.Base.{
  ℕ, ◌≤◌, ◌<◌, ◌≡◌, ap, true, false, some, List, ◌∷◌, arith, occurs, occurs-cons, update,
  sum_below-update, elem-le-sum_below,
}
use cop4610_project.Elevator.Types.{Passenger, Floors, Store}
use cop4610_project.Elevator.Building.{list_del, kfree}
use cop4610_project.Elevator.Invariant.{placed, BlocksOk}
use cop4610_project.Elevator.Invariant.Unlink.{
  RidesAlone-placed, WaitsAlone-placed, list_del-aboard, list_del-waiting,
}

abbrev pub node : ℕ → List Passenger → ℕ
node a = occurs (λ q. q.node) a

-- The head of a list for the elevator, or of a waiting list, is gone.
abbrev pub off_board : ℕ → Passenger → List Passenger → Store → Store
off_board c p ps m = record {
  b = record (m.b) { e = record (m.b.e) { p = update m.b.e.p c ps } };
  live = update m.live p.node false;
}

abbrev pub off_queue : ℕ → Passenger → List Passenger → Store → Store
off_queue c p ps m = record {
  b = record (m.b) { f = update m.b.f c (record (m.b.f c) { waiting = ps }) };
  live = update m.live p.node false;
}

module _ (leaked : ℕ → ℕ) (m : Store) (ok : BlocksOk leaked m) (c : ℕ) (p : Passenger)
    (ps : List Passenger) (lt : c < 10) where
  once : placed p.node m.b ≤ 1
  once = ground (arith, ok p.node)

  pub off_board-run :
      m.b.e.p c ≡ p ∷ ps
      → kfree p.node (record m { b = list_del p.node m.b }) ≡ some (off_board c p ps m)
  unfolding kfree
  off_board-run h =
      let is_live : m.live p.node ≡ true = ground (
        arith,
        ap (node p.node) h,
        occurs-cons (λ (q : Passenger). q.node) p.node p ps,
        ok p.node,
        elem-le-sum_below 10 (λ i. node p.node (m.b.e.p i)) c lt,
      ) in
      rw (list_del-aboard lt (RidesAlone-placed m.b c p ps lt once h), is_live)

  pub off_queue-run :
      (m.b.f c).waiting ≡ p ∷ ps
      → kfree p.node (record m { b = list_del p.node m.b }) ≡ some (off_queue c p ps m)
  unfolding kfree
  off_queue-run h =
      let is_live : m.live p.node ≡ true = ground (
        arith,
        ap (node p.node) h,
        occurs-cons (λ (q : Passenger). q.node) p.node p ps,
        ok p.node,
        elem-le-sum_below 10 (λ i. node p.node (m.b.f i).waiting) c lt,
      ) in
      rw (list_del-waiting lt (WaitsAlone-placed m.b c p ps lt once h), is_live)

  pub off_board-BlocksOk : m.b.e.p c ≡ p ∷ ps → BlocksOk leaked (off_board c p ps m)
  off_board-BlocksOk h a = ground (
    arith,
    ok a,
    sum_below-update 10 (node a) m.b.e.p c ps lt,
    ap (node a) h,
    occurs-cons (λ (q : Passenger). q.node) a p ps,
    elem-le-sum_below 10 (λ i. node a (m.b.e.p i)) c lt,
  )

  pub off_queue-BlocksOk : (m.b.f c).waiting ≡ p ∷ ps → BlocksOk leaked (off_queue c p ps m)
  off_queue-BlocksOk h a = ground (
    arith,
    ok a,
    sum_below-update 10 (λ (fl : Floors). node a fl.waiting) m.b.f c
        (record (m.b.f c) { waiting = ps }) lt,
    ap (node a) h,
    occurs-cons (λ (q : Passenger). q.node) a p ps,
    elem-le-sum_below 10 (λ i. node a (m.b.f i).waiting) c lt,
  )
