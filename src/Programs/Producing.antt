-- ===== src/Programs/Producing.antt =====
-- The loop and the request of producer.c.
use cop4610_project.Base.{ℕ, ◌≤◌, ◌≡◌, ◌≢◌, true, false, some, List, [], ◌∷◌, ◌++◌, arith, All}
use cop4610_project.Elevator.Invariant.Requesting.{InRange}
use cop4610_project.Elevator.Kernel.{Kernel}
use cop4610_project.Programs.{Ended, rnd, draw_dest, producer_text, producer_main}
use cop4610_project.Programs.Accepted.{IsReady, queued_in, accepted_run, accepted-IsReady}

rnd_bounds : (r min max : ℕ) → min ≤ max → (min ≤ rnd r min max) × (rnd r min max ≤ max)
unfolding rnd
rnd_bounds r min max le = grind arith

-- The loop goes on while a result gives the start, and ends at the first that does not.
draw_dest-ends :
    (start : ℕ) (before : List ℕ) (r : ℕ) (after : List ℕ)
    → All (λ x. rnd x 1 10 ≡ start) before
    → rnd r 1 10 ≢ start
    → draw_dest start (before ++ r ∷ after) ≡ some (rnd r 1 10)
unfolding draw_dest
draw_dest-ends start [] r after same differs = ground arith
draw_dest-ends start (x ∷ before) r after same differs =
    ground (arith, same.0, draw_dest-ends start before r after same.1 differs)

-- producer.c, on a module that is ready, with memory and the lock: as soon as rand gives a result `r`
-- whose floor is not the start, the loop ends, and the program asks for a passenger of one of the four
-- types between two different floors of the building. The request is taken, the program prints that 0
-- was returned, and returns 0.
pub producer_asks :
    {leaked : ℕ → ℕ} (a r1 r2 : ℕ) (before : List ℕ) (r : ℕ) (after : List ℕ) (k : Kernel)
    → IsReady leaked k
    → k.store.live a ≡ false
    → All (λ x. rnd x 1 10 ≡ rnd r2 1 10) before
    → rnd r 1 10 ≢ rnd r2 1 10
    → let type = rnd r1 1 4 in
      let start = rnd r2 1 10 in
      let dest = rnd r 1 10 in
      (producer_main 1 r1 r2 (before ++ r ∷ after) (record { acquired = true; block = some a }) k
        ≡ Ended.returned (queued_in a type start dest k) (producer_text type start dest 0) 0)
      × InRange type start dest
      × IsReady leaked (queued_in a type start dest k)
unfolding producer_main
producer_asks a r1 r2 before r after k ready fresh same differs =
    let (t_low, t_high) = rnd_bounds r1 1 4 (omega arith) in
    let (s_low, s_high) = rnd_bounds r2 1 10 (omega arith) in
    let (d_low, d_high) = rnd_bounds r 1 10 (omega arith) in
    let range : InRange (rnd r1 1 4) (rnd r2 1 10) (rnd r 1 10) = record {
      type_low = t_low;
      type_high = t_high;
      s_low = s_low;
      s_high = s_high;
      d_low = d_low;
      d_high = d_high;
    } in
    (
      rw (
        draw_dest-ends (rnd r2 1 10) before r after same differs,
        accepted_run k a (rnd r1 1 4) (rnd r2 1 10) (rnd r 1 10) ready range fresh,
      ),
      range,
      accepted-IsReady k a (rnd r1 1 4) (rnd r2 1 10) (rnd r 1 10) ready range fresh,
    )
