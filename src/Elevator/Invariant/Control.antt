-- ===== src/Elevator/Invariant/Control.antt =====
-- Changes of the state, the position and the shutdown flag, which leave the passengers alone.
use cop4610_project.Base.{ℕ, ◌≡◌, ◌≢◌, refl, true, false, arith}
use cop4610_project.Elevator.Types.{State, idle, offline, loading, up, down, unset, Store}
use cop4610_project.Elevator.Thread.{is_offline, set_status}
use cop4610_project.Elevator.Invariant.{MotionOk, StoreOk}

abbrev pub steer : State → (current next shutdown direction : ℕ) → Store → Store
steer s current next shutdown direction m = record m {
  b = record (m.b) {
    e = record (m.b.e) {
      status = s;
      current = current;
      next = next;
      shutdown = shutdown;
      direction = direction;
    };
  };
}

pub steer-StoreOk :
    {leaked : ℕ → ℕ} {m : Store}
    → StoreOk leaked m
    → (s : State) (c n d w : ℕ) → MotionOk (steer s c n d w m).b.e
    → StoreOk leaked (steer s c n d w m)
steer-StoreOk ok s c n d w motion =
    let old = ok.elevator in
    record {
      floors = ok.floors;
      elevator = record {
        queues = old.queues;
        w_units = old.w_units;
        p_units = old.p_units;
        adults = old.adults;
        children = old.children;
        rooms = old.rooms;
        bells = old.bells;
        w_max = old.w_max;
        p_max = old.p_max;
      };
      motion = motion;
      blocks = ok.blocks;
    }

pub set_status-StoreOk :
    {leaked : ℕ → ℕ} {m : Store} → StoreOk leaked m → (s : State) → StoreOk leaked (set_status s m)
set_status-StoreOk {m = m} ok s =
    let old = ok.motion in
    steer-StoreOk ok s m.b.e.current m.b.e.next m.b.e.shutdown m.b.e.direction (record {
      current = old.current;
      next = old.next;
      heading = old.heading;
      shutdown = old.shutdown;
    })

pub offline_of_test : (s : State) → is_offline s ≡ true → s ≡ offline
offline_of_test idle h = cc
offline_of_test offline h = refl
offline_of_test loading h = cc
offline_of_test up h = cc
offline_of_test down h = cc
offline_of_test (unset n) h = cc

pub not_offline_of_test : (s : State) → is_offline s ≡ false → s ≢ offline
not_offline_of_test s h e = ground arith
