-- ===== src/Programs/Consuming.antt =====
-- The elevator switched on and off by consumer.c.
use cop4610_project.Base.{ℕ, ◌≡◌, true, [], ◌∷◌, ◌++◌, Text, codes, show_int}
use cop4610_project.Elevator.Types.{idle, offline}
use cop4610_project.Elevator.Requests.{start_elevator, stop_elevator}
use cop4610_project.Elevator.Kernel.{Kernel, sys_start_elevator, sys_stop_elevator}
use cop4610_project.Programs.{Turn, start_elevator_wrapper, stop_elevator_wrapper, consumer_main}

abbrev pub start_text : ℕ → Text
start_text ret = codes "Start elevator returned " ++ (show_int ret ++ codes "\n")

abbrev pub stop_text : ℕ → Text
stop_text ret = codes "Stop elevator returned " ++ (show_int ret ++ codes "\n")

-- The kernel after a successful start, and after a successful stop.
abbrev pub started : Kernel → Kernel
started k = record k {
  store = record (k.store) {
    b = record (k.store.b) {
      e = record (k.store.b.e) { status = idle; current = 0; next = 1; shutdown = 0 };
    };
  };
}

abbrev pub stopped : Kernel → Kernel
stopped k = record k {
  store = record (k.store) { b = record (k.store.b) { e = record (k.store.b.e) { shutdown = 1 } } };
}

-- consumer.c on the loaded module, where every call gets the lock and nobody else acts: from an
-- elevator that is offline, --start starts it at the first floor and prints 0, --start again prints 1
-- and changes nothing; then --stop asks for the shutdown and prints 0, and from there --stop and
-- --start print 1 and change nothing. Each returns 0.
pub consumer_switches :
    (name : Text) (turn : Turn) (k : Kernel)
    → k.stubs.start ≡ true
    → k.stubs.stop ≡ true
    → turn.acquired ≡ true
    → k.store.b.e.status ≡ offline
    → let on = codes "--start" in
      let off = codes "--stop" in
      let k1 = started k in
      let k2 = stopped k1 in
      (consumer_main (name ∷ on ∷ []) turn k ≡ (k1, start_text 0, 0))
      × (consumer_main (name ∷ on ∷ []) turn k1 ≡ (k1, start_text 1, 0))
      × (consumer_main (name ∷ off ∷ []) turn k1 ≡ (k2, stop_text 0, 0))
      × (consumer_main (name ∷ off ∷ []) turn k2 ≡ (k2, stop_text 1, 0))
      × (consumer_main (name ∷ on ∷ []) turn k2 ≡ (k2, start_text 1, 0))
unfolding consumer_main start_elevator_wrapper stop_elevator_wrapper sys_start_elevator
    sys_stop_elevator start_elevator stop_elevator
consumer_switches name turn k start stop lock off =
    (rw (start, lock, off), rw (start, lock), rw (stop, lock), rw (stop, lock), rw (start, lock))
