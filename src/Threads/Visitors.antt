-- ===== src/Threads/Visitors.antt =====
-- The theorems on the proc files of the counting threads, at a module with no block allocated.
use cop4610_project.Base.{inl, inr, refl, true, false, none, some, List, [], ◌∷◌, arith}
use cop4610_project.Threads.{Runner, Reader, ThreadParameter, thread_init_parameter}
use cop4610_project.Threads.Racing.{RaceParameter, race_init_parameter}
use cop4610_project.Threads.Device.{Device}
use cop4610_project.Threads.Opening.{Opening, locked_open, race_open}
use cop4610_project.Threads.Leaking.{kept, locked_text, race_text, race_left, AllFresh}
use cop4610_project.Threads.Lasting.{Ends, life_leaks}

abbrev unloaded : {P : Type 0} → P → Device P
unloaded p = record {
  message = none;
  read_p = false;
  live = λ x. false;
  proc_entry = false;
  running = false;
  thread1 = p;
}

abbrev locked_device : Device ThreadParameter
locked_device =
    unloaded
      (record { id = 0; cnt = λ i. 0; locked = false; runner = Runner.head; reader = Reader.away })

abbrev race_device : Device RaceParameter
race_device = unloaded (record { id = 0; cnt = λ i. 0; runner = Runner.head; reader = Reader.away })

-- One process gets its text, the next has no memory for it, and a third does not get the lock.
abbrev first_opening : Opening
first_opening = record { buf = some 1; message = some 2; acquired = true; value = λ i. i }

abbrev second_opening : Opening
second_opening = record { buf = some 3; message = none; acquired = true; value = λ i. i }

abbrev third_opening : Opening
third_opening = record { buf = some 4; message = some 2; acquired = false; value = λ i. 7 }

abbrev openings : List Opening
openings = first_opening ∷ second_opening ∷ third_opening ∷ []

locked_AllFresh : AllFresh (λ o. kept o.buf) openings (λ x. false)
unfolding AllFresh kept
locked_AllFresh = (
  (1, refl, refl, inr (2, refl, refl, λ e. omega (arith, e))),
  ((3, refl, refl, inl refl), ((4, refl, refl, inr (2, refl, refl, λ e. omega (arith, e))), tt)),
)

race_AllFresh : AllFresh race_left openings (λ x. false)
unfolding AllFresh race_left
race_AllFresh = (
  (1, refl, refl, inr (2, refl, refl, λ e. omega (arith, e))),
  ((3, refl, refl, inl refl), ((4, refl, refl, inr (2, refl, refl, λ e. omega (arith, e))), tt)),
)

life_leaks_example :
    Ends thread_init_parameter
      (locked_open (λ p. p.id))
      (locked_text 1)
      (λ o. kept o.buf)
      true
      none
      openings
      locked_device
    × Ends race_init_parameter
        (race_open (λ p. p.id))
        (race_text 1)
        race_left
        true
        none
        openings
        race_device
life_leaks_example =
    life_leaks true none openings locked_device race_device tt refl refl locked_AllFresh
      race_AllFresh
