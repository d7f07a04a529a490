-- ===== src/Threads/Lasting.antt =====
-- The life of the two modules that count, with one process at a time and with two at once.
use cop4610_project.Base.{
  ℕ, ◌-◌, ◌^◌, ◌≤◌, ◌≡◌, ◌≢◌, ◌⊎◌, inl, inr, refl, Bool, true, false, ◌==◌, Option, none, some,
  List, [], arith, Text, map,
}
use cop4610_project.Threads.{ThreadParameter, thread_init_parameter}
use cop4610_project.Threads.Racing.{RaceParameter, race_init_parameter}
use cop4610_project.Threads.Device.{Device, thread_init, thread_exit}
use cop4610_project.Threads.Opening.{Opening, locked_open, race_open}
use cop4610_project.Threads.Life.{Opener, life, Shows}
use cop4610_project.Threads.Leaking.{
  kept, locked_text, race_text, race_left, locked-shows, race-shows, left_by, AllFresh,
  visits-shown,
}

-- What kthread_run returns where it fails.
abbrev pub IsError : Option ℕ → Type 0
IsError none = Unit
IsError (some e) = 2 ^ 32 - 4095 ≤ e

-- What is left of a module, and what the processes got.
pub data Lived (text : Opening → Text) (left : Opening → (ℕ → Bool) → ℕ → Bool) (created : Bool)
    (error : Option ℕ) (os : List Opening) (live after : ℕ → Bool) (texts : List Text)
    : Type 0 where
  used :
      created ≡ true
      → error ≡ none
      → texts ≡ map text os
      → after ≡ left_by left os live
      → Lived text left created error os live after texts
  refused :
      (created ≡ false) ⊎ (error ≢ none)
      → texts ≡ []
      → after ≡ live
      → Lived text left created error os live after texts

-- A life that ends, without an entry and without a thread.
abbrev pub Ends :
    {P : Type 0}
    → (P → P)
    → Opener P
    → (Opening → Text)
    → (Opening → (ℕ → Bool) → ℕ → Bool)
    → Bool
    → Option ℕ
    → List Opening
    → Device P
    → Type 0
Ends {P} init_parameter opener text left created error os d =
    (d' : Device P) × (texts : List Text) × (life init_parameter opener created error os d
      ≡ some (d', texts))
    × (d'.proc_entry ≡ false)
    × (d'.running ≡ false)
    × Lived text left created error os d.live d'.live texts

module _ {P : Type 0} (init_parameter : P → P) (opener : Opener P) (s : Shows opener) where
  life-Ends :
      (created : Bool) (error : Option ℕ) (os : List Opening) (d : Device P)
      → IsError error
      → d.running ≡ false
      → AllFresh s.left os d.live
      → Ends init_parameter opener (s.text (init_parameter d.thread1)) s.left created error os d
  unfolding life thread_init thread_exit
  life-Ends false error os d real stopped fresh =
      (record d { proc_entry = false }, [], refl, refl, stopped, Lived.refused (inl refl) refl refl)
  life-Ends true (some e) os d real stopped fresh =
      let failed : (e == 0) ≡ false = ground (arith, real) in
      (
        record d { proc_entry = false; running = false; thread1 = init_parameter d.thread1 },
        [],
        rw failed refl,
        refl,
        refl,
        Lived.refused (inr (λ e. cc)) refl refl,
      )
  life-Ends true none os d real stopped fresh =
      let d1 : Device P = record d {
        proc_entry = true;
        running = true;
        thread1 = init_parameter d.thread1;
      } in
      let (d2, run, v) = visits-shown opener s os d1 fresh in
      (
        record d2 { running = false; proc_entry = false },
        map (s.text (init_parameter d.thread1)) os,
        rw run refl,
        refl,
        refl,
        Lived.used refl refl refl v.blocks,
      )

-- Where one process at a time opens the file, kmalloc gives fresh blocks and always one for the second
-- buffer, the two modules run without a fault from their loading to their unloading, whatever
-- proc_create and kthread_run return. In the end there is no entry and no thread. A module that could
-- not be loaded has allocated nothing; otherwise each process got, in one piece and then the end, the
-- text with the number 1 of the thread and the twenty values that it met, or with -1 twenty times where
-- it did not get the lock, or nothing where there was no memory; and a block stays allocated for each
-- opening of the locked module, and for each opening of the racing one that had memory.
pub life_leaks :
    (created : Bool) (error : Option ℕ) (os : List Opening) (d : Device ThreadParameter)
    (r : Device RaceParameter)
    → IsError error
    → d.running ≡ false
    → r.running ≡ false
    → AllFresh (λ o. kept o.buf) os d.live
    → AllFresh race_left os r.live
    → Ends thread_init_parameter
        (locked_open (λ p. p.id))
        (locked_text 1)
        (λ o. kept o.buf)
        created
        error
        os
        d
      × Ends race_init_parameter (race_open (λ p. p.id)) (race_text 1) race_left created error os r
unfolding thread_init_parameter race_init_parameter
life_leaks created error os d r real d_stopped r_stopped d_fresh r_fresh =
    let locked : Shows (locked_open (λ p. p.id)) = record {
      text = λ p. locked_text p.id;
      left = λ o. kept o.buf;
      shows = locked-shows (λ p. p.id);
    } in
    let race : Shows (race_open (λ p. p.id)) = record {
      text = λ p. race_text p.id;
      left = race_left;
      shows = race-shows (λ p. p.id);
    } in
    (
      life-Ends thread_init_parameter (locked_open (λ p. p.id)) locked created error os d real
          d_stopped d_fresh,
      life-Ends race_init_parameter (race_open (λ p. p.id)) race created error os r real r_stopped
          r_fresh,
    )
