-- ===== src/Threads/Leaking.antt =====
-- What is left allocated after the visits of the two threads that count.
use cop4610_project.Base.{
  ℕ, ◌≡◌, ◌≢◌, inl, inr, refl, ap, sym, ◌∙◌, subst, fun_ext, Bool, true, false, if◌then◌else◌,
  Option, none, some, List, [], ◌∷◌, ◌++◌, arith, Text, update, minus_one, map,
}
use native.Mathlib.Decide.{ℕ_discrete}
use mathlib.Core.List.{append-nil}
use cop4610_project.Threads.Device.{Device, kfree, thread_proc_read, thread_proc_release}
use cop4610_project.Threads.Opening.{Opening, locked_open, race_open}
use cop4610_project.Threads.Fitting.{cycles_text, print_cycles_fit}
use cop4610_project.Threads.Life.{Opener, visit, visits, IsFresh, Visited, Shows}

pub update_hit : (live : ℕ → Bool) (a : ℕ) (v : Bool) → update live a v a ≡ v
update_hit live a v = ground arith

update_back :
    (live : ℕ → Bool) (a : ℕ) → live a ≡ false → update (update live a true) a false ≡ live
update_back live a h = fun_ext (λ x. elim (ℕ_discrete x a) [
  | yes here ↦ rw here (ground (arith, h))
  | no there ↦ ground (arith, there)
])

pub update_past :
    (live : ℕ → Bool) (a b : ℕ) → live a ≡ false → a ≢ b → update live b true a ≡ false
update_past live a b h away = ground (arith, h, away)

module _ {P : Type 0} (opener : Opener P) where
  -- An opening that shows a text: it is read once and then to its end, and its block is freed.
  visit-shown :
      (o : Opening) (d : Device P) (a : ℕ) (text : Text) (live : ℕ → Bool)
      → live a ≡ false
      → opener o d
        ≡ some (record d { read_p = true; message = some (a, text); live = update live a true }, 0)
      → (d' : Device P) × (visit opener o d ≡ some (d', text)) × Visited live d d'
  unfolding visit thread_proc_read thread_proc_release kfree
  visit-shown o d a text live free opened =
      let hit = update_hit live a true in
      let d' : Device P = record d {
        read_p = true;
        message = some (a, text);
        live = update (update live a true) a false;
      } in
      let whole : some (d', text ++ []) ≡ some (d', text) =
        ap (λ t. some (d', t)) (append-nil text) in
      (
        d',
        rw (opened, hit, hit, hit) whole,
        record { blocks = update_back live a free; entry = refl; thread = refl; parameter = refl },
      )

-- A block that stays allocated, if there is one.
unfoldable pub kept : Option ℕ → (ℕ → Bool) → ℕ → Bool
kept none live = live
kept (some b) live = update live b true

-- What a process gets that opens the file of the locked thread.
unfoldable pub locked_text : (id : ℕ) → Opening → Text
unfolding cycles_text
locked_text id o = elim o.message [
  | none ↦ []
  | some a ↦ cycles_text id (if o.acquired then o.value else λ i. minus_one)
]

unfoldable pub race_text : (id : ℕ) → Opening → Text
unfolding cycles_text
race_text id o = elim o.message [ none ↦ [] | some a ↦ cycles_text id o.value ]

-- The racing thread's file gives `buf` back where there is no block for `message`.
unfoldable pub race_left : Opening → (ℕ → Bool) → ℕ → Bool
unfolding kept
race_left o live = elim o.message [ none ↦ live | some a ↦ kept o.buf live ]

module _ {P : Type 0} (id_of : P → ℕ) where
  pub locked-shows :
      (o : Opening) (d : Device P)
      → IsFresh o d.live
      → (d' : Device P) × (visit (locked_open id_of) o d
          ≡ some (d', locked_text (id_of d.thread1) o))
        × Visited (kept o.buf d.live) d d'
  unfolding locked_open kept locked_text visit
  locked-shows o d (b, got, b_free, inl no_message) =
      let d' : Device P = record d { read_p = true; message = none; live = update d.live b true } in
      (
        d',
        rw (got, no_message) refl,
        record { blocks = rw got refl; entry = refl; thread = refl; parameter = refl },
      )
  locked-shows o d (b, got, b_free, inr (a, got_message, a_free, away)) =
      let text = cycles_text (id_of d.thread1) (if o.acquired then o.value else λ i. minus_one) in
      let fits =
        print_cycles_fit (id_of d.thread1) (if o.acquired then o.value else λ i. minus_one) in
      let d1 : Device P = record d { live = update d.live b true } in
      let (d', run, v) =
        visit-shown (locked_open id_of) o d a text (update d.live b true)
          (update_past d.live a b a_free away) (rw (got, got_message, fits) refl) in
      (
        d',
        run ∙ rw got_message refl,
        record {
          blocks = v.blocks ∙ rw got refl;
          entry = v.entry;
          thread = v.thread;
          parameter = v.parameter;
        },
      )

  pub race-shows :
      (o : Opening) (d : Device P)
      → IsFresh o d.live
      → (d' : Device P) × (visit (race_open id_of) o d ≡ some (d', race_text (id_of d.thread1) o))
        × Visited (race_left o d.live) d d'
  unfolding race_open kept race_text race_left visit
  race-shows o d (b, got, b_free, inl no_message) =
      let hit = update_hit d.live b true in
      let d' : Device P = record d {
        read_p = true;
        message = none;
        live = update (update d.live b true) b false;
      } in
      (
        d',
        rw (got, no_message, hit) refl,
        record {
          blocks = update_back d.live b b_free ∙ rw no_message refl;
          entry = refl;
          thread = refl;
          parameter = refl;
        },
      )
  race-shows o d (b, got, b_free, inr (a, got_message, a_free, away)) =
      let fits = print_cycles_fit (id_of d.thread1) o.value in
      let (d', run, v) =
        visit-shown (race_open id_of) o d a (cycles_text (id_of d.thread1) o.value)
          (update d.live b true) (update_past d.live a b a_free away)
          (rw (got, got_message, fits) refl) in
      (
        d',
        run ∙ rw got_message refl,
        record {
          blocks = v.blocks ∙ rw (got, got_message) refl;
          entry = v.entry;
          thread = v.thread;
          parameter = v.parameter;
        },
      )

-- The blocks that are left after the visits, and the texts that the processes got.
unfoldable pub left_by : (Opening → (ℕ → Bool) → ℕ → Bool) → List Opening → (ℕ → Bool) → ℕ → Bool
left_by left [] live = live
left_by left (o ∷ os) live = left_by left os (left o live)

-- Each kmalloc gives a block that is not allocated then.
unfoldable pub AllFresh : (Opening → (ℕ → Bool) → ℕ → Bool) → List Opening → (ℕ → Bool) → Type 0
AllFresh left [] live = Unit
AllFresh left (o ∷ os) live = IsFresh o live × AllFresh left os (left o live)

module _ {P : Type 0} (opener : Opener P) (s : Shows opener) where
  pub visits-shown :
      (os : List Opening) (d : Device P)
      → AllFresh s.left os d.live
      → (d' : Device P) × (visits opener os d ≡ some (d', map (s.text d.thread1) os))
        × Visited (left_by s.left os d.live) d d'
  unfolding visits AllFresh left_by
  visits-shown [] d fresh =
      (d, refl, record { blocks = refl; entry = refl; thread = refl; parameter = refl })
  visits-shown (o ∷ os) d (first, others) =
      let (d1, run1, v1) = s.shows o d first in
      let (d2, run2, v2) = visits-shown os d1 (subst (AllFresh s.left os) (sym v1.blocks) others) in
      (
        d2,
        rw (run1, run2) (ap (λ p. some (d2, s.text d.thread1 o ∷ map (s.text p) os)) v1.parameter),
        record {
          blocks = v2.blocks ∙ ap (left_by s.left os) v1.blocks;
          entry = v2.entry ∙ v1.entry;
          thread = v2.thread ∙ v1.thread;
          parameter = v2.parameter ∙ v1.parameter;
        },
      )
