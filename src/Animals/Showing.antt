-- ===== src/Animals/Showing.antt =====
-- The states of the module, the text that a process reads, and the buffer it is printed into.
use cop4610_project.Base.{
  ℕ, ◌*◌, ◌%◌, ◌≤◌, ◌<◌, ◌≡◌, ◌⊎◌, refl, ap, sym, ◌∙◌, subst, Bool, true, false, not, ◌&&◌, ◌==◌,
  Option, none, some, List, [], ◌∷◌, ◌++◌, tally, occurs, arith, Text, length, length-append,
  length-show_int, All, Bool-cases, inl, inr, add32, signed_ltb,
}
use mathlib.Core.Option.{some-injective}
use cop4610_project.Animals.{
  Animal, Buffer, Animals, Code, entries, totals_text, animals_text, add_animal, print_animals,
  animal_proc_open, animal_proc_read, animal_proc_release, animal_init,
}
use cop4610_project.Animals.Adding.{
  IsKind, HasKind, IsKind-IsSmall, ListOk, Added, IsFreshFor, add_animal_lem,
}

length-entries : (i : ℕ) (l : List Animal) → All HasKind l → length (entries i l) ≤ 9 * length l
unfolding entries
length-entries i [] all = omega arith
length-entries i (a ∷ l) (kind, all) =
    let small = IsKind-IsSmall kind in
    let rest = length-entries (add32 i 1) l all in
    elim (Bool-cases (i % 5 == 0 && signed_ltb 0 i)) [
      | inl new_line ↦ rw new_line (simp length-append (omega (arith, small.name, rest)))
      | inr same_line ↦ rw same_line (simp length-append (omega (arith, small.name, rest)))
    ]

-- The text of a list in order takes less than ENTRY_SIZE bytes, the final zero included.
pub animals_text_fits :
    {leaked : ℕ → ℕ} (s : Animals) → ListOk leaked s → length (animals_text s) < 1000
unfolding animals_text totals_text
animals_text_fits s ok = simp length-append (
    omega (
      arith,
      length-show_int s.total_cnt,
      length-show_int s.total_length,
      length-show_int s.total_weight,
      length-entries 0 s.list ok.kinds,
      ok.limit,
    ))

-- What the buffer holds is a string that fits.
abbrev pub Fits : Buffer → Type 0
Fits Buffer.absent = Unit
Fits Buffer.unwritten = Unit
Fits (Buffer.holds text) = length text < 1000

-- The states from animal_init on, whatever kmalloc and get_random_int give, where each opening, read
-- and closing ends before the next one begins: the module takes no lock.
pub data Reach : Animals → Type 0 where
  loaded :
      (s : Animals)
      → s.live ≡ (λ a. false)
      → s.message ≡ Buffer.absent
      → Reach (animal_init true s).0
  opened :
      {s s' : Animals} {code : Code} (got : Bool) (block : Option ℕ) (scratch : Bool) (random : ℕ)
      → Reach s
      → IsFreshFor s block
      → animal_proc_open got block scratch random s ≡ some (s', code)
      → Reach s'
  was_read :
      {s s' : Animals} {text : Text} {n : ℕ}
      → Reach s
      → animal_proc_read s ≡ some (s', text, n)
      → Reach s'
  released : {s : Animals} → Reach s → Reach (animal_proc_release s)

-- The totals and the blocks are in order, and the text fits.
pub record AnimalsOk (s : Animals) : Type 0 where
  pub list : ListOk (λ a. 0) s
  pub message : Fits s.message

-- Another buffer or flag, and the same list.
same_list :
    {leaked : ℕ → ℕ} (s : Animals) (message : Buffer) (read_p : Bool)
    → ListOk leaked s
    → ListOk leaked (record s { message = message; read_p = read_p })
same_list s message read_p ok = record {
  kinds = ok.kinds;
  total_cnt = ok.total_cnt;
  total_length = ok.total_length;
  total_weight = ok.total_weight;
  limit = ok.limit;
  blocks = ok.blocks;
}

abbrev ready : Animals → Animals
ready s = record s { read_p = true; message = Buffer.unwritten }

-- The state after a successful open, up to the text.
abbrev pub grown : Option ℕ → ℕ → Animals → Animals
grown block random s = (add_animal block (random % 3) (ready s)).0

abbrev pub shown : Animals → Animals
shown s = record s { message = Buffer.holds (animals_text s) }

Added-message :
    {block : Option ℕ} {kind : ℕ} {s : Animals} {out : Animals × Code}
    → Added block kind s out
    → (out.0.message ≡ s.message) × (out.0.read_p ≡ s.read_p)
Added-message (Added.full h) = (refl, refl)
Added-message (Added.strange room h) = (refl, refl)
Added-message (Added.no_block room h e) = (refl, refl)
Added-message (Added.added room kind e new) = (new.message, new.read_p)

open_prints :
    {leaked : ℕ → ℕ} (block : Option ℕ) (random : ℕ) (s : Animals)
    → ListOk leaked s
    → IsFreshFor s block
    → (animal_proc_open true block true random s ≡ some (shown (grown block random s), Code.done))
      × ListOk leaked (shown (grown block random s))
unfolding animal_proc_open print_animals
open_prints block random s ok fresh =
    let (what, ok') = add_animal_lem block (random % 3) (ready s) (same_list s _ _ ok) fresh in
    (rw ((Added-message what).0), same_list (grown block random s) _ _ ok')

release-AnimalsOk : (s : Animals) → AnimalsOk s → AnimalsOk (animal_proc_release s)
unfolding animal_proc_release
release-AnimalsOk s ok = record { list = same_list s _ _ ok.list; message = tt }

-- What an open leads to, whatever is allocated.
open_ends :
    {leaked : ℕ → ℕ} (got : Bool) (block : Option ℕ) (scratch : Bool) (random : ℕ) (s : Animals)
    → ListOk leaked s
    → IsFreshFor s block
    → (s' : Animals) × (code : Code) × (animal_proc_open got block scratch random s
        ≡ some (s', code))
      × ListOk leaked s'
      × Fits s'.message
unfolding animal_proc_open print_animals
open_ends false block scratch random s ok fresh =
    (record s { read_p = true; message = Buffer.absent }, Code.enomem, refl, same_list s _ _ ok, tt)
open_ends true block false random s ok fresh =
    let (what, ok') = add_animal_lem block (random % 3) (ready s) (same_list s _ _ ok) fresh in
    (grown block random s, Code.enomem, refl, ok', subst Fits (sym (Added-message what).0) tt)
open_ends true block true random s ok fresh =
    let (run, ok') = open_prints block random s ok fresh in
    let (what, grown_ok) = add_animal_lem block (random % 3) (ready s) (same_list s _ _ ok) fresh in
    (
      shown (grown block random s),
      Code.done,
      run,
      ok',
      animals_text_fits (grown block random s) grown_ok,
    )

read_none :
    (s : Animals)
    → (s.message ≡ Buffer.absent) ⊎ (s.message ≡ Buffer.unwritten)
    → animal_proc_read s ≡ none
unfolding animal_proc_read
read_none s (inl h) = rw h
read_none s (inr h) = rw h

read_first :
    (s : Animals) (text : Text)
    → s.message ≡ Buffer.holds text
    → s.read_p ≡ true
    → animal_proc_read s ≡ some (record s { read_p = false }, text, length text)
unfolding animal_proc_read
read_first s text h fresh = rw (h, fresh)

read_again :
    (s : Animals) (text : Text)
    → s.message ≡ Buffer.holds text
    → s.read_p ≡ false
    → animal_proc_read s ≡ some (record s { read_p = true }, [], 0)
unfolding animal_proc_read
read_again s text h fresh = rw (h, fresh)

-- A read only turns the flag.
read_turns :
    (s : Animals) (out : Animals × Text × ℕ) (message : Buffer) (flag : Bool)
    → s.message ≡ message
    → s.read_p ≡ flag
    → animal_proc_read s ≡ some out
    → record s { read_p = not flag } ≡ out.0
read_turns s out Buffer.absent flag h f run = absurd (ground (arith, read_none s (inl h)))
read_turns s out Buffer.unwritten flag h f run = absurd (ground (arith, read_none s (inr h)))
read_turns s out (Buffer.holds text) true h f run =
    ap (λ (x : Animals × Text × ℕ). x.0) (some-injective _ out (sym (read_first s text h f) ∙ run))
read_turns s out (Buffer.holds text) false h f run =
    ap (λ (x : Animals × Text × ℕ). x.0) (some-injective _ out (sym (read_again s text h f) ∙ run))

read-AnimalsOk :
    (s s' : Animals) (text : Text) (n : ℕ)
    → AnimalsOk s
    → animal_proc_read s ≡ some (s', text, n)
    → AnimalsOk s'
read-AnimalsOk s s' text n ok run =
    subst AnimalsOk (read_turns s (s', text, n) s.message s.read_p refl refl run)
      (record { list = same_list s _ _ ok.list; message = ok.message })

init-AnimalsOk :
    (s : Animals)
    → s.live ≡ (λ a. false)
    → s.message ≡ Buffer.absent
    → AnimalsOk (animal_init true s).0
unfolding animal_init tally occurs
init-AnimalsOk s none_live no_text = record {
  list = record {
    kinds = tt;
    total_cnt = refl;
    total_length = refl;
    total_weight = refl;
    limit = omega arith;
    blocks = λ a. rw none_live;
  };
  message = subst Fits (sym no_text) tt;
}

-- Where no two calls of the module overlap, in every state that openings, reads and closings lead to
-- the totals are those of the list, which has at most 50 animals, each of one of the three kinds; a
-- block is allocated if and only if its animal is in the list, once; and a text in the buffer takes
-- less than ENTRY_SIZE bytes, the final zero included.
pub Reach-AnimalsOk : {s : Animals} → Reach s → AnimalsOk s
Reach-AnimalsOk (Reach.loaded s none_live no_text) = init-AnimalsOk s none_live no_text
Reach-AnimalsOk (Reach.opened {s} {s'} {code} got block scratch random r fresh run) =
    let (t, c, run', ok, fits) =
      open_ends got block scratch random s (Reach-AnimalsOk r).list fresh in
    let same : t ≡ s' =
      ap (λ (x : Animals × Code). x.0) (some-injective (t, c) (s', code) (sym run' ∙ run)) in
    subst AnimalsOk same (record { list = ok; message = fits })
Reach-AnimalsOk (Reach.was_read {s} {s'} {text} {n} r run) =
    read-AnimalsOk s s' text n (Reach-AnimalsOk r) run
Reach-AnimalsOk (Reach.released {s} r) = release-AnimalsOk s (Reach-AnimalsOk r)

shown-text : (s : Animals) → animals_text (shown s) ≡ animals_text s
unfolding animals_text totals_text
shown-text s = refl

fresh_block : (s : Animals) (a k : ℕ) → s.live a ≡ false → some a ≡ some k → s.live k ≡ false
fresh_block s a k fresh e = subst (λ x. s.live x ≡ false) (some-injective a k e) fresh

-- The list after add_animal.
abbrev pub Longer : (a kind : ℕ) → (before after : List Animal) → Type 0
Longer a kind before after =
    ((length before ≡ 50) × (after ≡ before))
    ⊎ ((x : Animal) × IsKind kind x × (x.node ≡ a) × (after ≡ before ++ x ∷ []))

Added-Longer :
    {a kind : ℕ} {s : Animals} {out : Animals × Code}
    → Added (some a) kind s out
    → kind ≤ 2
    → Longer a kind s.list out.0.list
Added-Longer (Added.full h) low = inl (h, refl)
Added-Longer (Added.strange room h) low = absurd (omega arith)
Added-Longer (Added.no_block room h e) low = absurd (ground (arith, e))
Added-Longer {a} (Added.added {a = x} room kind e new) low =
    inr (x, kind, some-injective x.node a (sym e), new.list)

-- A process that opens the file, with enough memory, and reads it twice: nothing faults, the list has
-- one more animal of the drawn kind at its end, or the same 50, the first read copies the text of the
-- list, which fits the buffer, whatever size was asked for, and the second returns 0.
pub visit_shows :
    {leaked : ℕ → ℕ} (a random : ℕ) (s : Animals)
    → ListOk leaked s
    → s.live a ≡ false
    → (s1 : Animals) × (s2 : Animals) × (s3 : Animals) × (animal_proc_open true
          (some a)
          true
          random
          s
        ≡ some (s1, Code.done))
      × (animal_proc_read s1 ≡ some (s2, animals_text s1, length (animals_text s1)))
      × (animal_proc_read s2 ≡ some (s3, [], 0))
      × Longer a (random % 3) s.list s1.list
      × ListOk leaked s3
      × (length (animals_text s1) < 1000)
visit_shows a random s ok fresh =
    let fresh_for = λ (k : ℕ) (e : some a ≡ some k). fresh_block s a k fresh e in
    let (run, ok') = open_prints (some a) random s ok fresh_for in
    let (what, grown_ok) =
      add_animal_lem (some a) (random % 3) (ready s) (same_list s _ _ ok) fresh_for in
    let g = grown (some a) random s in
    let flag : g.read_p ≡ true = (Added-message what).1 in
    (
      shown g,
      record (shown g) { read_p = false },
      record (shown g) { read_p = true },
      run,
      read_first (shown g) (animals_text (shown g)) (ap Buffer.holds (sym (shown-text g))) flag,
      read_again (record (shown g) { read_p = false }) (animals_text g) refl refl,
      Added-Longer what (omega arith),
      same_list (shown g) _ _ ok',
      animals_text_fits (shown g) ok',
    )
