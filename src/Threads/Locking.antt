-- ===== src/Threads/Locking.antt =====
-- What a process sees of the counters of the locked thread.
use cop4610_project.Base.{
  ℕ, zero, suc, ◌+◌, ◌*◌, ◌<◌, ◌≡◌, ◌≢◌, ◌%◌, ◌^◌, refl, ap, sym, ◌∙◌, subst, true, false, [], ◌++◌,
  arith, Text, codes, length, length-append, length-show_int, show_int,
}
use mathlib.Core.List.{append-nil, append_assoc}
use cop4610_project.Threads.Counting.{
  Counted, Outside, Counted-step, Counted-round, counting_same, reading_same, inside,
}
use cop4610_project.Threads.{
  Runner, Reader, ThreadParameter, cycles_header, cycles_line, thread_init_parameter, Move, Runs,
}

-- A line, `k` times
unfoldable pub copies : ℕ → Text → Text
copies zero line = []
copies (suc k) line = copies k line ++ line

-- The text for twenty counters with the value `n`.
abbrev pub even_text : (id n : ℕ) → Text
even_text id n = cycles_header id ++ copies 20 (cycles_line (n % 2 ^ 32)) ++ codes "\n"

-- A reader that is not in its loop; a text that it printed shows one number.
abbrev Rests : ℕ → Reader → Type 0
Rests id (Reader.printing i text) = ⊥
Rests id (Reader.printed text) = (n : ℕ) × (text ≡ even_text id n)
Rests id Reader.away = Unit

-- Who holds the lock, and what that says of the counters and of the text.
data Held (p : ThreadParameter) : Type 0 where
  free :
      (n : ℕ)
      → p.locked ≡ false
      → Outside p.runner
      → Rests p.id p.reader
      → Counted n 0 p.cnt
      → Held p
  counts :
      (n k : ℕ)
      → p.locked ≡ true
      → p.runner ≡ Runner.counting k
      → Rests p.id p.reader
      → Counted n k p.cnt
      → Held p
  reads :
      (n k : ℕ)
      → p.locked ≡ true
      → Outside p.runner
      → p.reader ≡ Reader.printing k (cycles_header p.id ++ copies k (cycles_line (n % 2 ^ 32)))
      → Counted n 0 p.cnt
      → Held p

resting : (id : ℕ) {i : ℕ} {r : Reader} {t : Text} → Rests id r → r ≢ Reader.printing i t
resting id rest at = subst (Rests id) at rest

copies_next : (k : ℕ) (line : Text) → copies (k + 1) line ≡ copies k line ++ line
unfolding copies
copies_next k line = let same : k + 1 ≡ suc k = omega arith in ap (λ j. copies j line) same

-- One more line of the text.
longer :
    (id n k i : ℕ) (text : Text) (cnt : ℕ → ℕ)
    → Reader.printing k (cycles_header id ++ copies k (cycles_line (n % 2 ^ 32)))
      ≡ Reader.printing i text
    → Counted n 0 cnt
    → i < 20
    → text ++ cycles_line (cnt i) ≡ cycles_header id ++ copies (i + 1) (cycles_line (n % 2 ^ 32))
longer id n k i text cnt at c li =
    let line = cycles_line (n % 2 ^ 32) in
    let (same, so_far) = reading_same at in
    let value : cnt i ≡ n % 2 ^ 32 = ground (arith, c i li) in
    ap (λ t. t ++ cycles_line (cnt i)) (sym so_far)
    ∙ ap (λ v. (cycles_header id ++ copies k line) ++ cycles_line v) value
    ∙ append_assoc (cycles_header id) (copies k line) line
    ∙ ap (λ j. cycles_header id ++ (copies j line ++ line)) same
    ∙ ap (λ t. cycles_header id ++ t) (sym (copies_next i line))

whole :
    (id n k : ℕ) (text : Text)
    → Reader.printing k (cycles_header id ++ copies k (cycles_line (n % 2 ^ 32)))
      ≡ Reader.printing 20 text
    → text ++ codes "\n" ≡ even_text id n
whole id n k text at =
    let line = cycles_line (n % 2 ^ 32) in
    let (same, so_far) = reading_same at in
    ap (λ t. t ++ codes "\n") (sym so_far ∙ ap (λ j. cycles_header id ++ copies j line) same)

Move-Held : {p q : ThreadParameter} → Held p → Move p q → Held q
unfolding copies
Move-Held (Held.free n open_lock out rest c) (Move.run_lock at unlocked) =
    Held.counts n 0 refl refl rest c
Move-Held (Held.counts n k locked on rest c) (Move.run_lock at unlocked) = absurd cc
Move-Held (Held.reads n k locked out on c) (Move.run_lock at unlocked) = absurd cc
Move-Held (Held.free n unlocked out rest c) (Move.count i at li) = absurd (inside out at)
Move-Held (Held.counts n k locked on rest c) (Move.count {p} i at li) =
    let same : k ≡ i = counting_same (sym on ∙ at) in
    Held.counts n (i + 1) locked refl rest
      (Counted-step n i p.cnt (subst (λ j. Counted n j p.cnt) same c) li)
Move-Held (Held.reads n k locked out on c) (Move.count i at li) = absurd (inside out at)
Move-Held (Held.free n unlocked out rest c) (Move.run_unlock at) = absurd (inside out at)
Move-Held (Held.counts n k locked on rest c) (Move.run_unlock {p} at) =
    let same : k ≡ 20 = counting_same (sym on ∙ at) in
    Held.free (n + 1) refl tt rest (Counted-round n p.cnt (subst (λ j. Counted n j p.cnt) same c))
Move-Held (Held.reads n k locked out on c) (Move.run_unlock at) = absurd (inside out at)
Move-Held (Held.free n unlocked out rest c) (Move.stop at) = Held.free n unlocked tt rest c
Move-Held (Held.counts n k locked on rest c) (Move.stop at) = absurd cc
Move-Held (Held.reads n k locked out on c) (Move.stop at) = Held.reads n k locked tt on c
Move-Held (Held.free n unlocked out rest c) (Move.open_lock {p} at open_now) =
    Held.reads n 0 refl out (ap (Reader.printing 0) (sym (append-nil (cycles_header p.id)))) c
Move-Held (Held.counts n k locked on rest c) (Move.open_lock at unlocked) = absurd cc
Move-Held (Held.reads n k locked out on c) (Move.open_lock at unlocked) = absurd cc
Move-Held (Held.free n unlocked out rest c) (Move.print i text at li) = absurd (resting _ rest at)
Move-Held (Held.counts n k locked on rest c) (Move.print i text at li) = absurd (resting _ rest at)
Move-Held (Held.reads n k locked out on c) (Move.print {p} i text at li) =
    Held.reads n (i + 1) locked out
      (ap (Reader.printing (i + 1)) (longer p.id n k i text p.cnt (sym on ∙ at) c li)) c
Move-Held (Held.free n unlocked out rest c) (Move.open_unlock text at) = absurd (resting _ rest at)
Move-Held (Held.counts n k locked on rest c) (Move.open_unlock text at) = absurd (resting _ rest at)
Move-Held (Held.reads n k locked out on c) (Move.open_unlock {p} text at) =
    Held.free n refl out (n, whole p.id n k text (sym on ∙ at)) c
Move-Held (Held.free n unlocked out rest c) (Move.release text at) = Held.free n unlocked out tt c
Move-Held (Held.counts n k locked on rest c) (Move.release text at) = Held.counts n k locked on tt c
Move-Held (Held.reads n k locked out on c) (Move.release text at) = absurd cc

Runs-Held : {p : ThreadParameter} → Runs p → Held p
unfolding thread_init_parameter
Runs-Held (Runs.begin p) = Held.free 0 refl tt tt (λ i li. ground arith)
Runs-Held (Runs.next r m) = Move-Held (Runs-Held r) m

Held-Rests :
    (p : ThreadParameter)
    → Held p
    → (text : Text) → p.reader ≡ Reader.printed text
    → (n : ℕ) × (text ≡ even_text p.id n)
Held-Rests p (Held.free n unlocked out rest c) text at = subst (Rests p.id) at rest
Held-Rests p (Held.counts n k locked on rest c) text at = subst (Rests p.id) at rest
Held-Rests p (Held.reads n k locked out on c) text at = absurd cc

length-copies : (k : ℕ) (line : Text) → length (copies k line) ≡ k * length line
unfolding copies
length-copies zero line = omega arith
length-copies (suc k) line = omega (arith, length-append (copies k line) line, length-copies k line)

even_text_fits : (id n : ℕ) → length (even_text id n) < 10000
unfolding cycles_header cycles_line
even_text_fits id n =
    let line = show_int (n % 2 ^ 32) ++ codes "\n" in
    simp length-append (
      omega (
        arith,
        length-show_int id,
        length-show_int (n % 2 ^ 32),
        length-append (show_int (n % 2 ^ 32)) (codes "\n"),
        length-copies 20 line,
      ))

-- Where no lock is interrupted, whatever order the thread and the process run in, the text that a
-- process gets shows one and the same number for all twenty counters, and it takes less than
-- ENTRY_SIZE bytes, the final zero included.
pub text_is_even :
    {p : ThreadParameter}
    → Runs p
    → (text : Text) → p.reader ≡ Reader.printed text
    → (n : ℕ) × (text ≡ even_text p.id n) × (length text < 10000)
text_is_even {p} r text at =
    let (n, same) = Held-Rests p (Runs-Held r) text at in
    (n, same, omega (arith, ap length same, even_text_fits p.id n))
