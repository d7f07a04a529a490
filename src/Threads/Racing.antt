-- ===== src/Threads/Racing.antt =====
-- course_materials/Project2_Examples/06_threading_race_condition/thread.c: the same thread and the
-- same proc file, without a lock.
use cop4610_project.Base.{
  ℕ, ◌-◌, ◌+◌, ◌*◌, ◌≤◌, ◌<◌, ◌≡◌, ◌%◌, ◌^◌, ltb, refl, ap, sym, ◌∙◌, subst, if◌then◌else◌, ◌++◌,
  arith, Text, codes, length, length-append, length-show_int, add32, update,
}
use native.Mathlib.Decide.{ℕ_discrete}
use cop4610_project.Threads.{cnt_size, Runner, Reader, cycles_header, cycles_line}
use cop4610_project.Threads.Counting.{
  Counted, Outside, Counted-step, Counted-round, counting_same, inside,
}

-- struct thread_parameter, and the two that use it.
pub record RaceParameter : Type 0 where
  pub id : ℕ
  pub cnt : ℕ → ℕ
  pub runner : Runner
  pub reader : Reader

-- thread_init_parameter, for the first thread of the module.
unfoldable pub race_init_parameter : RaceParameter → RaceParameter
race_init_parameter p = record { id = 1; cnt = λ i. 0; runner = Runner.head; reader = Reader.away }

-- One access to shared memory, of the thread or of the process that reads.
pub data RaceMove : RaceParameter → RaceParameter → Type 0 where
  run :
      {p : RaceParameter}
      → p.runner ≡ Runner.head
      → RaceMove p (record p { runner = Runner.counting 0 })
  count :
      {p : RaceParameter} (i : ℕ)
      → p.runner ≡ Runner.counting i
      → i < cnt_size
      → RaceMove p
          (record p { cnt = update p.cnt i (add32 (p.cnt i) 1); runner = Runner.counting (i + 1) })
  run_again :
      {p : RaceParameter}
      → p.runner ≡ Runner.counting cnt_size
      → RaceMove p (record p { runner = Runner.head })
  stop :
      {p : RaceParameter}
      → p.runner ≡ Runner.head
      → RaceMove p (record p { runner = Runner.returned })
  open_file :
      {p : RaceParameter}
      → p.reader ≡ Reader.away
      → RaceMove p (record p { reader = Reader.printing 0 (cycles_header p.id) })
  print :
      {p : RaceParameter} (i : ℕ) (text : Text)
      → p.reader ≡ Reader.printing i text
      → i < cnt_size
      → RaceMove p (record p { reader = Reader.printing (i + 1) (text ++ cycles_line (p.cnt i)) })
  opened :
      {p : RaceParameter} (text : Text)
      → p.reader ≡ Reader.printing cnt_size text
      → RaceMove p (record p { reader = Reader.printed (text ++ codes "\n") })
  release :
      {p : RaceParameter} (text : Text)
      → p.reader ≡ Reader.printed text
      → RaceMove p (record p { reader = Reader.away })

pub data RaceRuns : RaceParameter → Type 0 where
  begin : (p : RaceParameter) → RaceRuns (race_init_parameter p)
  next : {p q : RaceParameter} → RaceRuns p → RaceMove p q → RaceRuns q

-- The cycles that the thread has finished.
abbrev pub after : {p q : RaceParameter} → RaceMove p q → ℕ → ℕ
after (RaceMove.run_again at) n = n + 1
after _ n = n

unfoldable pub cycles : {p : RaceParameter} → RaceRuns p → ℕ
cycles (RaceRuns.begin p) = 0
cycles (RaceRuns.next r m) = after m (cycles r)

-- A text of `i` numbers, the last of which is `last` modulo 2 ^ 32, where every number is at least
-- the one before less one, and not above `most`.
pub data Drops (id most : ℕ) : ℕ → ℕ → Text → Type 0 where
  no_number : Drops id most 0 0 (cycles_header id)
  number :
      {i last : ℕ} {text : Text} (w : ℕ)
      → Drops id most i last text
      → last ≤ w + 1
      → w ≤ most
      → Drops id most (i + 1) w (text ++ cycles_line (w % 2 ^ 32))

-- What counter `i` is at, not reduced, in cycle `n` before counter `k`.
abbrev level : (n k i : ℕ) → ℕ
level n k i = if ltb i k then n + 1 else n

-- The last number that was read is not above the counter it was read from.
abbrev Trails : (id n k : ℕ) → Reader → Type 0
Trails id n k (Reader.printing i text) =
    (last : ℕ) × Drops id (n + 1) i last text
    × ((j : ℕ) → i ≡ j + 1 → last ≤ level n k j)
    × (i ≡ 0 → last ≡ 0)
Trails id n k (Reader.printed text) =
    (last : ℕ) × (t : Text) × Drops id (n + 1) 20 last t × (text ≡ t ++ codes "\n")
Trails id n k Reader.away = Unit

-- The run after `n` cycles.
data Going (p : RaceParameter) (n : ℕ) : Type 0 where
  outside : Outside p.runner → Counted n 0 p.cnt → Trails p.id n 0 p.reader → Going p n
  within :
      (k : ℕ)
      → p.runner ≡ Runner.counting k
      → k ≤ 20
      → Counted n k p.cnt
      → Trails p.id n k p.reader
      → Going p n

Drops-mono :
    (id most more i last : ℕ) (text : Text)
    → most ≤ more
    → Drops id most i last text
    → Drops id more i last text
Drops-mono id most more i last text le Drops.no_number = Drops.no_number
Drops-mono id most more i last text le
      (Drops.number {i = j} {last = v} {text = t} w drops near low) =
    Drops.number w (Drops-mono id most more j v t le drops) near (omega arith)

-- The counters only grow.
Trails-mono :
    (id n k n' k' : ℕ) (r : Reader)
    → n ≤ n'
    → ((j : ℕ) → level n k j ≤ level n' k' j)
    → Trails id n k r
    → Trails id n' k' r
Trails-mono id n k n' k' (Reader.printing i text) le up (last, drops, below, start) = (
  last,
  Drops-mono id (n + 1) (n' + 1) i last text (omega arith) drops,
  λ j e. omega (arith, below j e, up j),
  start,
)
Trails-mono id n k n' k' (Reader.printed text) le up (last, t, drops, same) =
    (last, t, Drops-mono id (n + 1) (n' + 1) 20 last t (omega arith) drops, same)
Trails-mono id n k n' k' Reader.away le up t = t

Trails-open : (id n k : ℕ) → Trails id n k (Reader.printing 0 (cycles_header id))
Trails-open id n k = (0, Drops.no_number, λ j e. absurd (omega arith), λ e. refl)

Trails-end :
    (id n k : ℕ) (text : Text)
    → Trails id n k (Reader.printing 20 text)
    → Trails id n k (Reader.printed (text ++ codes "\n"))
Trails-end id n k text (last, drops, below, start) = (last, text, drops, refl)

-- One more number is read.
Trails-print :
    (id n k i : ℕ) (text : Text) (cnt : ℕ → ℕ)
    → Trails id n k (Reader.printing i text)
    → Counted n k cnt
    → i < 20
    → Trails id n k (Reader.printing (i + 1) (text ++ cycles_line (cnt i)))
Trails-print id n k i text cnt (last, drops, below, start) c li =
    let w = level n k i in
    let near : last ≤ w + 1 = elim (ℕ_discrete i 0) [
      | yes e ↦ omega (arith, start e)
      | no ne ↦ ground (arith, below (i - 1) (omega arith))
    ] in
    (
      w,
      subst (λ v. Drops id (n + 1) (i + 1) w (text ++ cycles_line v)) (sym (c i li))
          (Drops.number w drops near (ground arith)),
      λ j e. ground arith,
      λ e. absurd (omega arith),
    )

RaceMove-Going :
    {p q : RaceParameter} (n : ℕ) → Going p n → (m : RaceMove p q) → Going q (after m n)
RaceMove-Going n (Going.outside out c t) (RaceMove.run at) = Going.within 0 refl (omega arith) c t
RaceMove-Going n (Going.within k on le c t) (RaceMove.run at) = absurd cc
RaceMove-Going n (Going.outside out c t) (RaceMove.count i at li) = absurd (inside out at)
RaceMove-Going n (Going.within k on le c t) (RaceMove.count {p} i at li) =
    let same : k ≡ i = counting_same (sym on ∙ at) in
    Going.within (i + 1) refl (omega arith)
      (Counted-step n i p.cnt (subst (λ j. Counted n j p.cnt) same c) li)
      (Trails-mono p.id n k n (i + 1) p.reader (omega arith) (λ j. ground arith) t)
RaceMove-Going n (Going.outside out c t) (RaceMove.run_again at) = absurd (inside out at)
RaceMove-Going n (Going.within k on le c t) (RaceMove.run_again {p} at) =
    let same : k ≡ 20 = counting_same (sym on ∙ at) in
    Going.outside tt (Counted-round n p.cnt (subst (λ j. Counted n j p.cnt) same c))
      (Trails-mono p.id n k (n + 1) 0 p.reader (omega arith) (λ j. ground arith) t)
RaceMove-Going n (Going.outside out c t) (RaceMove.stop at) = Going.outside tt c t
RaceMove-Going n (Going.within k on le c t) (RaceMove.stop at) = absurd cc
RaceMove-Going n (Going.outside out c t) (RaceMove.open_file {p} at) =
    Going.outside out c (Trails-open p.id n 0)
RaceMove-Going n (Going.within k on le c t) (RaceMove.open_file {p} at) =
    Going.within k on le c (Trails-open p.id n k)
RaceMove-Going n (Going.outside out c t) (RaceMove.print {p} i text at li) =
    Going.outside out c (Trails-print p.id n 0 i text p.cnt (subst (Trails p.id n 0) at t) c li)
RaceMove-Going n (Going.within k on le c t) (RaceMove.print {p} i text at li) =
    Going.within k on le c (Trails-print p.id n k i text p.cnt (subst (Trails p.id n k) at t) c li)
RaceMove-Going n (Going.outside out c t) (RaceMove.opened {p} text at) =
    Going.outside out c (Trails-end p.id n 0 text (subst (Trails p.id n 0) at t))
RaceMove-Going n (Going.within k on le c t) (RaceMove.opened {p} text at) =
    Going.within k on le c (Trails-end p.id n k text (subst (Trails p.id n k) at t))
RaceMove-Going n (Going.outside out c t) (RaceMove.release text at) = Going.outside out c tt
RaceMove-Going n (Going.within k on le c t) (RaceMove.release text at) = Going.within k on le c tt

RaceRuns-Going : {p : RaceParameter} (r : RaceRuns p) → Going p (cycles r)
unfolding race_init_parameter cycles
RaceRuns-Going (RaceRuns.begin p) = Going.outside tt (λ i li. ground arith) tt
RaceRuns-Going (RaceRuns.next r m) = RaceMove-Going (cycles r) (RaceRuns-Going r) m

Going-Trails : (p : RaceParameter) (n : ℕ) → Going p n → (k : ℕ) × Trails p.id n k p.reader
Going-Trails p n (Going.outside out c t) = (0, t)
Going-Trails p n (Going.within k on le c t) = (k, t)

length-Drops :
    (id most i last : ℕ) (text : Text) → Drops id most i last text → length text ≤ 12 * i + 60
unfolding cycles_header cycles_line
length-Drops id most i last text Drops.no_number =
    simp length-append (omega (arith, length-show_int id))
length-Drops id most i last text (Drops.number {i = j} {last = v} {text = t} w drops near low) =
    simp length-append
      (omega (arith, length-Drops id most j v t drops, length-show_int (w % 2 ^ 32)))

-- Without the lock the text that a process gets may show different numbers, but it shows twenty. Before
-- they are reduced modulo 2 ^ 32, each is at least the one before less one, and at most one more than
-- the number of cycles that the thread has finished. The text takes less than ENTRY_SIZE bytes, the
-- final zero included.
pub race_falls_slowly :
    {p : RaceParameter} (r : RaceRuns p) (text : Text)
    → p.reader ≡ Reader.printed text
    → (last : ℕ) × (t : Text) × Drops p.id (cycles r + 1) 20 last t
      × (text ≡ t ++ codes "\n")
      × (length text < 10000)
race_falls_slowly {p} r text at =
    let n = cycles r in
    let (k, trails) = Going-Trails p n (RaceRuns-Going r) in
    let (last, t, drops, same) = subst (Trails p.id n k) at trails in
    (
      last,
      t,
      drops,
      same,
      omega (
        arith,
        ap length same,
        length-append t (codes "\n"),
        length-Drops p.id (n + 1) 20 last t drops,
      ),
    )
