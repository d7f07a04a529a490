-- ===== src/Threads/Life.antt =====
-- The module of 06_threading_race_condition and 07_threading_and_locking from its loading to its
-- unloading, while processes open, read and close the file one after the other.
use cop4610_project.Base.{
  ℕ, ◌≡◌, ◌≢◌, ◌⊎◌, Bool, false, ◌==◌, if◌then◌else◌, Option, none, some, ◌>>=◌, List, [], ◌∷◌,
  ◌++◌, Text,
}
use cop4610_project.Threads.Device.{
  Device, thread_proc_read, thread_proc_release, thread_init, thread_exit,
}
use cop4610_project.Threads.Opening.{Opening}

abbrev pub Opener : Type 0 → Type 0
Opener P = Opening → Device P → Option (Device P × ℕ)

-- A process opens the file; if it can, it reads until it gets nothing, and closes it: what it got.
unfoldable pub visit : {P : Type 0} → Opener P → Opening → Device P → Option (Device P × Text)
unfolding thread_proc_read thread_proc_release
visit opener o d = do
  (d1, code) ← opener o d
  if code == 0
      then (do
        (d2, text, n) ← thread_proc_read d1
        (d3, more, k) ← thread_proc_read d2
        d4 ← thread_proc_release d3
        some (d4, text ++ more))
      else some (d1, [])

unfoldable pub visits :
    {P : Type 0} → Opener P → List Opening → Device P → Option (Device P × List Text)
unfolding visit
visits opener [] d = some (d, [])
visits opener (o ∷ os) d = do
  (d1, text) ← visit opener o d
  (d2, texts) ← visits opener os d1
  some (d2, text ∷ texts)

-- The module is loaded, visited and unloaded; where thread_init returns an error it is not loaded.
unfoldable pub life :
    {P : Type 0}
    → (P → P)
    → Opener P
    → (created : Bool) (error : Option ℕ) → List Opening
    → Device P
    → Option (Device P × List Text)
unfolding thread_init thread_exit visits
life init_parameter opener created error os d =
    let (d1, code) = thread_init init_parameter created error d in
    if code == 0
    then (do (d2, texts) ← visits opener os d1; some (thread_exit d2, texts))
    else some (d1, [])

-- kmalloc gives blocks that are not allocated, and always one for `buf`.
abbrev pub IsFresh : Opening → (ℕ → Bool) → Type 0
IsFresh o live =
    (b : ℕ) × (o.buf ≡ some b)
    × (live b ≡ false)
    × ((o.message ≡ none) ⊎ ((a : ℕ) × (o.message ≡ some a) × (live a ≡ false) × (a ≢ b)))

-- What a visit keeps.
pub record Visited {P : Type 0} (live : ℕ → Bool) (d d' : Device P) : Type 0 where
  pub blocks : d'.live ≡ live
  pub entry : d'.proc_entry ≡ d.proc_entry
  pub thread : d'.running ≡ d.running
  pub parameter : d'.thread1 ≡ d.thread1

-- An opener with the text that it shows and the blocks that a visit leaves allocated.
pub record Shows {P : Type 0} (opener : Opener P) : Type 0 where
  pub text : P → Opening → Text
  pub left : Opening → (ℕ → Bool) → ℕ → Bool
  pub shows :
      (o : Opening) (d : Device P)
      → IsFresh o d.live
      → (d' : Device P) × (visit opener o d ≡ some (d', text d.thread1 o))
        × Visited (left o d.live) d d'
