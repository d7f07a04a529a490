-- ===== src/Elevator/Proc/SharedBuffer.antt =====
-- The proc file of part3/elevator/elevator.c in the hands of several processes: `message` and `read_p`
-- are variables of the module, so all openings share them. An opening is two accesses here, kmalloc and
-- printStats; an attempt to get the lock that fails changes nothing.
use cop4610_project.Base.{
  ℕ, ◌≡◌, refl, Bool, true, false, not, ◌==◌, if◌then◌else◌, Option, none, some, ◌>>=◌, [], ◌∷◌,
  arith, Text, length, update,
}
use cop4610_project.Elevator.Types.{Building}
use cop4610_project.Elevator.Proc.{print_stats, ProcFile, Opened, elevator_open, open_loop}

-- `message` is NULL or the address of a block, `texts` says what stands in a block, and `live` which
-- blocks are allocated.
pub record SharedFile : Type 0 where
  pub message : Option ℕ
  pub texts : ℕ → Text
  pub live : ℕ → Bool
  pub read_p : Bool

-- The beginning of elevator_open, on the result of kmalloc.
unfoldable pub open_shared : (block : Option ℕ) → SharedFile → SharedFile
open_shared none s = record s { message = none; read_p = true }
open_shared (some a) s = record s { message = some a; read_p = true; live = update s.live a true }

-- printStats in elevator_open; to write through NULL or to a freed block is a fault.
unfoldable pub print_shared : Building → SharedFile → Option SharedFile
print_shared b s = do
  a ← s.message
  if s.live a then some (record s { texts = update s.texts a (print_stats b) }) else none

-- elevator_read: what is copied to the process, and the result.
unfoldable pub read_shared : SharedFile → Option (SharedFile × Text × ℕ)
read_shared s =
    let read_p = not s.read_p in
    let s' = record s { read_p = read_p } in
    if read_p
    then some (s', [], 0)
    else do a ← s.message; if s.live a then some (s', s.texts a, length (s.texts a)) else none

-- elevator_release: kfree of NULL does nothing, kfree of a freed block is a fault, and `message` keeps
-- the address.
unfoldable pub release_shared : SharedFile → Option SharedFile
release_shared s = elim s.message [
  | none ↦ some s
  | some a ↦ if s.live a then some (record s { live = update s.live a false }) else none
]

-- The file as one process sees it.
abbrev pub seen : SharedFile → ProcFile
seen s = record { message = (do a ← s.message; some (s.texts a)); read_p = s.read_p }

-- For a process that is alone this is elevator_open with memory and the lock.
alone-elevator_open :
    (s : SharedFile) (a : ℕ) (b : Building)
    → (length (print_stats b) == 0) ≡ false
    → (t : SharedFile) × (print_shared b (open_shared (some a) s) ≡ some t)
      × (elevator_open true (true ∷ []) b ≡ Opened.ready (seen t))
unfolding open_shared print_shared elevator_open open_loop
alone-elevator_open s a b some_text =
    let opened = open_shared (some a) s in
    let live : opened.live a ≡ true = ground arith in
    let there : update s.texts a (print_stats b) a ≡ print_stats b = ground arith in
    (
      record opened { texts = update s.texts a (print_stats b) },
      rw live refl,
      rw (some_text, there) refl,
    )

-- One access of any process; `opens` says whether the file may be opened again.
pub data Use (opens : Bool) : SharedFile → SharedFile → Type 0 where
  opening :
      {s : SharedFile} (block : Option ℕ)
      → opens ≡ true
      → ((a : ℕ) → block ≡ some a → s.live a ≡ false)
      → Use opens s (open_shared block s)
  printing : {s t : SharedFile} (b : Building) → print_shared b s ≡ some t → Use opens s t
  reading :
      {s t : SharedFile} (text : Text) (len : ℕ)
      → read_shared s ≡ some (t, text, len)
      → Use opens s t
  closing : {s t : SharedFile} → release_shared s ≡ some t → Use opens s t

pub data Uses (opens : Bool) (s : SharedFile) : SharedFile → Type 0 where
  here : Uses opens s s
  then_use : {t u : SharedFile} → Uses opens s t → Use opens t u → Uses opens s u
