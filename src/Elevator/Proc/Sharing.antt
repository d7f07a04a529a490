-- ===== src/Elevator/Proc/Sharing.antt =====
-- Several openings of the proc file of part3/elevator/elevator.c at once: the first buffer is lost, and
-- the second is freed twice.
use mathlib.Core.Option.{some-injective}
use cop4610_project.Base.{
  Ensures, ensures_if, ensures_bind, ensured, ℕ, ◌≡◌, ◌≢◌, refl, ap, sym, ◌∙◌, Bool, Bool-cases,
  inl, inr, true, false, not, Option, none, some, arith, Text,
}
use cop4610_project.Elevator.Types.{Building}
use cop4610_project.Elevator.Proc.SharedBuffer.{
  SharedFile, open_shared, print_shared, read_shared, release_shared, Use, Uses,
}

-- What an access other than an opening leaves: nothing is allocated, and only the block of `message` is
-- freed.
record Kept (s t : SharedFile) : Type 0 where
  message : t.message ≡ s.message
  others : (a : ℕ) → s.message ≢ some a → t.live a ≡ s.live a
  dead : (a : ℕ) → s.live a ≡ false → t.live a ≡ false

Kept-here : (s t : SharedFile) → t.message ≡ s.message → t.live ≡ s.live → Kept s t
Kept-here s t message live = record {
  message = message;
  others = λ a ne. ap (λ (l : ℕ → Bool). l a) live;
  dead = λ a h. ap (λ (l : ℕ → Bool). l a) live ∙ h;
}

print_shared-Kept :
    (b : Building) (s : SharedFile)
    → Ensures
        (print_shared b s)
        (λ t. Kept s t × ((a : ℕ) × (s.message ≡ some a) × (s.live a ≡ true)))
unfolding print_shared
print_shared-Kept b s =
    let P = λ (t : SharedFile). Kept s t × ((a : ℕ) × (s.message ≡ some a) × (s.live a ≡ true)) in
    ensures_bind P s.message _ λ a at. elim (Bool-cases (s.live a)) [
      | inl live ↦ rw live (Kept-here s _ refl refl, (a, at, live))
      | inr dead ↦ rw dead tt
    ]

read_shared-Kept : (s : SharedFile) → Ensures (read_shared s) (λ r. Kept s r.0)
unfolding read_shared
read_shared-Kept s =
    let P = λ (r : SharedFile × Text × ℕ). Kept s r.0 in
    ensures_if P (not s.read_p) _ _ (Kept-here s _ refl refl) (
      ensures_bind P s.message _
        λ a at. ensures_if P (s.live a) _ none (Kept-here s _ refl refl) tt)

-- A closing, by what `message` is.
close-Kept :
    (s : SharedFile) (message : Option ℕ)
    → s.message ≡ message
    → Ensures
        (release_shared (record s { message = message }))
        (λ t. Kept s t × ((a : ℕ) → s.message ≡ some a → t.live a ≡ false))
unfolding release_shared
close-Kept s none e = (Kept-here s _ (sym e) refl, λ a h. cc (e, h))
close-Kept s (some a) e = elim (Bool-cases (s.live a)) [
  | inl live ↦ rw live (
    record {
      message = sym e;
      others = λ x ne. let apart : x ≢ a = λ h. ne (e ∙ ap some (sym h)) in ground (arith, apart);
      dead = λ x h. ground (arith, h);
    },
    λ x h. let same : a ≡ x = some-injective a x (sym e ∙ h) in ground (arith, same),
  )
  | inr dead ↦ rw dead tt
]

release_shared-Kept :
    (s t : SharedFile)
    → release_shared s ≡ some t
    → Kept s t × ((a : ℕ) → s.message ≡ some a → t.live a ≡ false)
release_shared-Kept s t run =
    ensured (λ (u : SharedFile). Kept s u × ((a : ℕ) → s.message ≡ some a → u.live a ≡ false))
      (close-Kept s s.message refl) run

Use-Kept : {s t : SharedFile} → Use false s t → Kept s t
Use-Kept (Use.opening block may fresh) = cc
Use-Kept {s} {t} (Use.printing b run) =
    (ensured (λ (u : SharedFile). Kept s u × ((a : ℕ) × (s.message ≡ some a) × (s.live a ≡ true)))
      (print_shared-Kept b s) run).0
Use-Kept {s} {t} (Use.reading text len run) =
    ensured (λ (r : SharedFile × Text × ℕ). Kept s r.0) (read_shared-Kept s) run
Use-Kept {s} {t} (Use.closing run) = (release_shared-Kept s t run).0

-- The block at `a` is allocated, and no variable has its address.
record Lost (a : ℕ) (s : SharedFile) : Type 0 where
  live : s.live a ≡ true
  away : s.message ≢ some a

Kept-Lost : {a : ℕ} {s t : SharedFile} → Lost a s → Kept s t → Lost a t
Kept-Lost {a} lost k = record {
  live = k.others a lost.away ∙ lost.live;
  away = λ e. lost.away (sym k.message ∙ e);
}

-- An opening with another block, or none.
open_shared-Lost :
    (a : ℕ) (block : Option ℕ) (s : SharedFile)
    → s.live a ≡ true
    → ((x : ℕ) → block ≡ some x → s.live x ≡ false)
    → Lost a (open_shared block s)
unfolding open_shared
open_shared-Lost a none s live fresh = record { live = live; away = λ e. cc }
open_shared-Lost a (some x) s live fresh =
    let apart : x ≢ a = λ e. cc (live, fresh x refl, ap s.live e) in
    record { live = ground (arith, live); away = λ e. apart (some-injective x a e) }

Use-Lost : {opens : Bool} {a : ℕ} {s t : SharedFile} → Lost a s → Use opens s t → Lost a t
Use-Lost {a = a} {s = s} lost (Use.opening block may fresh) =
    open_shared-Lost a block s lost.live fresh
Use-Lost lost (Use.printing b run) = Kept-Lost lost (Use-Kept (Use.printing b run))
Use-Lost lost (Use.reading text len run) = Kept-Lost lost (Use-Kept (Use.reading text len run))
Use-Lost lost (Use.closing run) = Kept-Lost lost (Use-Kept (Use.closing run))

Uses-Lost : {opens : Bool} {a : ℕ} {s t : SharedFile} → Lost a s → Uses opens s t → Lost a t
Uses-Lost lost Uses.here = lost
Uses-Lost lost (Uses.then_use r u) = Use-Lost (Uses-Lost lost r) u

Kept-trans : {s t u : SharedFile} → Kept s t → Kept t u → Kept s u
Kept-trans {s} k l = record {
  message = l.message ∙ k.message;
  others = λ a ne. l.others a (λ e. ne (sym k.message ∙ e)) ∙ k.others a ne;
  dead = λ a h. l.dead a (k.dead a h);
}

Uses-Kept : {s t : SharedFile} → Uses false s t → Kept s t
Uses-Kept {s} Uses.here = Kept-here s s refl refl
Uses-Kept (Uses.then_use r u) = Kept-trans (Uses-Kept r) (Use-Kept u)

closed_again :
    (s : SharedFile) (a : ℕ) (message : Option ℕ)
    → s.message ≡ message
    → message ≡ some a
    → s.live a ≡ false
    → release_shared (record s { message = message }) ≡ none
unfolding release_shared
closed_again s a none e at dead = cc
closed_again s a (some x) e at dead =
    let same : x ≡ a = some-injective x a at in rw (same, dead) refl

-- Once the file has been opened with memory and is opened again by another process, with memory or
-- without, before a closing, the block of the first opening stays allocated for ever, whatever
-- openings, prints, reads and closings of any processes follow. If the second opening had memory too
-- and the file is not opened a third time, only one closing ends without a fault: after it every
-- other one frees the same block again.
pub openings_overlap :
    (s : SharedFile) (a : ℕ) (block : Option ℕ)
    → s.live a ≡ false
    → ((x : ℕ) → block ≡ some x → (open_shared (some a) s).live x ≡ false)
    → let both = open_shared block (open_shared (some a) s) in
      ((t : SharedFile) → Uses true both t → t.live a ≡ true)
      × ((c : ℕ) (t u v : SharedFile)
          → block ≡ some c
          → Uses false both t
          → release_shared t ≡ some u
          → Uses false u v
          → release_shared v ≡ none)
unfolding open_shared
openings_overlap s a block unused fresh =
    let first = open_shared (some a) s in
    let lost = open_shared-Lost a block first (ground arith) fresh in
    (
      λ t r. (Uses-Lost lost r).live,
      λ c t u v got before closed after.
          let message : (open_shared block first).message ≡ some c =
            ap (λ o. (open_shared o first).message) got in
          let k = Uses-Kept before in
          let (l, gone) = release_shared-Kept t u closed in
          let m = Uses-Kept after in
          let at = k.message ∙ message in
          closed_again v c v.message refl (m.message ∙ l.message ∙ at) (m.dead c (gone c at)),
    )
