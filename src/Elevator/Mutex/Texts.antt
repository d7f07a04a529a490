-- ===== src/Elevator/Mutex/Texts.antt =====
-- The texts that printStats writes for elevator_open, between the accesses of everybody else.
use cop4610_project.Base.{
  bind_some, Option, some, Bool, ◌≡◌, inl, inr, refl, ap, sym, subst, true, some, List, [], ◌∷◌,
  ◌++◌, Text, All, All_middle,
}
use mathlib.Core.Option.{some-injective}
use cop4610_project.Elevator.Types.{Building, Store}
use cop4610_project.Elevator.Proc.{print_stats}
use cop4610_project.Elevator.Requests.{finish_request}
use cop4610_project.Elevator.System.{System, Reach}
use cop4610_project.Elevator.Mutex.{interrupted}
use cop4610_project.Elevator.Mutex.{Call, enters, acts, leaves, holds, Machine, Access, Runs}
use cop4610_project.Elevator.Mutex.Atomic.{Matches}
use cop4610_project.Elevator.Mutex.Waiting.{others_out}
use cop4610_project.Elevator.Mutex.Sections.{Runs-Matched, IsHarmless, signals_of}

-- The text of a state between whole sections.
abbrev Pictures : Bool → Building → Text → Type 0
Pictures signals b text = (s : System) × Reach signals b s × (text ≡ print_stats s.store.b)

abbrev IsTrue : Bool → Building → Call → Type 0
IsTrue signals b (Call.printed text) = Pictures signals b text
IsTrue signals b (Call.shown text) = Pictures signals b text
IsTrue signals b _ = Unit

All_insert {ℓ κ} :
    {A : Type ℓ} (P : A → Type κ) (xs ys zs : List A)
    → All P (xs ++ zs)
    → All P ys
    → All P ((xs ++ ys) ++ zs)
All_insert P [] [] zs all new = all
All_insert P [] (y ∷ ys) zs all new = (new.0, All_insert P [] ys zs all new.1)
All_insert P (x ∷ xs) ys zs all new = (all.0, All_insert P xs ys zs all.1 new)

All_put {ℓ κ} :
    {A : Type ℓ} (P : A → Type κ) (xs : List A) (y : A) (zs : List A)
    → All P (xs ++ zs)
    → P y
    → All P (xs ++ y ∷ zs)
All_put P [] y zs all new = (new, all)
All_put P (x ∷ xs) y zs all new = (all.0, All_put P xs y zs all.1 new)

enters-IsTrue :
    (signals : Bool) (b : Building) (c c' : Call) → enters c ≡ some c' → IsTrue signals b c'
unfolding enters
enters-IsTrue signals b (Call.asking p) c' h =
    subst (IsTrue signals b) (some-injective (Call.adding p) c' h) tt
enters-IsTrue signals b Call.starting c' h =
    subst (IsTrue signals b) (some-injective Call.starts c' h) tt
enters-IsTrue signals b Call.stopping c' h =
    subst (IsTrue signals b) (some-injective Call.stops c' h) tt
enters-IsTrue signals b Call.opening c' h =
    subst (IsTrue signals b) (some-injective Call.printing c' h) tt
enters-IsTrue signals b _ c' h = cc

leaves-IsTrue :
    (signals : Bool) (b : Building) (c : Call) (rest : List Call)
    → IsTrue signals b c
    → leaves c ≡ some rest
    → All (IsTrue signals b) rest
unfolding leaves
leaves-IsTrue signals b Call.done rest true_text h =
    subst (All (IsTrue signals b)) (some-injective [] rest h) tt
leaves-IsTrue signals b (Call.printed text) rest true_text h =
    subst (All (IsTrue signals b)) (some-injective (Call.shown text ∷ []) rest h) (true_text, tt)
leaves-IsTrue signals b _ rest true_text h = cc

interrupted-IsTrue :
    (signals : Bool) (b : Building) (c : Call) (rest : List Call)
    → interrupted c ≡ some rest
    → All (IsTrue signals b) rest
unfolding interrupted
interrupted-IsTrue signals b (Call.asking p) rest h =
    subst (All (IsTrue signals b)) (some-injective [] rest h) tt
interrupted-IsTrue signals b Call.starting rest h =
    subst (All (IsTrue signals b)) (some-injective [] rest h) tt
interrupted-IsTrue signals b Call.stopping rest h =
    subst (All (IsTrue signals b)) (some-injective [] rest h) tt
interrupted-IsTrue signals b Call.opening rest h =
    subst (All (IsTrue signals b)) (some-injective (Call.opening ∷ []) rest h) (tt, tt)
interrupted-IsTrue signals b _ rest h = cc

act-IsTrue :
    {signals : Bool} {b : Building} {f : Machine} {s : System}
    → Matches signals b f s
    → (c c' : Call) (m' : Store) (before after : List Call) → f.calls ≡ before ++ c ∷ after
    → acts c f.store ≡ some (m', c')
    → IsTrue signals b c'
unfolding acts holds
act-IsTrue {signals} {b} {f} m Call.printing c' m' before after at run =
    let both = some-injective (f.store, Call.printed (print_stats f.store.b)) (m', c') run in
    let (out, same, nobody) = others_out m Call.printing before after at refl in
    subst (IsTrue signals b) (ap (λ (x : Store × Call). x.1) both)
      (_, m.reach, ap (λ (n : Store). print_stats n.b) same)
act-IsTrue {signals} {b} {f} m (Call.adding p) c' m' before after at run =
    let (n, fin, e) = bind_some (finish_request true p f.store) (λ k. some (k, Call.done)) run in
    subst (IsTrue signals b)
      (ap (λ (x : Store × Call). x.1) (some-injective (n, Call.done) (m', c') e)) tt
act-IsTrue {signals} {b} {f} m Call.starts c' m' before after at run =
    subst (IsTrue signals b)
      (ap (λ (x : Store × Call). x.1) (some-injective (_, Call.done) (m', c') run)) tt
act-IsTrue {signals} {b} {f} m Call.stops c' m' before after at run =
    subst (IsTrue signals b)
      (ap (λ (x : Store × Call). x.1) (some-injective (_, Call.done) (m', c') run)) tt
act-IsTrue m _ c' m' before after at run = cc

-- One call of all becomes some others.
instead {ℓ κ} :
    {A : Type ℓ} (P : A → Type κ) {xs : List A} (before after : List A) (x : A)
    → xs ≡ before ++ x ∷ after
    → All P xs
    → P x × All P (before ++ after)
instead P before after x at all = All_middle P before x after (subst (All P) at all)

Access-IsTrue :
    {unheld : Option (Bool → Bool)} {signals : Bool} {b : Building} {f g : Machine} {s : System}
    → Matches signals b f s
    → All (IsTrue signals b) f.calls
    → Access unheld f g
    → All (IsTrue signals b) g.calls
Access-IsTrue {signals = signals} {b = b} m all (Access.call c what) = (
  elim what [
    | inl e ↦ subst (IsTrue signals b) (sym e) tt
    | inr (inl e) ↦ subst (IsTrue signals b) (sym e) tt
    | inr (inr e) ↦ subst (IsTrue signals b) (sym e) tt
  ],
  all,
)
Access-IsTrue m all (Access.request block t z d ints fresh run) = (tt, all)
Access-IsTrue {signals = signals} {b = b} m all (Access.enter c c' before after at free how) =
    All_put (IsTrue signals b) before c' after (instead (IsTrue signals b) before after c at all).1
      (enters-IsTrue signals b c c' how)
Access-IsTrue {signals = signals} {b = b} m all (Access.act c c' m' before after at run) =
    All_put (IsTrue signals b) before c' after (instead (IsTrue signals b) before after c at all).1
      (act-IsTrue m c c' m' before after at run)
Access-IsTrue {signals = signals} {b = b} m all (Access.leave c rest before after at how) =
    let (this, others) = instead (IsTrue signals b) before after c at all in
    All_insert (IsTrue signals b) before rest after others (leaves-IsTrue signals b c rest this how)
Access-IsTrue {signals = signals} {b = b} m all
      (Access.interrupt unlock c rest before after given at how) =
    let others = (instead (IsTrue signals b) before after c at all).1 in
    All_insert (IsTrue signals b) before rest after others (interrupted-IsTrue signals b c rest how)
Access-IsTrue m all _ = all

Runs-IsTrue :
    {unheld : Option (Bool → Bool)} {b : Building} {f : Machine}
    → IsHarmless unheld
    → Runs unheld b f
    → All (IsTrue (signals_of unheld) b) f.calls
Runs-IsTrue harmless Runs.begin = tt
Runs-IsTrue harmless (Runs.next r a) =
    Access-IsTrue (Runs-Matched harmless r).1 (Runs-IsTrue harmless r) a

-- Every text that printStats has written for a call of elevator_open shows one reachable state of the
-- module between whole critical sections, however the accesses of the thread and of all calls were
-- interleaved, where no lock is interrupted or a mutex_unlock by somebody who does not hold the mutex
-- has no effect.
pub texts_show_states :
    {unheld : Option (Bool → Bool)} {b : Building} {f : Machine} (text : Text)
    (before after : List Call)
    → IsHarmless unheld
    → Runs unheld b f
    → f.calls ≡ before ++ Call.shown text ∷ after
    → (s : System) × Reach (signals_of unheld) b s × (text ≡ print_stats s.store.b)
texts_show_states {unheld} {b} text before after harmless r at =
    let P = IsTrue (signals_of unheld) b in
    (instead P before after (Call.shown text) at (Runs-IsTrue harmless r)).0
