-- ===== src/Elevator/Service/Measures.antt =====
-- What the service shows of a store, and what boarding and leaving do to the measures.
use cop4610_project.Base.{
  ℕ, zero, suc, ◌+◌, ◌%◌, ◌^◌, ◌<◌, ◌≡◌, refl, ap, sym, ◌∙◌, subst, List, [], ◌∷◌, ◌++◌, arith, All,
  tally, tally-append, ==_self, sum_below, sum_below-change, sum_below-congr,
}
use native.Mathlib.Decide.{ℕ_discrete}
use cop4610_project.Elevator.Types.{Passenger, Building, Store}
use cop4610_project.Elevator.Invariant.{aboard}
use cop4610_project.Elevator.Invariant.Loading.{bound_for, Loaded}
use cop4610_project.Elevator.Invariant.Unloading.{Unloaded}
use cop4610_project.Elevator.Service.Crowds.{total}
use cop4610_project.Elevator.Service.{Service, Turn, Deeds}

-- The measure of everybody who waits.
abbrev pub queued : (Passenger → ℕ) → Building → ℕ
queued g b = sum_below 10 (λ i. tally g (b.f i).waiting)

sum_below_add : (n : ℕ) (g h : ℕ → ℕ) → sum_below n (λ i. g i + h i) ≡ sum_below n g + sum_below n h
unfolding sum_below
sum_below_add zero g h = refl
sum_below_add (suc n) g h = omega (arith, sum_below_add n g h)

pub sum_below_zeros : (n : ℕ) → sum_below n (λ i. 0) ≡ 0
unfolding sum_below
sum_below_zeros zero = refl
sum_below_zeros (suc n) = omega (arith, sum_below_zeros n)

bound_for-own :
    (g : Passenger → ℕ) (p : Passenger) (ps : List Passenger)
    → tally g (bound_for p.d_floor (p ∷ ps)) ≡ g p + tally g (bound_for p.d_floor ps)
unfolding bound_for tally
bound_for-own g p ps = rw (==_self p.d_floor)

-- A measure of those in a list who go to floor `i`, over all floors.
sum-bound_for :
    (g : Passenger → ℕ) (l : List Passenger)
    → All (λ p. p.d_floor < 10) l
    → sum_below 10 (λ i. tally g (bound_for i l)) ≡ tally g l
unfolding bound_for tally
sum-bound_for g [] all = sum_below_zeros 10
sum-bound_for g (p ∷ ps) (low, all) = omega (
  arith,
  sum-bound_for g ps all,
  sum_below-change 10 (λ i. tally g (bound_for i (p ∷ ps))) (λ i. tally g (bound_for i ps))
      p.d_floor low (λ i li ne. ground arith),
  bound_for-own g p ps,
)

pub Loaded-queued :
    (g : Passenger → ℕ) (c : ℕ) (taken rest : List Passenger) (b b' : Building)
    → c < 10
    → Loaded c taken rest b b'
    → queued g b ≡ tally g taken + queued g b'
Loaded-queued g c taken rest b b' lt on = omega (
  arith,
  sum_below-change 10 (λ i. tally g (b.f i).waiting) (λ i. tally g (b'.f i).waiting) c lt
      (λ i li ne. ap (λ fl. tally g fl.waiting) (sym (on.others i ne))),
  ap (tally g) on.queue,
  ap (tally g) on.left,
  tally-append g taken rest,
)

pub Loaded-aboard :
    (g : Passenger → ℕ) (c : ℕ) (taken rest : List Passenger) (b b' : Building)
    → All (λ p. p.d_floor < 10) taken
    → Loaded c taken rest b b'
    → aboard g b'.e.p ≡ tally g taken + aboard g b.e.p
Loaded-aboard g c taken rest b b' low on = omega (
  arith,
  sum_below-congr 10 (λ i. tally g (b'.e.p i))
      (λ i. tally g (b.e.p i) + tally g (bound_for i taken))
      (λ i li. ap (tally g) (on.riders i) ∙ tally-append g (b.e.p i) (bound_for i taken)),
  sum_below_add 10 (λ i. tally g (b.e.p i)) (λ i. tally g (bound_for i taken)),
  sum-bound_for g taken low,
)

pub Loaded-serviced :
    (c : ℕ) (taken rest : List Passenger) (b b' : Building)
    → Loaded c taken rest b b'
    → (i : ℕ) → (b'.f i).serviced ≡ (b.f i).serviced
Loaded-serviced c taken rest b b' on i = elim (ℕ_discrete i c) [
  | yes e ↦ subst (λ k. (b'.f k).serviced ≡ (b.f k).serviced) (sym e) on.serviced
  | no ne ↦ ap (λ fl. fl.serviced) (on.others i ne)
]

pub Unloaded-aboard :
    (g : Passenger → ℕ) (c : ℕ) (m m' : Store)
    → c < 10
    → Unloaded c m m'
    → aboard g m.b.e.p ≡ tally g (m.b.e.p c) + aboard g m'.b.e.p
unfolding tally
Unloaded-aboard g c m m' lt off = omega (
  arith,
  sum_below-change 10 (λ i. tally g (m.b.e.p i)) (λ i. tally g (m'.b.e.p i)) c lt
      (λ i li ne. ap (tally g) (sym (off.others i ne))),
  ap (tally g) off.emptied,
)

-- What the service shows of a store.
pub record Shows (m : Store) (c : Service) : Type 0 where
  pub waiting : (g : Passenger → ℕ) → total g c.waiting ≡ queued g m.b
  pub aboard : (g : Passenger → ℕ) → total g c.aboard ≡ aboard g m.b.e.p
  pub floor : c.floor ≡ m.b.e.current
  pub served : (i : ℕ) → i < 10 → (m.b.f i).serviced ≡ c.served i % 2 ^ 32

-- The service after a part of a section: the calls are as before.
pub record Follows (turn : Turn) (c : Service) (m : Store) : Type 0 where
  pub after : Service
  pub deeds : Deeds turn c after
  pub shows : Shows m after
  pub calling : after.calling ≡ c.calling
  pub asked : after.asked ≡ c.asked
  pub lost : after.lost ≡ c.lost

pub All_front {ℓ κ} : {A : Type ℓ} (P : A → Type κ) (xs ys : List A) → All P (xs ++ ys) → All P xs
All_front P [] ys all = tt
All_front P (x ∷ xs) ys all = (all.0, All_front P xs ys all.1)

pub All_map {ℓ κ μ} :
    {A : Type ℓ} (P : A → Type κ) (Q : A → Type μ) (xs : List A)
    → ((x : A) → P x → Q x)
    → All P xs
    → All Q xs
All_map P Q [] f all = tt
All_map P Q (x ∷ xs) f all = (f x all.0, All_map P Q xs f all.1)
