-- ===== src/Elevator/Service/Boarding.antt =====
-- Many passengers who board or leave, one after the other.
use cop4610_project.Base.{ℕ, ◌+◌, ◌≤◌, ◌≡◌, refl, subst, List, [], ◌∷◌, arith, All, tally, update}
use cop4610_project.Elevator.Types.{Passenger}
use cop4610_project.Elevator.Invariant.{weight, size}
use cop4610_project.Elevator.Invariant.Unloading.{from}
use cop4610_project.Elevator.Service.Crowds.{Crowd, put, total, total-put}
use cop4610_project.Elevator.Service.{Service, Turn, Deed, Deeds}

-- A crowd with a list of passengers: the first is put in last, or first.
pub with_all : List Passenger → Crowd → Crowd
with_all [] c = c
with_all (p ∷ ps) c = put p (with_all ps c)

pub add_all : List Passenger → Crowd → Crowd
add_all [] c = c
add_all (p ∷ ps) c = add_all ps (put p c)

pub total-with_all :
    (g : Passenger → ℕ) (l : List Passenger) (c : Crowd)
    → total g (with_all l c) ≡ tally g l + total g c
unfolding with_all tally
total-with_all g [] c = omega arith
total-with_all g (p ∷ ps) c = omega (arith, total-put g p (with_all ps c), total-with_all g ps c)

pub total-add_all :
    (g : Passenger → ℕ) (l : List Passenger) (c : Crowd)
    → total g (add_all l c) ≡ tally g l + total g c
unfolding add_all tally
total-add_all g [] c = omega arith
total-add_all g (p ∷ ps) c = omega (arith, total-put g p c, total-add_all g ps (put p c))

-- How many were brought from each floor, with those of a list.
pub add_served : List Passenger → (ℕ → ℕ) → ℕ → ℕ
add_served [] served = served
add_served (p ∷ ps) served = add_served ps (update served p.s_floor (served p.s_floor + 1))

pub add_served_lem :
    (l : List Passenger) (served : ℕ → ℕ) (i : ℕ)
    → add_served l served i ≡ served i + tally (from i) l
unfolding add_served tally
add_served_lem [] served i = omega arith
add_served_lem (p ∷ ps) served i =
    ground (arith, add_served_lem ps (update served p.s_floor (served p.s_floor + 1)) i)

module _ {turn : Turn} where
  pub Deeds-trans : {c d e : Service} → Deeds turn c d → Deeds turn d e → Deeds turn c e
  Deeds-trans r Deeds.none_yet = r
  Deeds-trans r (Deeds.then_deed s x) = Deeds.then_deed (Deeds-trans r s) x

  pub one_deed : {c d : Service} → Deed turn c d → Deeds turn c d
  one_deed x = Deeds.then_deed Deeds.none_yet x

-- All of a list board, if there is room for all.
pub all_board :
    (l : List Passenger) (c : Service) (others : Crowd)
    → c.waiting ≡ with_all l others
    → All (λ p. p.s_floor ≡ c.floor) l
    → tally weight l + total weight c.aboard ≤ 30
    → tally size l + total size c.aboard ≤ 10
    → Deeds Turn.boarding c (record c { waiting = others; aboard = add_all l c.aboard })
unfolding with_all add_all tally
all_board [] c others w here heavy big =
    subst (λ x. Deeds Turn.boarding c (record c { waiting = x })) w Deeds.none_yet
all_board (p ∷ ps) c others w here heavy big =
    let in_weight = total-put weight p c.aboard in
    let in_size = total-put size p c.aboard in
    let next : Service = record c { waiting = with_all ps others; aboard = put p c.aboard } in
    Deeds-trans
      (one_deed (Deed.board p (with_all ps others) refl w here.0 (omega arith) (omega arith)))
      (all_board ps next others refl here.1 (omega arith) (omega arith))

pub all_leave :
    (l : List Passenger) (c : Service) (others : Crowd)
    → c.aboard ≡ with_all l others
    → All (λ p. p.d_floor ≡ c.floor) l
    → Deeds Turn.leaving c (record c { aboard = others; served = add_served l c.served })
unfolding with_all add_served
all_leave [] c others a here =
    subst (λ x. Deeds Turn.leaving c (record c { aboard = x })) a Deeds.none_yet
all_leave (p ∷ ps) c others a here =
    let next : Service = record c {
      aboard = with_all ps others;
      served = update c.served p.s_floor (c.served p.s_floor + 1);
    } in
    Deeds-trans (one_deed (Deed.leave p (with_all ps others) refl a here.0))
      (all_leave ps next others refl here.1)
