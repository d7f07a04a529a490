-- ===== src/Elevator/Passengers.antt =====
-- part3/elevator/elevator.h: the functions of one passenger, and the room left for it.
use cop4610_project.Base.{
  ℕ, Bool, ◌&&◌, ◌||◌, ◌==◌, if◌then◌else◌, add32, minus_one, signed_ltb, signed_leb,
}
use cop4610_project.Elevator.Types.{
  PType, adult, child, room, bell, unknown, Passenger, Elevator, max_w, max_p,
}

unfoldable pub pass_of : PType → ℕ
pass_of child = 1
pass_of adult = 1
pass_of room = 2
pass_of bell = 2
pass_of (unknown n) = minus_one

unfoldable pub get_pass : Passenger → ℕ
unfolding pass_of
get_pass p = pass_of p.kind

unfoldable pub weight_of : PType → ℕ
weight_of child = 1
weight_of adult = 2
weight_of room = 4
weight_of bell = 8
weight_of (unknown n) = minus_one

unfoldable pub get_weight : Passenger → ℕ
unfolding weight_of
get_weight p = weight_of p.kind

-- The test that guards addPass, delPass and movePass.
unfoldable pub is_invalid : Passenger → Bool
unfolding get_weight get_pass
is_invalid p = (get_weight p == minus_one) || (get_pass p == minus_one)

unfoldable pub p_direction : Passenger → ℕ
p_direction p = if signed_ltb p.s_floor p.d_floor then 1 else 0

unfoldable pub has_space : Elevator → Bool
has_space e = signed_ltb e.w_units max_w && signed_ltb e.p_units max_p

unfoldable pub can_fit : Passenger → Elevator → Bool
unfolding get_weight get_pass
can_fit p e =
    signed_leb (add32 (get_weight p) e.w_units) max_w
    && signed_leb (add32 (get_pass p) e.p_units) max_p
