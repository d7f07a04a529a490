-- ===== src/TestCall.antt =====
-- course_materials/Project2_Examples/03_syscall: a system call whose function a module supplies
-- (SystemCall/test_call.c, SyscallModule/syscallModule.c), and a program that calls it
-- (SystemCall_UserSpaceProgram/main.c). hello.c, test_call.c and ../03_syscall_user/main.c are earlier
-- versions of the same.
pub mod Reading
pub mod Echo
mod Examples
use cop4610_project.Base.{
  ℕ, zero, suc, ◌+◌, ◌-◌, ◌*◌, ◌%◌, ◌^◌, Bool, true, false, ◌==◌, ◌&&◌, ◌||◌, if◌then◌else◌, ltb,
  leb, List, [], ◌∷◌, ◌++◌, Text, codes, show_int, minus_one, signed_ltb,
}

-- STUB_test_call: NULL, or my_test_call of the module.
pub record Stub : Type 0 where
  pub linked : Bool

unfoldable pub module_init : Stub → Stub
module_init s = record { linked = true }

unfoldable pub module_exit : Stub → Stub
module_exit s = record { linked = false }

abbrev pub my_test_call : ℕ → ℕ
my_test_call test = test

-- The pattern of -ENOSYS.
abbrev pub enosys : ℕ
enosys = 4294967258

-- sys_test_call; the long that it returns is that of an int.
unfoldable pub sys_test_call : Stub → ℕ → ℕ
sys_test_call s test = if s.linked then my_test_call test else enosys

-- `test_call` of main.c: `syscall` of the C library makes -1 of the values from -4095 to -1.
unfoldable pub test_call : Stub → ℕ → ℕ
unfolding sys_test_call
test_call s test =
    let ret = sys_test_call s test in if ltb (2 ^ 32 - 4096) ret then minus_one else ret

abbrev pub is_digit : ℕ → Bool
is_digit c = leb 48 c && leb c 57

abbrev pub is_space : ℕ → Bool
is_space c = c == 32 || (leb 9 c && leb c 13)

-- The number at the front of a text, and atoi of the C library: the digits behind spaces and a sign.
unfoldable pub leading : ℕ → Text → ℕ
leading n [] = n
leading n (c ∷ cs) = if is_digit c then leading (n * 10 + (c - 48)) cs else n

unfoldable pub signed_number : Text → ℕ
unfolding leading
signed_number [] = 0
signed_number (c ∷ cs) =
    if c == 45
    then (2 ^ 32 - leading 0 cs % 2 ^ 32) % 2 ^ 32
    else if c == 43
    then leading 0 cs % 2 ^ 32
    else leading 0 (c ∷ cs) % 2 ^ 32

unfoldable pub atoi : Text → ℕ
unfolding signed_number
atoi [] = 0
atoi (c ∷ cs) = if is_space c then atoi cs else signed_number (c ∷ cs)

-- What a run of main.c prints, whether it calls perror, and its exit code.
pub record Run : Type 0 where
  pub output : Text
  pub reported : Bool
  pub code : ℕ

unfoldable pub sent : ℕ → Text
sent test = codes "sending this: " ++ (show_int test ++ codes "\n")

unfoldable pub success : ℕ → ℕ → Text
success test ret =
    codes "Function successful. passed in: "
    ++ (show_int test ++ (codes ", returned " ++ (show_int ret ++ codes "\n")))

unfoldable pub came_back : ℕ → Text
came_back ret = codes "Returned value: " ++ (show_int ret ++ codes "\n")

unfoldable pub call_main : Stub → List Text → Run
call_main s (name ∷ arg ∷ []) =
    let test = atoi arg in
    let ret = test_call s test in
    if signed_ltb ret 0
    then record { output = sent test ++ came_back ret; reported = true; code = 0 }
    else record {
      output = sent test ++ (success test ret ++ came_back ret);
      reported = false;
      code = 0;
    }
call_main s _ = record {
  output = codes "wrong number of args\n";
  reported = false;
  code = minus_one;
}
