-- ===== src/TestCall/Echo.antt =====
-- What the program prints of the number that it is given.
use cop4610_project.Base.{
  ℕ, ◌-◌, ◌^◌, ◌<◌, ◌≡◌, refl, true, false, ltb, [], ◌∷◌, ◌++◌, arith, Text, show_int, minus_one,
  signed_ltb,
}
use cop4610_project.TestCall.{
  Stub, module_init, module_exit, test_call, atoi, Run, sent, success, came_back, call_main,
}
use cop4610_project.TestCall.Reading.{atoi-show_int}

test_call-linked : (s : Stub) (n : ℕ) → n < 2 ^ 31 → test_call (module_init s) n ≡ n
unfolding test_call module_init
test_call-linked s n h = let far : ltb (2 ^ 32 - 4096) n ≡ false = ground (arith, h) in rw far

pub not_negative : (n : ℕ) → n < 2 ^ 31 → signed_ltb n 0 ≡ false
not_negative n h = ground (arith, h)

-- With the module loaded the program, given the decimals of a number that is not negative, prints
-- that number as the one it passed in and as the one that was returned. Once the module is unloaded it
-- prints -1 as the value that came back, and reports an error.
pub call_main_echoes :
    (s : Stub) (name : Text) (n : ℕ)
    → n < 2 ^ 31
    → let loaded = module_init s in
      let echoed : Run = record {
        output = sent n ++ (success n n ++ came_back n);
        reported = false;
        code = 0;
      } in
      let lost : Run = record {
        output = sent n ++ came_back minus_one;
        reported = true;
        code = 0;
      } in
      (call_main loaded (name ∷ show_int n ∷ []) ≡ echoed)
      × (call_main (module_exit loaded) (name ∷ show_int n ∷ []) ≡ lost)
unfolding call_main module_exit test_call
call_main_echoes s name n h =
    let read : atoi (show_int n) ≡ n = atoi-show_int n (omega (arith, h)) in
    rw (read, test_call-linked s n h, not_negative n h) (refl, refl)
