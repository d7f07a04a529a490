-- ===== src/TestCall/Examples.antt =====
-- Runs of the program of course_materials/Project2_Examples/03_syscall.
use cop4610_project.Base.{◌≡◌, true, false, [], ◌∷◌, ◌++◌, arith, codes, show_int, minus_one}
use cop4610_project.TestCall.{Stub, module_init, module_exit, sent, success, came_back, call_main}
use cop4610_project.TestCall.Echo.{call_main_echoes}

abbrev unloaded : Stub
unloaded = record { linked = false }

call_main_echoes_example :
    (call_main (module_init unloaded) (codes "main" ∷ show_int 42 ∷ [])
      ≡ record { output = sent 42 ++ (success 42 42 ++ came_back 42); reported = false; code = 0 })
    × (call_main (module_exit (module_init unloaded)) (codes "main" ∷ show_int 42 ∷ [])
        ≡ record { output = sent 42 ++ came_back minus_one; reported = true; code = 0 })
call_main_echoes_example = call_main_echoes unloaded (codes "main") 42 (omega arith)
