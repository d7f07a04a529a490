-- ===== src/Threads/Fitting.antt =====
-- The text of the counters fits the buffers of the two threads that count.
use cop4610_project.Base.{
  ℕ, zero, suc, ◌+◌, ◌*◌, ◌≤◌, ◌<◌, ◌≡◌, refl, some, ◌++◌, arith, Text, codes, length,
  length-append, length-show_int,
}
use cop4610_project.Hello.{print_into}
use cop4610_project.Threads.{cycles_header, cycles_line}
use cop4610_project.Threads.Opening.{print_counters, print_cycles}

-- The lines of the counters from `i`, behind a text.
unfoldable pub with_lines : (n i : ℕ) → (value : ℕ → ℕ) → Text → Text
with_lines zero i value text = text
with_lines (suc n) i value text = with_lines n (i + 1) value (text ++ cycles_line (value i))

unfoldable pub cycles_text : (id : ℕ) → (value : ℕ → ℕ) → Text
unfolding with_lines
cycles_text id value = with_lines 20 0 value (cycles_header id) ++ codes "\n"

print_into_fits : (size : ℕ) (text : Text) → length text < size → print_into size text ≡ some text
unfolding print_into
print_into_fits size text h = ground arith

length-line : (n : ℕ) → length (cycles_line n) ≤ 12
unfolding cycles_line
length-line n = simp length-append (omega (arith, length-show_int n))

length-header : (id : ℕ) → length (cycles_header id) ≤ 100
unfolding cycles_header
length-header id = simp length-append (omega (arith, length-show_int id))

length-longer : (text : Text) (n : ℕ) → length (text ++ cycles_line n) ≤ length text + 12
length-longer text n = omega (arith, length-append text (cycles_line n), length-line n)

length-with_lines :
    (n i : ℕ) (value : ℕ → ℕ) (text : Text)
    → length (with_lines n i value text) ≤ length text + 12 * n
unfolding with_lines
length-with_lines zero i value text = omega arith
length-with_lines (suc n) i value text = omega (
  arith,
  length-longer text (value i),
  length-with_lines n (i + 1) value (text ++ cycles_line (value i)),
)

print_counters_fit :
    (n i : ℕ) (value : ℕ → ℕ) (text : Text)
    → length text + 12 * n < 10000
    → print_counters n i value text ≡ some (with_lines n i value text)
unfolding print_counters with_lines
print_counters_fit zero i value text h = refl
print_counters_fit (suc n) i value text h =
    let line = cycles_line (value i) in
    let longer = length-longer text (value i) in
    let line_fits = print_into_fits 10000 line (omega (arith, length-line (value i))) in
    let text_fits = print_into_fits 10000 (text ++ line) (omega (arith, h, longer)) in
    rw (line_fits, text_fits)
      (print_counters_fit n (i + 1) value (text ++ line) (omega (arith, h, longer)))

pub print_cycles_fit :
    (id : ℕ) (value : ℕ → ℕ) → print_cycles id value ≡ some (cycles_text id value)
unfolding print_cycles cycles_text
print_cycles_fit id value =
    let header = cycles_header id in
    let lines = with_lines 20 0 value header in
    let short = length-header id in
    let header_fits = print_into_fits 10000 header (omega (arith, short)) in
    let lines_fit = print_counters_fit 20 0 value header (omega (arith, short)) in
    let end_fits = print_into_fits 10000 (lines ++ codes "\n") (
      omega
        (arith, short, length-with_lines 20 0 value header, length-append lines (codes "\n"))) in
    rw (header_fits, lines_fit) end_fits
