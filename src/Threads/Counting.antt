-- ===== src/Threads/Counting.antt =====
-- A thread that counts twenty counters up, one after the other, at any point of its cycle.
use cop4610_project.Base.{
  ℕ, ◌+◌, ◌<◌, ◌≡◌, ◌≢◌, ◌%◌, ◌^◌, ltb, subst, if◌then◌else◌, arith, Text, add32, update,
}
use cop4610_project.Threads.{Runner, Reader}

-- The counters of a thread that has done `n` whole cycles and `k` counters of the next.
abbrev pub Counted : (n k : ℕ) → (ℕ → ℕ) → Type 0
Counted n k cnt = (i : ℕ) → i < 20 → cnt i ≡ (if ltb i k then n + 1 else n) % 2 ^ 32

abbrev pub Outside : Runner → Type 0
Outside (Runner.counting i) = ⊥
Outside _ = Unit

pub Counted-step :
    (n k : ℕ) (cnt : ℕ → ℕ)
    → Counted n k cnt
    → k < 20
    → Counted n (k + 1) (update cnt k (add32 (cnt k) 1))
Counted-step n k cnt c lk i li = ground (arith, c i li, c k lk)

pub Counted-round : (n : ℕ) (cnt : ℕ → ℕ) → Counted n 20 cnt → Counted (n + 1) 0 cnt
Counted-round n cnt c i li = ground (arith, c i li)

pub counting_same : {j k : ℕ} → Runner.counting j ≡ Runner.counting k → j ≡ k
counting_same e = cc

pub reading_same :
    {j k : ℕ} {t u : Text} → Reader.printing j t ≡ Reader.printing k u → (j ≡ k) × (t ≡ u)
reading_same e = (cc, cc)

pub inside : {r : Runner} {i : ℕ} → Outside r → r ≢ Runner.counting i
inside out at = subst Outside at out
