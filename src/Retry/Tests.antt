-- ===== src/Retry/Tests.antt =====
-- Runs of the retries (internal/identity/retry.go), and the theorems at concrete inputs.
use truespec_agent.Prelude.{
  second, ℕ, zero, suc, ◌+◌, ◌*◌, ◌/◌, ◌≡◌, ◌≤◌, ap, Bool, false, some, [], ◌∷◌, String, Result, ok,
  err, refl, arith, ◌^◌,
}
use truespec_agent.Prelude.Int.{ℤ, pos, negsuc, pos_part, neg_part, sub_ℕ, ◌+ℤ◌, ◌-ℤ◌, ◌≤ℤ◌, ltb_ℤ}
use truespec_agent.Retry.Loop.{attempts_exceeded, retry_with_backoff}
use truespec_agent.Retry.Delay.{Floats, RetryConfig, calculate_delay}
use truespec_agent.Retry.Outcomes.{RunsFrom, retry_with_backoff-RunsFrom}
use truespec_agent.Retry.Bounds.{HasOrder}

-- The third call succeeds.
abbrev third_time : ℕ → Result String ℕ
third_time zero = err "refused"
third_time (suc zero) = err "timeout"
third_time _ = ok 42

abbrev never_cancelled : ℕ → Bool
never_cancelled attempt = false

abbrev wait : ℕ → ℤ
wait attempt = pos (second * 2 ^ attempt)

run :
    retry_with_backoff third_time never_cancelled wait (pos 3)
    ≡ (ok 42, pos second ∷ pos (2 * second) ∷ [])
unfolding retry_with_backoff
run = refl

run_exceeded :
    retry_with_backoff third_time never_cancelled wait (pos 2)
    ≡ (err (attempts_exceeded (pos 2) (some "timeout")), pos second ∷ [])
unfolding retry_with_backoff
run_exceeded = refl

retry_with_backoff-RunsFrom_example :
    RunsFrom third_time never_cancelled wait
      (pos 2)
      0
      2
      (retry_with_backoff third_time never_cancelled wait (pos 2))
retry_with_backoff-RunsFrom_example =
    retry_with_backoff-RunsFrom third_time never_cancelled wait (pos 2) (omega arith)

-- Fixed-point numbers in quarters: an arithmetic that has the laws that the bound rests on.
times : ℤ → ℤ → ℤ
times a b =
    sub_ℕ ((pos_part a * pos_part b + neg_part a * neg_part b) / 4)
      ((pos_part a * neg_part b + neg_part a * pos_part b) / 4)

power : ℤ → ℕ → ℤ
power a zero = pos 4
power a (suc n) = times a (power a n)

scale : ℤ → ℤ
scale (pos n) = pos (4 * n)
scale (negsuc n) = negsuc (4 * n + 3)

floor : ℤ → ℤ
floor (pos n) = pos (n / 4)
floor (negsuc n) = negsuc (n / 4)

abbrev quarters : Floats
quarters = record {
  Float = ℤ;
  of_int = scale;
  truncate = floor;
  add = ◌+ℤ◌;
  sub = ◌-ℤ◌;
  mul = times;
  pow = λ a b. power a (pos_part (floor b));
  less = ltb_ℤ;
  quarter = pos 1;
}

floor-scale : (n : ℕ) → n ≤ 2 ^ 53 → floor (scale (pos n)) ≡ pos n
unfolding floor scale
floor-scale n h = ap pos (omega arith)

floor_mono : (x y : ℤ) → Unit {0} → Unit {0} → ltb_ℤ x y ≡ false → floor y ≤ℤ floor x
unfolding floor
floor_mono x y u v h = ground arith

quarters-HasOrder : HasOrder quarters
quarters-HasOrder = record {
  IsNumber = λ x. Unit;
  of_int-IsNumber = λ z. tt;
  truncate-of_int = floor-scale;
  truncate_mono = floor_mono;
}

abbrev steady : RetryConfig quarters
steady = record {
  initial_delay = pos 5;
  max_delay = pos 300;
  max_attempts = pos 10;
  multiplier = pos 8;
  jitter = false;
}

steady-delays :
    (calculate_delay quarters steady (pos 0) 3 ≡ pos 40)
    × (calculate_delay quarters steady (pos 0) 9 ≡ pos 300)
unfolding calculate_delay times power scale floor
steady-delays = (refl, refl)
