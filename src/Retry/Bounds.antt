-- ===== src/Retry/Bounds.antt =====
-- How long a delay of `calculateDelay` (internal/identity/retry.go) can be.
use truespec_agent.Prelude.{ℕ, ◌≤◌, ◌^◌, ◌≡◌, inl, inr, false, arith, Bool-cases, if◌then◌else◌}
use truespec_agent.Prelude.Int.{ℤ, pos, ◌≤ℤ◌}
use truespec_agent.Retry.Delay.{Floats, RetryConfig, exponential_delay, calculate_delay}

module _ (floats : Floats) where
  open floats use {Float, of_int, truncate, less}

  -- What the bound rests on: an integer of up to 53 bits is converted without loss, and among
  -- numbers (not NaN) the conversion to an integer keeps the order.
  pub record HasOrder : Type 1 where
    pub IsNumber : Float → Type 0
    pub of_int-IsNumber : (z : ℤ) → IsNumber (of_int z)
    pub truncate-of_int : (n : ℕ) → n ≤ 2 ^ 53 → truncate (of_int (pos n)) ≡ pos n
    pub truncate_mono :
        (x y : Float) → IsNumber x → IsNumber y → less x y ≡ false → truncate y ≤ℤ truncate x

  truncate-capped :
      (order : HasOrder) (top raw : Float)
      → order.IsNumber top
      → order.IsNumber raw
      → truncate (if less top raw then top else raw) ≤ℤ truncate top
  truncate-capped order top raw n k = elim (Bool-cases (less top raw)) [
    | inl over ↦ rw over (omega arith)
    | inr under ↦ rw under (order.truncate_mono top raw n k under)
  ]

  calculate_delay_still :
      (cfg : RetryConfig floats) (random : Float) (attempt m : ℕ)
      → cfg.jitter ≡ false
      → cfg.max_delay ≡ pos m
      → let top = of_int (pos m) in
        let raw = exponential_delay floats cfg attempt in
        calculate_delay floats cfg random attempt ≡ truncate (if less top raw then top else raw)
  unfolding calculate_delay
  calculate_delay_still cfg random attempt m still limit = ground arith

  -- Without jitter no delay exceeds the maximal delay, if that has at most 53 bits, whatever the
  -- attempt and the multiplier, unless their product is not a number.
  pub calculate_delay-le-max_delay :
      (order : HasOrder) (cfg : RetryConfig floats) (random : Float) (attempt m : ℕ)
      → order.IsNumber (exponential_delay floats cfg attempt)
      → cfg.jitter ≡ false
      → cfg.max_delay ≡ pos m
      → m ≤ 2 ^ 53
      → calculate_delay floats cfg random attempt ≤ℤ pos m
  calculate_delay-le-max_delay order cfg random attempt m number still limit small =
      let raw = exponential_delay floats cfg attempt in
      rw (calculate_delay_still cfg random attempt m still limit) (
        rw (order.truncate-of_int m small) at
          (truncate-capped order (of_int (pos m)) raw (order.of_int-IsNumber (pos m)) number))
