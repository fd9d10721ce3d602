-- ===== src/Retry/Delay.antt =====
-- The delays of internal/identity/retry.go, over an unknown arithmetic of float64.
use truespec_agent.Prelude.{second, ℕ, ◌*◌, Bool, true, if◌then◌else◌}
use truespec_agent.Prelude.Int.{ℤ, pos}

-- The operations on float64 that the code uses.
pub record Floats : Type 1 where
  pub Float : Type 0
  pub of_int : ℤ → Float
  -- the conversion to an integer type
  pub truncate : Float → ℤ
  pub add : Float → Float → Float
  pub sub : Float → Float → Float
  pub mul : Float → Float → Float
  pub pow : Float → Float → Float
  pub less : Float → Float → Bool
  -- the constant 0.25
  pub quarter : Float

module _ (floats : Floats) where
  open floats use {Float, of_int, truncate, add, sub, mul, pow, less, quarter}

  pub record RetryConfig : Type 0 where
    pub initial_delay : ℤ
    pub max_delay : ℤ
    pub max_attempts : ℤ
    pub multiplier : Float
    pub jitter : Bool

  unfoldable pub default_retry_config : RetryConfig
  default_retry_config = record {
    initial_delay = pos (5 * second);
    max_delay = pos (300 * second);
    max_attempts = pos 10;
    multiplier = of_int (pos 2);
    jitter = true;
  }

  abbrev pub exponential_delay : RetryConfig → ℕ → Float
  exponential_delay cfg attempt =
      mul (of_int cfg.initial_delay) (pow cfg.multiplier (of_int (pos attempt)))

  -- `random` is what `rand.Float64` answers.
  unfoldable pub calculate_delay : RetryConfig → Float → ℕ → ℤ
  calculate_delay cfg random attempt =
      let raw = exponential_delay cfg attempt in
      let capped = if less (of_int cfg.max_delay) raw then of_int cfg.max_delay else raw in
      let swing = mul (mul capped quarter) (sub (mul random (of_int (pos 2))) (of_int (pos 1))) in
      truncate (if cfg.jitter then add capped swing else capped)
