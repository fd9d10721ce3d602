-- ===== src/Retry/Loop.antt =====
-- `RetryWithBackoff` of internal/identity/retry.go. The function that is tried is given by what
-- each of its calls answers; a closure's variable that the last call set is the value returned.
use truespec_agent.Prelude.{
  ℕ, zero, suc, Bool, true, false, Option, none, some, List, [], ◌∷◌, Result, ok, err, ◌==◌,
  if◌then◌else◌,
}
use truespec_agent.Prelude.Int.{ℤ, pos_part}

-- The error of the loop, with the last error of the function, which is nil if it never ran.
pub data RetryError (E : Type 0) : Type 0 where
  retry_cancelled : RetryError E
  attempts_exceeded : ℤ → Option E → RetryError E

module _ {E A : Type 0} (fn : ℕ → Result E A) (cancelled : ℕ → Bool) (delay : ℕ → ℤ) (max : ℤ) where
  -- `rest` is the number of rounds to go. `cancelled` says which branch the `select` after a failed
  -- attempt takes. The delays that were waited for in full are listed.
  unfoldable pub retry_loop : ℕ → ℕ → Option E → Result (RetryError E) A × List ℤ
  retry_loop zero attempt last = (err (attempts_exceeded max last), [])
  retry_loop (suc rest) attempt last =
      let later = retry_loop rest (suc attempt) in
      elim (fn attempt) [
        | ok a ↦ (ok a, [])
        | err e ↦
            if suc attempt == pos_part max
            then (err (attempts_exceeded max (some e)), [])
            else if cancelled attempt
            then (err retry_cancelled, [])
            else let (r, waits) = later (some e) in (r, delay attempt ∷ waits)
      ]

  unfoldable pub retry_with_backoff : Result (RetryError E) A × List ℤ
  unfolding retry_loop
  retry_with_backoff = retry_loop (pos_part max) 0 none

-- `IsRetryable`, on an error or nil.
unfoldable pub is_retryable : {E : Type 0} → Option E → Bool
is_retryable none = false
is_retryable (some e) = true
