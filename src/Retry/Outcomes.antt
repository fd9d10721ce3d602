-- ===== src/Retry/Outcomes.antt =====
-- When `RetryWithBackoff` (internal/identity/retry.go) succeeds, gives up, or is cancelled.
use native.Mathlib.Decide.{ℕ_discrete}
use truespec_agent.Prelude.{
  ◌-◌, sym, ◌∙◌, ℕ, zero, suc, ◌+◌, ◌<◌, ◌≡◌, ◌⊎◌, inl, inr, refl, Bool, true, false, Option, none,
  some, List, [], ◌∷◌, Result, ok, err, arith, Bool-cases, Result-cases, ◌≢◌, ap, subst,
}
use truespec_agent.Prelude.Int.{ℤ, pos_part}
use truespec_agent.Retry.Loop.{
  RetryError, retry_cancelled, attempts_exceeded, retry_loop, retry_with_backoff,
}

module _ {E A : Type 0} (fn : ℕ → Result E A) (cancelled : ℕ → Bool) (delay : ℕ → ℤ) (max : ℤ) where
  -- From attempt `i` on, the next `n` attempts fail and no wait behind them is cancelled.
  abbrev pub FailsFor : ℕ → ℕ → Type 0
  FailsFor i zero = Unit
  FailsFor i (suc n) = ((e : E) × (fn i ≡ err e)) × (cancelled i ≡ false) × FailsFor (suc i) n

  -- The delays of the waits behind the attempts `i`, `i + 1`, and so on.
  abbrev pub delays : ℕ → ℕ → List ℤ
  delays i zero = []
  delays i (suc n) = delay i ∷ delays (suc i) n

  -- Attempt `k` settles the call: it succeeds, or it fails and the wait behind it is cancelled, or
  -- it fails and is the last one.
  abbrev pub Settles : ℕ → Result (RetryError E) A → Type 0
  Settles k r =
      ((a : A) × (fn k ≡ ok a) × (r ≡ ok a))
      ⊎ ((e : E) × (fn k ≡ err e)
          × (cancelled k ≡ true)
          × (suc k < pos_part max)
          × (r ≡ err retry_cancelled))
      ⊎ ((e : E) × (fn k ≡ err e)
          × (suc k ≡ pos_part max)
          × (r ≡ err (attempts_exceeded max (some e))))

  -- All attempts before some attempt fail and are waited for with their delays, and that attempt
  -- settles the call.
  abbrev pub RunsFrom : ℕ → ℕ → Result (RetryError E) A × List ℤ → Type 0
  RunsFrom i rest (r, waits) =
      (n : ℕ) × (n < rest) × FailsFor i n × (waits ≡ delays i n) × Settles (i + n) r

  settled_here :
      (i rest : ℕ) (r : Result (RetryError E) A) → Settles i r → RunsFrom i (suc rest) (r, [])
  settled_here i rest r s = (0, omega arith, tt, refl, subst (λ k. Settles k r) (omega arith) s)

  settled_later :
      (i rest : ℕ) (e : E) (out : Result (RetryError E) A × List ℤ)
      → fn i ≡ err e
      → cancelled i ≡ false
      → RunsFrom (suc i) rest out
      → RunsFrom i (suc rest) (out.0, delay i ∷ out.1)
  settled_later i rest e out failed waited (n, less, fails, waits, s) = (
    suc n,
    omega arith,
    ((e, failed), waited, fails),
    ap (◌∷◌ (delay i)) waits,
    subst (λ k. Settles k out.0) (omega arith) s,
  )

  module _ (rest i : ℕ) (last : Option E) where
    abbrev round : Result (RetryError E) A × List ℤ
    round = retry_loop fn cancelled delay max (suc rest) i last

    round_ok : (a : A) → fn i ≡ ok a → round ≡ (ok a, [])
    unfolding retry_loop
    round_ok a works = ground arith

    round_final :
        (e : E)
        → fn i ≡ err e
        → suc i ≡ pos_part max
        → round ≡ (err (attempts_exceeded max (some e)), [])
    unfolding retry_loop
    round_final e fails final = ground arith

    round_stop :
        (e : E)
        → fn i ≡ err e
        → suc i ≢ pos_part max
        → cancelled i ≡ true
        → round ≡ (err retry_cancelled, [])
    unfolding retry_loop
    round_stop e fails more stop = ground arith

    round_wait :
        (e : E)
        → fn i ≡ err e
        → suc i ≢ pos_part max
        → cancelled i ≡ false
        → round ≡ (
          (retry_loop fn cancelled delay max rest (suc i) (some e)).0,
          delay i ∷ (retry_loop fn cancelled delay max rest (suc i) (some e)).1,
        )
    unfolding retry_loop
    round_wait e fails more wait = ground arith

  round-RunsFrom :
      (rest i : ℕ) (last : Option E)
      → i + suc rest ≡ pos_part max
      → ((e : E)
          → suc i ≢ pos_part max
          → RunsFrom (suc i) rest (retry_loop fn cancelled delay max rest (suc i) (some e)))
      → RunsFrom i (suc rest) (round rest i last)
  round-RunsFrom rest i last total later = elim (Result-cases (fn i)) [
    | inl (a, works) ↦
        rw (round_ok rest i last a works) (settled_here i rest (ok a) (inl (a, works, refl)))
    | inr (e, fails) ↦ elim (ℕ_discrete (suc i) (pos_part max)) [
      | yes final ↦
          rw (round_final rest i last e fails final)
            (settled_here i rest _ (inr (inr (e, fails, final, refl))))
      | no more ↦ elim (Bool-cases (cancelled i)) [
        | inl stop ↦
            rw (round_stop rest i last e fails more stop)
              (settled_here i rest _ (inr (inl (e, fails, stop, omega arith, refl))))
        | inr wait ↦
            rw (round_wait rest i last e fails more wait)
              (settled_later i rest e _ fails wait (later e more))
      ]
    ]
  ]

  retry_loop-RunsFrom :
      (rest i : ℕ) (last : Option E)
      → i + suc rest ≡ pos_part max
      → RunsFrom i (suc rest) (round rest i last)
  retry_loop-RunsFrom zero i last total =
      round-RunsFrom zero i last total (λ e more. absurd (more (omega arith)))
  retry_loop-RunsFrom (suc rest) i last total =
      round-RunsFrom (suc rest) i last total
        (λ e more. retry_loop-RunsFrom rest (suc i) (some e) (omega arith))

  -- With a positive number of attempts the call always ends, after at most that many calls of the
  -- function: every attempt before the last one made fails and is waited for with its own delay, in
  -- order, and the last one made succeeds with the value returned, or its wait is cancelled, or it
  -- is the last allowed and its error is reported.
  pub retry_with_backoff-RunsFrom :
      0 < pos_part max → RunsFrom 0 (pos_part max) (retry_with_backoff fn cancelled delay max)
  unfolding retry_with_backoff
  retry_with_backoff-RunsFrom positive =
      let e : pos_part max ≡ suc (pos_part max - 1) = omega arith in
      subst (λ n. RunsFrom 0 n (retry_loop fn cancelled delay max n 0 none)) (sym e)
        (retry_loop-RunsFrom (pos_part max - 1) 0 none (omega arith))

  retry_loop_succeeds :
      (n rest i : ℕ) (last : Option E) {a : A}
      → i + suc rest ≡ pos_part max
      → n < suc rest
      → FailsFor i n
      → fn (i + n) ≡ ok a
      → round rest i last ≡ (ok a, delays i n)
  retry_loop_succeeds zero rest i last total less fails works =
      round_ok rest i last _ (ap fn (omega arith) ∙ works)
  retry_loop_succeeds (suc n) zero i last total less fails works = absurd (omega arith)
  retry_loop_succeeds (suc n) (suc rest) i last total less ((e, failed), waited, fails) works = rw (
    round_wait (suc rest) i last e failed (omega arith) waited,
    retry_loop_succeeds n rest (suc i) (some e) (omega arith) (omega arith) fails
        (ap fn (omega arith) ∙ works),
  )

  -- If the first `n` attempts fail, none of their waits is cancelled, and the next attempt is
  -- allowed and succeeds, then the call succeeds with that attempt's value, after exactly the
  -- delays of the attempts that failed.
  pub retry_with_backoff_succeeds :
      (n : ℕ) {a : A}
      → n < pos_part max
      → FailsFor 0 n
      → fn n ≡ ok a
      → retry_with_backoff fn cancelled delay max ≡ (ok a, delays 0 n)
  unfolding retry_with_backoff
  retry_with_backoff_succeeds n {a} less fails works =
      let e : pos_part max ≡ suc (pos_part max - 1) = omega arith in
      subst (λ k. retry_loop fn cancelled delay max k 0 none ≡ (ok a, delays 0 n)) (sym e)
        (retry_loop_succeeds n (pos_part max - 1) 0 none (omega arith) (omega arith) fails
          (ap fn (omega arith) ∙ works))
