-- ===== src/Sender/Attempts.antt =====
-- What the attempts of `sendWithRetry` (internal/sender/sender.go) do, and how long they wait.
use truespec_agent.Prelude.{
  second, ℕ, zero, suc, ◌+◌, ◌*◌, ◌<◌, ◌≤◌, ◌≡◌, ◌⊎◌, inl, inr, false, Option, none, some, List, [],
  ◌∷◌, ◌++◌, arith, length, true, ltb, ◌&&◌, if◌then◌else◌, subst,
}
use truespec_agent.Buffer.{Bytes}
use truespec_agent.Sender.Defs.{
  TelemetryBatch, Codec, status, Env, Sender, AttemptError, SendError, context_error,
  all_attempts_failed, buffer_error,
}
use truespec_agent.Sender.Ops.{retry_delay, send_batch, send_attempts, send_with_retry}

module _ {D : Type 0} where
  -- The batches that the server has accepted after a try to send `batch`, by the error of the try.
  abbrev pub accepted_after {ℓ} :
      {E : Type ℓ} → Option E → TelemetryBatch D → Sender D → List (TelemetryBatch D)
  accepted_after none batch s = s.accepted ++ (batch ∷ [])
  accepted_after (some _) batch s = s.accepted

  -- A try to send `batch` that made `n` requests at most: it touches neither the queue nor the
  -- buffer, and the server has accepted the batch once if there is no error, and nothing if there is.
  pub record Tries {ℓ} {E : Type ℓ} (n : ℕ) (batch : TelemetryBatch D) (s : Sender D) (e : Option E)
      (s' : Sender D) : Type 0 where
    pub queue : s'.queue ≡ s.queue
    pub buffer : s'.buffer ≡ s.buffer
    pub agent_id : s'.agent_id ≡ s.agent_id
    pub batch_size : s'.batch_size ≡ s.batch_size
    pub requests : s'.requests ≤ s.requests + n
    pub accepted : s'.accepted ≡ accepted_after e batch s

-- `xs` is how `ys` begins.
abbrev pub IsPrefixOf : List ℕ → List ℕ → Type 0
IsPrefixOf [] ys = Unit
IsPrefixOf (x ∷ xs) [] = ⊥
IsPrefixOf (x ∷ xs) (y ∷ ys) = (x ≡ y) × IsPrefixOf xs ys

-- The delays before the attempts from `attempt` on, `rest` in number. The first has none.
abbrev pub delays_before : ℕ → ℕ → List ℕ
delays_before attempt zero = []
delays_before attempt (suc rest) =
    (if ltb 0 attempt then retry_delay attempt ∷ [] else []) ++ delays_before (suc attempt) rest

module _ {D : Type 0} (codec : Codec D) (env : Env D) where
  pub send_batch-Tries :
      (batch : TelemetryBatch D) (s : Sender D)
      → Tries 1 batch s (send_batch codec env batch s).0 (send_batch codec env batch s).1
  unfolding send_batch
  send_batch-Tries batch s = ground arith

  send_attempts-Tries :
      (rest attempt : ℕ) (last : Option AttemptError) (batch : TelemetryBatch D) (s : Sender D)
      → let (e, s', _) = send_attempts codec env rest attempt last batch s in
        Tries rest batch s e s'
  unfolding send_attempts
  send_attempts-Tries zero attempt last batch s = ground arith
  send_attempts-Tries (suc rest) attempt last batch s =
      let (e, s') = send_batch codec env batch s in
      ground (arith, send_batch-Tries batch s, send_attempts-Tries rest (suc attempt) e batch s')

  send_attempts-IsPrefixOf :
      (rest attempt : ℕ) (last : Option AttemptError) (batch : TelemetryBatch D) (s : Sender D)
      → IsPrefixOf
          (send_attempts codec env rest attempt last batch s).2
          (delays_before attempt rest)
  unfolding send_attempts
  send_attempts-IsPrefixOf zero attempt last batch s = tt
  send_attempts-IsPrefixOf (suc rest) attempt last batch s =
      let (e, s') = send_batch codec env batch s in
      ground (arith, send_attempts-IsPrefixOf rest (suc attempt) e batch s')

  -- What the waits before the attempts from `suc attempt` on tell of `rest` of them: each request
  -- has a wait before it, and the loop ends early with no error, or where the context is cancelled.
  abbrev pub Paces : ℕ → ℕ → Sender D → Option SendError × Sender D × List ℕ → Type 0
  Paces rest attempt s (e, s', waits) = (s'.requests ≤ s.requests + length waits) × elim e [
    | none ↦ 0 < length waits
    | some context_error ↦ env.cancelled (suc attempt + length waits) ≡ true
    | some (all_attempts_failed _) ↦ length waits ≡ rest
    | some (buffer_error _) ↦ ⊥
  ]

  send_attempts-Paces :
      (rest attempt : ℕ) (last : Option AttemptError) (batch : TelemetryBatch D) (s : Sender D)
      → Paces rest attempt s (send_attempts codec env rest (suc attempt) last batch s)
  unfolding send_attempts
  send_attempts-Paces zero attempt last batch s = (omega arith, λ i. 0)
  send_attempts-Paces (suc rest) attempt last batch s =
      let (e, s') = send_batch codec env batch s in
      ground (
        arith,
        (send_batch-Tries batch s).requests,
        send_attempts-Paces rest (suc attempt) e batch s',
      )

  -- The waits of `sendWithRetry`. There is one before each request but the first; all four are
  -- waited for if all attempts fail, and the wait that the end of the context cuts short is the
  -- next one.
  abbrev pub Waits : Sender D → Option SendError × Sender D × List ℕ → Type 0
  Waits s (e, s', waits) =
      IsPrefixOf waits (second ∷ (2 * second) ∷ (4 * second) ∷ (8 * second) ∷ [])
      × (s'.requests ≤ s.requests + suc (length waits))
      × elim e [
        | none ↦ Unit
        | some context_error ↦ env.cancelled (suc (length waits)) ≡ true
        | some (all_attempts_failed _) ↦ length waits ≡ 4
        | some (buffer_error _) ↦ ⊥
      ]

  send_with_retry-Waits :
      (batch : TelemetryBatch D) (s : Sender D) → Waits s (send_with_retry codec env batch s)
  unfolding send_with_retry send_attempts
  send_with_retry-Waits batch s =
      let (e, s') = send_batch codec env batch s in
      ground (
        arith,
        (send_batch-Tries batch s).requests,
        send_attempts-IsPrefixOf 5 0 none batch s,
        send_attempts-Paces 4 0 e batch s',
      )

  -- `sendWithRetry` makes five requests at most and touches neither the queue nor the buffer; the
  -- server has accepted the batch exactly once if there is no error, and nothing if there is one.
  -- The waits are 1, 2, 4 and 8 seconds, in this order: at least one less than the requests, all
  -- four if all attempts fail, and if the context ends, those before the wait in which it does.
  pub send_with_retry-Tries :
      (batch : TelemetryBatch D) (s : Sender D)
      → let (e, s', waits) = send_with_retry codec env batch s in
        Tries 5 batch s e s' × Waits s (e, s', waits)
  unfolding send_with_retry
  send_with_retry-Tries batch s =
      (send_attempts-Tries 5 0 none batch s, send_with_retry-Waits batch s)

  -- No `select` before the attempts from `attempt` on, `n` in number, takes the branch of the
  -- cancelled context; before the first attempt there is none.
  abbrev pub IsUncancelled : ℕ → ℕ → Type 0
  IsUncancelled attempt zero = Unit
  IsUncancelled attempt (suc n) =
      ((ltb 0 attempt && env.cancelled attempt) ≡ false) × IsUncancelled (suc attempt) n

  abbrev pub Accepts : ℕ → TelemetryBatch D → Type 0
  Accepts n batch = (env.server n batch ≡ status 200) ⊎ (env.server n batch ≡ status 201)

  send_batch_accepted :
      (batch : TelemetryBatch D) (s : Sender D) {body : Bytes}
      → codec.marshal batch ≡ some body
      → env.request_fails ≡ false
      → Accepts s.requests batch
      → (send_batch codec env batch s).0 ≡ none
  unfolding send_batch
  send_batch_accepted batch s encoded created (inl answer) = ground arith
  send_batch_accepted batch s encoded created (inr answer) = ground arith

  send_batch-requests :
      (batch : TelemetryBatch D) (s : Sender D) {body : Bytes}
      → codec.marshal batch ≡ some body
      → env.request_fails ≡ false
      → (send_batch codec env batch s).1.requests ≡ suc s.requests
  unfolding send_batch
  send_batch-requests batch s encoded created = ground arith

  send_attempts_delivers :
      (k rest attempt : ℕ) (last : Option AttemptError) (batch : TelemetryBatch D) (s : Sender D)
      {body : Bytes}
      → k < rest
      → codec.marshal batch ≡ some body
      → env.request_fails ≡ false
      → IsUncancelled attempt (suc k)
      → Accepts (s.requests + k) batch
      → (send_attempts codec env rest attempt last batch s).0 ≡ none
  unfolding send_attempts
  send_attempts_delivers k zero attempt last batch s less encoded created runs answer =
      absurd (omega arith)
  send_attempts_delivers zero (suc rest) attempt last batch s less encoded created runs answer =
      let answered : Accepts s.requests batch = subst (λ n. Accepts n batch) (omega arith) answer in
      ground (arith, send_batch_accepted batch s encoded created answered)
  send_attempts_delivers (suc k) (suc rest) attempt last batch s less encoded created runs answer =
      let (e, s') = send_batch codec env batch s in
      let next = send_batch-requests batch s encoded created in
      let answered : Accepts (s'.requests + k) batch =
        subst (λ n. Accepts n batch) (omega (arith, next)) answer in
      ground (
        arith,
        send_attempts_delivers k rest (suc attempt) e batch s' (omega arith) encoded created runs.1
            answered,
      )

  -- If the batch can be marshalled and sent, and the server accepts one of the five requests that
  -- `sendWithRetry` would make, with no cancellation up to it, then there is no error.
  pub send_with_retry_delivers :
      (k : ℕ) (batch : TelemetryBatch D) (s : Sender D) {body : Bytes}
      → k < 5
      → codec.marshal batch ≡ some body
      → env.request_fails ≡ false
      → IsUncancelled 0 (suc k)
      → Accepts (s.requests + k) batch
      → (send_with_retry codec env batch s).0 ≡ none
  unfolding send_with_retry
  send_with_retry_delivers k batch s less encoded created runs answer =
      send_attempts_delivers k 5 0 none batch s less encoded created runs answer
