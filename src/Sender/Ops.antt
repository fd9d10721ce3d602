-- ===== src/Sender/Ops.antt =====
-- The operations of internal/sender/sender.go. `Send` and the ticks of `Start` run under the
-- sender's mutex, so each is one step from a state to the next.
use truespec_agent.Prelude.{
  second, ℕ, zero, suc, ◌-◌, ◌*◌, ◌^◌, Bool, true, false, ◌&&◌, ◌||◌, Option, none, some, List, [],
  ◌∷◌, ◌++◌, ok, err, length, ltb, ◌==◌, if◌then◌else◌,
}
use truespec_agent.Prelude.Int.{pos, leb_ℤ}
use truespec_agent.Buffer.{Bytes, write, read_all, clear}
use truespec_agent.Sender.Defs.{
  TelemetryBatch, Codec, no_reply, status, Env, Sender, AttemptError, marshal_error, create_error,
  http_error, bad_status, SendError, context_error, all_attempts_failed, buffer_error,
}

-- The delay before an attempt after the first: one second, doubled for each attempt since.
abbrev pub retry_delay : ℕ → ℕ
retry_delay attempt = second * 2 ^ (attempt - 1)

abbrev pub max_retries : ℕ
max_retries = 5

module _ {D : Type 0} where
  -- `combined.Data` after the loop over the queue.
  abbrev pub queued_items : List (TelemetryBatch D) → List D
  queued_items [] = []
  queued_items (batch ∷ queue) = batch.items ++ queued_items queue

  -- The batch that `flush` makes of the queue.
  unfoldable pub combine : Env D → Sender D → TelemetryBatch D
  combine env s = record {
    agent_id = s.agent_id;
    timestamp = env.now;
    items = queued_items s.queue;
  }

module _ {D : Type 0} (codec : Codec D) (env : Env D) where
  -- `sendBatch`
  unfoldable pub send_batch : TelemetryBatch D → Sender D → Option AttemptError × Sender D
  send_batch batch s = elim (codec.marshal batch) [
    | none ↦ (some marshal_error, s)
    | some body ↦
        let asked : Sender D = record s { requests = suc s.requests } in
        if env.request_fails then (some create_error, s) else elim (env.server s.requests batch) [
          | no_reply ↦ (some http_error, asked)
          | status code ↦
              if code == 200 || code == 201
              then (none, record asked { accepted = s.accepted ++ (batch ∷ []) })
              else (some (bad_status code), asked)
        ]
  ]

  -- The loop of `sendWithRetry`, with `rest` rounds to go. The delays waited for are listed.
  unfoldable pub send_attempts :
      ℕ
      → ℕ
      → Option AttemptError
      → TelemetryBatch D
      → Sender D
      → Option SendError × Sender D × List ℕ
  send_attempts zero attempt last batch s = (some (all_attempts_failed last), s, [])
  send_attempts (suc rest) attempt last batch s =
      let (e, s') = send_batch batch s in
      let later = send_attempts rest (suc attempt) e batch s' in
      let waited = if ltb 0 attempt then retry_delay attempt ∷ [] else [] in
      if ltb 0 attempt && env.cancelled attempt
      then (some context_error, s, [])
      else elim e [ none ↦ (none, s', waited) | some _ ↦ (later.0, later.1, waited ++ later.2) ]

  unfoldable pub send_with_retry :
      TelemetryBatch D → Sender D → Option SendError × Sender D × List ℕ
  unfolding send_attempts
  send_with_retry batch s = send_attempts max_retries 0 none batch s

  -- The loop of `flushBuffer`; true if it was not left early.
  unfoldable pub flush_batches : List Bytes → Sender D → Bool × Sender D
  flush_batches [] s = (true, s)
  flush_batches (bytes ∷ rest) s = elim (codec.unmarshal bytes) [
    | none ↦ flush_batches rest s
    | some batch ↦
        let (e, s') = send_batch batch s in
        let later = flush_batches rest s' in elim e [ none ↦ later | some _ ↦ (false, s') ]
  ]

  -- `flushBuffer`, once the buffer has been read.
  unfoldable pub flush_stored : List Bytes → Sender D → Sender D
  unfolding flush_batches
  flush_stored [] s = s
  flush_stored (bytes ∷ rest) s =
      let (finished, s') = flush_batches (bytes ∷ rest) s in
      if finished then record s' { buffer = (clear env.os s'.buffer).1 } else s'

  -- `flushBuffer`
  unfoldable pub flush_buffer : Sender D → Sender D
  unfolding flush_stored
  flush_buffer s = elim (read_all env.os s.buffer) [
    | err _ ↦ s
    | ok batches ↦ flush_stored batches s
  ]

  -- `flush`
  unfoldable pub flush : Sender D → Option SendError × Sender D
  unfolding combine flush_buffer send_with_retry
  flush s =
      let (e, sent, _) = send_with_retry (combine env s) s in
      let (stored, buffer) = write env.os (codec.marshal (combine env s)) sent.buffer in
      let kept : Sender D = record sent { buffer = buffer } in
      elim s.queue [
        | [] ↦ (none, s)
        | _ ∷ _ ↦ elim e [
          | none ↦ (none, flush_buffer (record sent { queue = [] }))
          | some failure ↦ elim stored [
            | ok _ ↦ (some failure, kept)
            | err reason ↦ (some (buffer_error reason), kept)
          ]
        ]
      ]

  -- `Send`
  unfoldable pub send : D → Sender D → Option SendError × Sender D
  unfolding flush
  send item s =
      let batch : TelemetryBatch D = record {
        agent_id = s.agent_id;
        timestamp = env.now;
        items = item ∷ [];
      } in
      let queued : Sender D = record s { queue = s.queue ++ (batch ∷ []) } in
      if leb_ℤ s.batch_size (pos (length queued.queue)) then flush queued else (none, queued)

  -- A tick of the goroutine of `Start`: the error is dropped.
  unfoldable pub tick : Sender D → Sender D
  unfolding flush
  tick s = (flush s).1
