-- ===== src/Sender/Flush.antt =====
-- `flush` and `Send` (internal/sender/sender.go): no queued datum is lost, and some are sent twice.
use truespec_agent.Prelude.{
  ℕ, ◌≡◌, ◌≢◌, ◌⊎◌, inl, inr, refl, sym, ap, subst, ◌∙◌, Option, none, some, List, [], ◌∷◌, ◌++◌,
  Result, ok, err, arith, In, In-append_right, Option-cases,
}
use truespec_agent.Buffer.{Buffer, BufferError, write}
use mathlib.Core.Path.{ap₂}
use truespec_agent.Buffer.Contents.{contents}
use truespec_agent.Sender.Defs.{TelemetryBatch, Codec, Env, Sender, SendError, buffer_error}
use truespec_agent.Sender.Ops.{queued_items, combine, send_with_retry, flush_buffer, flush}
use truespec_agent.Sender.Attempts.{Tries, accepted_after, send_with_retry-Tries}
use truespec_agent.Sender.Drain.{
  FlushesBuffer, FlushesBuffer-accepted, decoded, flush_buffer-FlushesBuffer,
}

module _ {D : Type 0} (codec : Codec D) (env : Env D) where
  abbrev pub attempt : Sender D → Option SendError × Sender D × List ℕ
  attempt s = send_with_retry codec env (combine env s) s

  -- What `flush` answers and leaves, where the queue is not empty, by the way the attempts end.
  flush_delivered :
      (s : Sender D)
      → s.queue ≢ []
      → (attempt s).0 ≡ none
      → flush codec env s ≡ (none, flush_buffer codec env (record (attempt s).1 { queue = [] }))
  unfolding flush
  flush_delivered s queued sent = ground arith

  abbrev stored : Sender D → Result BufferError (Unit {0}) × Buffer
  stored s = write env.os (codec.marshal (combine env s)) (attempt s).1.buffer

  abbrev flush_error : SendError → Result BufferError (Unit {0}) → SendError
  flush_error e (ok _) = e
  flush_error e (err reason) = buffer_error reason

  flush_failed :
      (s : Sender D) (e : SendError)
      → s.queue ≢ []
      → (attempt s).0 ≡ some e
      → flush codec env s
        ≡ (some (flush_error e (stored s).0), record (attempt s).1 { buffer = (stored s).1 })
  unfolding flush
  flush_failed s e queued failed = ground arith

  -- The data of some batches, in order.
  abbrev pub data_of : List (TelemetryBatch D) → List D
  data_of [] = []
  data_of (b ∷ bs) = b.items ++ data_of bs

  queued_items-data_of : (bs : List (TelemetryBatch D)) → queued_items bs ≡ data_of bs
  queued_items-data_of [] = refl
  queued_items-data_of (b ∷ bs) = ap (λ ds. b.items ++ ds) (queued_items-data_of bs)

  -- What becomes of the queue. With no error, it was empty and nothing has happened, or it is empty
  -- now and the server has accepted a batch whose data are those of all its batches, in order. With an error it is as it
  -- was, and the server has accepted nothing.
  abbrev pub Flushes : Sender D → Option SendError × Sender D → Type 0
  Flushes s (none, s') =
      ((s.queue ≡ []) × (s' ≡ s))
      ⊎ ((s'.queue ≡ [])
          × In (combine env s) s'.accepted
          × ((combine env s).items ≡ data_of s.queue))
  Flushes s (some _, s') = (s'.queue ≡ s.queue) × (s'.accepted ≡ s.accepted)

  flush_empty : (s : Sender D) → s.queue ≡ [] → flush codec env s ≡ (none, s)
  unfolding flush
  flush_empty s empty = ground arith

  combine-items : (s : Sender D) → (combine env s).items ≡ data_of s.queue
  unfolding combine
  combine-items s = queued_items-data_of s.queue

  attempt-accepted :
      (s : Sender D)
      → (attempt s).0 ≡ none
      → (attempt s).1.accepted ≡ s.accepted ++ (combine env s ∷ [])
  attempt-accepted s sent =
      (send_with_retry-Tries codec env (combine env s) s).0.accepted
      ∙ ap (λ e. accepted_after e (combine env s) s) sent

  delivered-Flushes :
      (s : Sender D)
      → (attempt s).0 ≡ none
      → Flushes s (none, flush_buffer codec env (record (attempt s).1 { queue = [] }))
  delivered-Flushes s sent =
      let emptied : Sender D = record (attempt s).1 { queue = [] } in
      let drained = flush_buffer-FlushesBuffer codec env emptied in
      let taken : In (combine env s) emptied.accepted =
        rw (attempt-accepted s sent) (In-append_right (combine env s) s.accepted _ (inl refl)) in
      inr (
        drained.0,
        FlushesBuffer-accepted codec env (combine env s) emptied (flush_buffer codec env emptied)
            drained taken,
        combine-items s,
      )

  -- `flush` loses no queued datum. Without an error, the queue was empty and nothing has happened, or
  -- it is empty now and the server has accepted a batch with the data of all its batches, in order.
  -- With an error the queue is as it was, and the server has accepted nothing.
  pub flush-Flushes : (s : Sender D) → Flushes s (flush codec env s)
  flush-Flushes s = by_queue s.queue refl
    where
      by_error :
          s.queue ≢ [] → (e : Option SendError) → (attempt s).0 ≡ e → Flushes s (flush codec env s)
      by_error queued none sent =
          subst (Flushes s) (sym (flush_delivered s queued sent)) (delivered-Flushes s sent)
      by_error queued (some e) failed =
          subst (Flushes s) (sym (flush_failed s e queued failed))
            (tries.queue, tries.accepted ∙ ap (λ r. accepted_after r (combine env s) s) failed)
        where
          tries : Tries 5 (combine env s) s (attempt s).0 (attempt s).1
          tries = (send_with_retry-Tries codec env (combine env s) s).0

      by_queue : (q : List (TelemetryBatch D)) → s.queue ≡ q → Flushes s (flush codec env s)
      by_queue [] empty = subst (Flushes s) (sym (flush_empty s empty)) (inl (empty, refl))
      by_queue (b ∷ q) full = by_error (λ empty. cc) (attempt s).0 refl

  pub flush_failed_keeps :
      (s : Sender D) (e : SendError)
      → s.queue ≢ []
      → (attempt s).0 ≡ some e
      → let s' = (flush codec env s).1 in
        (s'.queue ≡ s.queue) × (s'.accepted ≡ s.accepted) × (s'.agent_id ≡ s.agent_id)
  flush_failed_keeps s e queued failed =
      let tries : Tries 5 (combine env s) s (attempt s).0 (attempt s).1 =
        (send_with_retry-Tries codec env (combine env s) s).0 in
      rw (flush_failed s e queued failed) (
        tries.queue,
        tries.accepted ∙ ap (λ r. accepted_after r (combine env s) s) failed,
        tries.agent_id,
      )

  -- A failed `flush` whose batch could be stored has put that batch into the buffer too.
  pub flush_stores :
      (s : Sender D) (e : SendError)
      → s.queue ≢ []
      → (attempt s).0 ≡ some e
      → (flush codec env s).1.buffer ≡ (write env.os (codec.marshal (combine env s)) s.buffer).1
  flush_stores s e queued failed =
      let tries : Tries 5 (combine env s) s (attempt s).0 (attempt s).1 =
        (send_with_retry-Tries codec env (combine env s) s).0 in
      rw (flush_failed s e queued failed, tries.buffer)

  -- What the server has accepted after `flushBuffer` has cleared a buffer.
  cleared-accepted :
      (s s' : Sender D)
      → FlushesBuffer codec env s s'
      → s'.buffer ≢ s.buffer
      → s'.accepted ≡ s.accepted ++ decoded codec (contents env.os s.buffer)
  cleared-accepted s s' (q, inl (same, _)) cleared = absurd (cleared same)
  cleared-accepted s s' (q, inr (_, a)) cleared = a

  delivered_of_none :
      (s : Sender D) → s.queue ≢ [] → (flush codec env s).0 ≡ none → (attempt s).0 ≡ none
  delivered_of_none s queued works = elim (Option-cases (attempt s).0) [
    | inl sent ↦ sent
    | inr (e, failed) ↦ cc (flush_failed s e queued failed)
  ]

  -- A `flush` of some batches that succeeds and changes the buffer has the server accept the batch
  -- of the queue, and after it every batch that could be read from the buffer and decoded.
  pub flush_accepts :
      (s : Sender D)
      → s.queue ≢ []
      → (flush codec env s).0 ≡ none
      → (flush codec env s).1.buffer ≢ s.buffer
      → (flush codec env s).1.accepted
        ≡ (s.accepted ++ (combine env s ∷ [])) ++ decoded codec (contents env.os s.buffer)
  flush_accepts s queued works cleared =
      let sent = delivered_of_none s queued works in
      let emptied : Sender D = record (attempt s).1 { queue = [] } in
      let same : emptied.buffer ≡ s.buffer =
        (send_with_retry-Tries codec env (combine env s) s).0.buffer in
      let changed : (flush_buffer codec env emptied).buffer ≢ emptied.buffer =
        λ e. cleared (ap (λ r. r.1.buffer) (flush_delivered s queued sent) ∙ e ∙ same) in
      ap (λ r. r.1.accepted) (flush_delivered s queued sent)
      ∙ cleared-accepted emptied (flush_buffer codec env emptied)
          (flush_buffer-FlushesBuffer codec env emptied) changed
      ∙ ap₂ (λ a b. a ++ decoded codec (contents env.os b)) (attempt-accepted s sent) same
