-- ===== src/Sender/Drain.antt =====
-- `flushBuffer` (internal/sender/sender.go): what is sent from the buffer, and when it is cleared.
use truespec_agent.Prelude.{
  ◌≡◌, ◌⊎◌, inl, inr, refl, sym, ap, subst, ◌∙◌, Bool, true, false, Option, none, some, List, [],
  ◌∷◌, ◌++◌, ok, err, arith, In, In-append_left, Result-cases, Option-cases, if◌then◌else◌,
}
use mathlib.Core.List.{append-nil, append_assoc}
use truespec_agent.Buffer.{Bytes, read_all, clear}
use truespec_agent.Buffer.Contents.{contents, read_all-eq-contents}
use truespec_agent.Sender.Defs.{TelemetryBatch, Codec, Env, Sender, AttemptError}
use truespec_agent.Sender.Ops.{send_batch, flush_batches, flush_stored, flush_buffer}
use truespec_agent.Sender.Attempts.{Tries, send_batch-Tries}

module _ {D : Type 0} (codec : Codec D) where
  -- The batches that stored files hold; a file that cannot be decoded holds none.
  abbrev pub decoded : List Bytes → List (TelemetryBatch D)
  decoded [] = []
  decoded (bytes ∷ rest) = elim (codec.unmarshal bytes) [
    | none ↦ decoded rest
    | some batch ↦ batch ∷ decoded rest
  ]

  decoded_skip :
      (bytes : Bytes) (rest : List Bytes)
      → codec.unmarshal bytes ≡ none
      → decoded (bytes ∷ rest) ≡ decoded rest
  decoded_skip bytes rest damaged = ground arith

  pub decoded_send :
      (bytes : Bytes) (rest : List Bytes) {batch : TelemetryBatch D}
      → codec.unmarshal bytes ≡ some batch
      → decoded (bytes ∷ rest) ≡ batch ∷ decoded rest
  decoded_send bytes rest decodes = ground arith

module _ {D : Type 0} (codec : Codec D) (env : Env D) where
  -- What the loop over stored files has done, by whether it ran to the end: if so, the server has
  -- accepted all batches that the files hold, in their order; if not, it has accepted some batches.
  abbrev pub Drains : List Bytes → Sender D → Bool × Sender D → Type 0
  Drains files s (true, s') =
      (s'.queue ≡ s.queue)
      × (s'.buffer ≡ s.buffer)
      × (s'.accepted ≡ s.accepted ++ decoded codec files)
  Drains files s (false, s') =
      (s'.queue ≡ s.queue)
      × (s'.buffer ≡ s.buffer)
      × ((sent : List (TelemetryBatch D)) × (s'.accepted ≡ s.accepted ++ sent))

  drain_step :
      (bytes : Bytes) (rest : List Bytes) {batch : TelemetryBatch D} (s : Sender D)
      (e : Option AttemptError) (s' : Sender D) (later : Bool × Sender D)
      → codec.unmarshal bytes ≡ some batch
      → Tries 1 batch s e s'
      → Drains rest s' later
      → Drains (bytes ∷ rest) s (elim e [ none ↦ later | some _ ↦ (false, s') ])
  drain_step bytes rest s (some _) s' later decodes t d =
      (t.queue, t.buffer, ([], t.accepted ∙ sym (append-nil s.accepted)))
  drain_step bytes rest {batch} s none s' (true, s'') decodes t (q, b, a) = (
    q ∙ t.queue,
    b ∙ t.buffer,
    rw (decoded_send codec bytes rest decodes) (
        a
        ∙ ap (λ l. l ++ decoded codec rest) t.accepted
        ∙ append_assoc s.accepted (batch ∷ []) (decoded codec rest)),
  )
  drain_step bytes rest {batch} s none s' (false, s'') decodes t (q, b, (sent, a)) = (
    q ∙ t.queue,
    b ∙ t.buffer,
    (batch ∷ sent, a ∙ ap (λ l. l ++ sent) t.accepted ∙ append_assoc s.accepted (batch ∷ []) sent),
  )

  flush_batches_damaged :
      (bytes : Bytes) (rest : List Bytes) (s : Sender D) (out : Bool × Sender D)
      → codec.unmarshal bytes ≡ none
      → Drains rest s out
      → Drains (bytes ∷ rest) s out
  flush_batches_damaged bytes rest s (true, s') damaged (q, b, a) =
      (q, b, rw (decoded_skip codec bytes rest damaged) a)
  flush_batches_damaged bytes rest s (false, s') damaged (q, b, a) = (q, b, a)

  flush_skip :
      (bytes : Bytes) (rest : List Bytes) (s : Sender D)
      → codec.unmarshal bytes ≡ none
      → flush_batches codec env (bytes ∷ rest) s ≡ flush_batches codec env rest s
  unfolding flush_batches
  flush_skip bytes rest s damaged = ground arith

  flush_send :
      (bytes : Bytes) (rest : List Bytes) (s : Sender D) (batch : TelemetryBatch D)
      → codec.unmarshal bytes ≡ some batch
      → let (e, s') = send_batch codec env batch s in
        flush_batches codec env (bytes ∷ rest) s
        ≡ elim e [ none ↦ flush_batches codec env rest s' | some _ ↦ (false, s') ]
  unfolding flush_batches
  flush_send bytes rest s batch decodes = ground arith

  flush_batches-Drains :
      (files : List Bytes) (s : Sender D) → Drains files s (flush_batches codec env files s)
  unfolding flush_batches
  flush_batches-Drains [] s = (refl, refl, sym (append-nil s.accepted))
  flush_batches-Drains (bytes ∷ rest) s = elim (Option-cases (codec.unmarshal bytes)) [
    | inl damaged ↦
        subst (λ out. Drains (bytes ∷ rest) s out) (sym (flush_skip bytes rest s damaged))
          (flush_batches_damaged bytes rest s _ damaged (flush_batches-Drains rest s))
    | inr (batch, decodes) ↦
        let (e, s') = send_batch codec env batch s in
        subst (λ out. Drains (bytes ∷ rest) s out) (sym (flush_send bytes rest s batch decodes))
          (drain_step bytes rest s e s' (flush_batches codec env rest s') decodes
            (send_batch-Tries codec env batch s) (flush_batches-Drains rest s'))
  ]

  -- What `flushBuffer` has done. Either the buffer is as it was, and the server has accepted some
  -- more batches; or the server has accepted every batch that the readable files hold, in their
  -- order, and the buffer has been cleared.
  abbrev pub FlushesBuffer : Sender D → Sender D → Type 0
  FlushesBuffer s s' =
      (s'.queue ≡ s.queue)
      × (((s'.buffer ≡ s.buffer)
            × ((sent : List (TelemetryBatch D)) × (s'.accepted ≡ s.accepted ++ sent)))
          ⊎ ((s'.buffer ≡ (clear env.os s.buffer).1)
              × (s'.accepted ≡ s.accepted ++ decoded codec (contents env.os s.buffer))))

  clears_after :
      (files : List Bytes) (s : Sender D) (out : Bool × Sender D)
      → files ≡ contents env.os s.buffer
      → Drains files s out
      → FlushesBuffer s
          (if out.0 then record (out.1) { buffer = (clear env.os (out.1).buffer).1 } else out.1)
  clears_after files s (true, s') e (q, b, a) =
      (q, inr (ap (λ buf. (clear env.os buf).1) b, rw (← e) a))
  clears_after files s (false, s') e (q, b, a) = (q, inl (b, a))

  flush_stored-FlushesBuffer :
      (files : List Bytes) (s : Sender D)
      → files ≡ contents env.os s.buffer
      → FlushesBuffer s (flush_stored codec env files s)
  unfolding flush_stored
  flush_stored-FlushesBuffer [] s e = (refl, inl (refl, ([], sym (append-nil s.accepted))))
  flush_stored-FlushesBuffer (bytes ∷ rest) s e =
      clears_after (bytes ∷ rest) s (flush_batches codec env (bytes ∷ rest) s) e
        (flush_batches-Drains (bytes ∷ rest) s)

  -- `flushBuffer` leaves the queue alone, and clears the buffer only after the server has accepted
  -- every batch that could be read from it and decoded.
  pub flush_buffer-FlushesBuffer : (s : Sender D) → FlushesBuffer s (flush_buffer codec env s)
  unfolding flush_buffer
  flush_buffer-FlushesBuffer s = elim (Result-cases (read_all env.os s.buffer)) [
    | inl (files, found) ↦
        subst (λ r. FlushesBuffer s (elim r [ err _ ↦ s | ok b ↦ flush_stored codec env b s ]))
          (sym found)
          (flush_stored-FlushesBuffer files s (read_all-eq-contents env.os s.buffer found))
    | inr (e, failed) ↦
        subst (λ r. FlushesBuffer s (elim r [ err _ ↦ s | ok b ↦ flush_stored codec env b s ]))
          (sym failed) (refl, inl (refl, ([], sym (append-nil s.accepted))))
  ]

  pub FlushesBuffer-accepted :
      (b : TelemetryBatch D) (s s' : Sender D)
      → FlushesBuffer s s'
      → In b s.accepted
      → In b s'.accepted
  FlushesBuffer-accepted b s s' (q, inl (_, (sent, a))) m =
      rw a (In-append_left b s.accepted sent m)
  FlushesBuffer-accepted b s s' (q, inr (_, a)) m = rw a (In-append_left b s.accepted _ m)
