-- ===== src/Sender/Duplicates.antt =====
-- `flush` and `Send` (internal/sender/sender.go) over several calls.
use truespec_agent.Prelude.{
  ◌≡◌, ◌≢◌, refl, sym, ap, ◌∙◌, false, none, some, [], ◌∷◌, ◌++◌, ok, arith,
}
use mathlib.Core.List.{append_assoc}
use truespec_agent.Buffer.{Bytes, Buffer, batch_name, write, read_files}
use truespec_agent.Buffer.Contents.{contents}
use truespec_agent.Sender.Defs.{Codec, Env, Sender, SendError}
use truespec_agent.Sender.Ops.{combine, flush}
use truespec_agent.Sender.Drain.{decoded_send}
use truespec_agent.Sender.Flush.{attempt, flush_stores, flush_accepts, flush_failed_keeps}

module _ {D : Type 0} (codec : Codec D) (first second : Env D) where
  write-contents :
      (bytes : Bytes) (b : Buffer)
      → b.disk ≡ []
      → (write first.os (some bytes) b).0 ≡ ok tt
      → second.os.read_fails (batch_name first.os.now) ≡ false
      → contents second.os (write first.os (some bytes) b).1 ≡ bytes ∷ []
  unfolding write read_files
  write-contents bytes b empty stored reads = ground arith

  combine_same :
      (s s' : Sender D)
      → s'.queue ≡ s.queue
      → s'.agent_id ≡ s.agent_id
      → combine second s' ≡ combine second s
  unfolding combine
  combine_same s s' queue agent = ground arith

  combine-items : (s : Sender D) → (combine second s).items ≡ (combine first s).items
  unfolding combine
  combine-items s = refl

  -- If `flush` fails and stores its batch in an empty buffer, and the next `flush` succeeds and
  -- then clears the buffer, the server has accepted the queued data twice: a batch of the queue,
  -- which was kept, and the batch that was stored, with the same data.
  pub flush_sends_twice :
      (s : Sender D) (e : SendError) (bytes : Bytes)
      → s.queue ≢ []
      → (attempt codec first s).0 ≡ some e
      → s.buffer.disk ≡ []
      → codec.marshal (combine first s) ≡ some bytes
      → codec.unmarshal bytes ≡ some (combine first s)
      → (write first.os (some bytes) s.buffer).0 ≡ ok tt
      → second.os.read_fails (batch_name first.os.now) ≡ false
      → let s' = (flush codec first s).1 in
        (flush codec second s').0 ≡ none
        → (flush codec second s').1.buffer ≢ s'.buffer
        → ((flush codec second s').1.accepted
            ≡ s.accepted ++ (combine second s ∷ combine first s ∷ []))
          × ((combine second s).items ≡ (combine first s).items)
  flush_sends_twice s e bytes queued failed empty encoded decodes stored reads works cleared =
      let s' : Sender D = (flush codec first s).1 in
      let (queue, accepted, agent) = flush_failed_keeps codec first s e queued failed in
      let kept : s'.buffer ≡ (write first.os (some bytes) s.buffer).1 =
        flush_stores codec first s e queued failed
        ∙ ap (λ m. (write first.os m s.buffer).1) encoded in
      let files : contents second.os s'.buffer ≡ bytes ∷ [] =
        ap (contents second.os) kept ∙ write-contents bytes s.buffer empty stored reads in
      let again =
        flush_accepts codec second s' (λ none_left. queued (sym queue ∙ none_left)) works cleared in
      (
        again
            ∙ rw
                (
                  files,
                  decoded_send codec bytes [] decodes,
                  accepted,
                  combine_same s s' queue agent,
                )
                (append_assoc s.accepted (combine second s ∷ []) (combine first s ∷ [])),
        combine-items s,
      )
