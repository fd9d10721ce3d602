-- ===== src/Sender/Queue.antt =====
-- `Send` (internal/sender/sender.go): queueing, and the flush at the batch size.
use truespec_agent.Prelude.{
  ◌+◌, ◌≡◌, ◌⊎◌, inl, inr, refl, none, List, [], ◌∷◌, ◌++◌, arith, length, In, In-append_left,
  In-append_right, Bool-cases, length-append,
}
use truespec_agent.Prelude.Int.{pos, ◌≤ℤ◌, ◌<ℤ◌, leb_ℤ}
use truespec_agent.Sender.Defs.{TelemetryBatch, Codec, Env, Sender}
use truespec_agent.Sender.Ops.{queued_items, send}
use truespec_agent.Sender.Flush.{Flushes, flush-Flushes}

module _ {D : Type 0} (codec : Codec D) (env : Env D) where
  -- The state with the datum queued as a batch of its own, behind the batches that wait.
  abbrev pub queue_item : D → Sender D → Sender D
  queue_item item s = record s {
    queue =
        s.queue ++ (record { agent_id = s.agent_id; timestamp = env.now; items = item ∷ [] } ∷ []);
  }

  In-queued_items :
      (item : D) (q : List (TelemetryBatch D)) (batch : TelemetryBatch D)
      → In item batch.items
      → In item (queued_items (q ++ (batch ∷ [])))
  In-queued_items item [] batch m = In-append_left item batch.items [] m
  In-queued_items item (b ∷ q) batch m =
      In-append_right item b.items _ (In-queued_items item q batch m)

  length-queue_item :
      (item : D) (s : Sender D) → length (queue_item item s).queue ≡ length s.queue + 1
  length-queue_item item s = length-append s.queue _

  -- `Send` queues the datum. Below the batch size it does nothing else; from the batch size on it
  -- flushes the queue, the datum included, and what `flush` guarantees holds.
  pub send-Flushes :
      (item : D) (s : Sender D)
      → In item (queued_items (queue_item item s).queue)
        × (((pos (length s.queue + 1) <ℤ s.batch_size)
              × (send codec env item s ≡ (none, queue_item item s)))
            ⊎ ((s.batch_size ≤ℤ pos (length s.queue + 1))
                × Flushes codec env (queue_item item s) (send codec env item s)))
  unfolding send
  send-Flushes item s = (
    In-queued_items item s.queue _ (inl refl),
    elim (Bool-cases (leb_ℤ s.batch_size (pos (length (queue_item item s).queue)))) [
      | inl reached ↦ inr (
        ground (arith, length-queue_item item s),
        rw reached (flush-Flushes codec env (queue_item item s)),
      )
      | inr short ↦ inl (ground (arith, length-queue_item item s), rw short)
    ],
  )
