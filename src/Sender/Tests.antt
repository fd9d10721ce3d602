-- ===== src/Sender/Tests.antt =====
-- Runs of the sender (internal/sender/sender.go), and the theorems at concrete senders.
use truespec_agent.Prelude.{
  second, ℕ, ◌*◌, ◌≡◌, inr, false, some, none, [], ◌∷◌, refl, arith, ltb, if◌then◌else◌,
}
use truespec_agent.Prelude.Int.{pos, ◌+ℤ◌}
use truespec_agent.Prelude.Word.{wrap64}
use truespec_agent.Buffer.{done, file, write, read_all, clear, batch_name, decimal}
use truespec_agent.Sender.Defs.{
  TelemetryBatch, Codec, Reply, no_reply, status, Env, Sender, all_attempts_failed, http_error,
}
use truespec_agent.Sender.Ops.{combine, send_batch, send_with_retry, flush_buffer, flush}
use truespec_agent.Sender.Attempts.{Tries, Waits, send_with_retry-Tries, send_with_retry_delivers}
use truespec_agent.Sender.Drain.{FlushesBuffer, flush_buffer-FlushesBuffer}
use truespec_agent.Sender.Flush.{Flushes, flush-Flushes}
use truespec_agent.Sender.Duplicates.{flush_sends_twice}

-- A datum is a number, and all batches are of the agent a1.
abbrev plain : Codec ℕ
plain = record {
  marshal = λ b. some (b.timestamp ∷ b.items);
  unmarshal = λ bytes. elim bytes [
    | [] ↦ none
    | t ∷ items ↦ some (record { agent_id = "a1"; timestamp = t; items = items })
  ];
}

abbrev env_with : ℕ → (ℕ → Reply) → Env ℕ
env_with now answers = record {
  now = now;
  server = λ n batch. answers n;
  request_fails = false;
  cancelled = λ n. false;
  os = record {
    now = now;
    mtime = now;
    mkdir_fails = false;
    read_dir_fails = false;
    walk_fails = false;
    write = done;
    read_fails = λ k. false;
    info_fails = λ k. false;
    remove_fails = λ k. false;
  };
}

abbrev down : Env ℕ
down = env_with 5 (λ n. no_reply)

abbrev up : Env ℕ
up = env_with 8 (λ n. status 200)

-- The server answers from the request of number 2 on.
abbrev flaky : Env ℕ
flaky = env_with 9 (λ n. if ltb n 2 then status 503 else status 201)

abbrev one_queued : Sender ℕ
one_queued = record {
  agent_id = "a1";
  batch_size = pos 2;
  queue = record { agent_id = "a1"; timestamp = 1; items = 7 ∷ [] } ∷ [];
  buffer = record { dir = "/buffer"; max_size = pos 100; current_size = pos 0; disk = [] };
  requests = 0;
  accepted = [];
}

abbrev batch_of : ℕ → TelemetryBatch ℕ
batch_of t = record { agent_id = "a1"; timestamp = t; items = 7 ∷ [] }

retried : (send_with_retry plain flaky (batch_of 3) one_queued).2 ≡ second ∷ (2 * second) ∷ []
unfolding send_with_retry send_batch
retried = refl

-- The server is down, then up: it gets the datum 7 twice.
twice : (flush plain up (flush plain down one_queued).1).1.accepted ≡ batch_of 8 ∷ batch_of 5 ∷ []
unfolding flush send_batch write read_all clear batch_name decimal wrap64 ◌+ℤ◌
twice = refl

send_with_retry-Tries_example :
    let (e, s', waits) = send_with_retry plain flaky (batch_of 3) one_queued in
    Tries 5 (batch_of 3) one_queued e s' × Waits plain flaky one_queued (e, s', waits)
send_with_retry-Tries_example = send_with_retry-Tries plain flaky (batch_of 3) one_queued

send_with_retry_delivers_example : (send_with_retry plain flaky (batch_of 3) one_queued).0 ≡ none
send_with_retry_delivers_example =
    send_with_retry_delivers plain flaky 2 (batch_of 3) one_queued (omega arith) refl refl
      (refl, (refl, (refl, tt))) (inr refl)

abbrev one_stored : Sender ℕ
one_stored = record one_queued {
  buffer = record {
    dir = "/buffer";
    max_size = pos 100;
    current_size = pos 2;
    disk = file "batch_5.json" (5 ∷ 7 ∷ []) 5 ∷ [];
  };
}

flush_buffer-FlushesBuffer_example :
    FlushesBuffer plain up one_stored (flush_buffer plain up one_stored)
flush_buffer-FlushesBuffer_example = flush_buffer-FlushesBuffer plain up one_stored

flush-Flushes_example : Flushes plain down one_queued (flush plain down one_queued)
flush-Flushes_example = flush-Flushes plain down one_queued

abbrev failed_once : Sender ℕ
failed_once = (flush plain down one_queued).1

flush_sends_twice_example :
    ((flush plain up failed_once).1.accepted ≡ combine up one_queued ∷ combine down one_queued ∷ [])
    × ((combine up one_queued).items ≡ (combine down one_queued).items)
unfolding flush send_batch write read_all clear batch_name decimal wrap64 ◌+ℤ◌
flush_sends_twice_example =
    flush_sends_twice plain down up one_queued (all_attempts_failed (some http_error)) (5 ∷ 7 ∷ [])
      (λ e. cc) refl refl refl refl refl refl refl (λ e. cc)
