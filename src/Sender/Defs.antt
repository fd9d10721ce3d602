-- ===== src/Sender/Defs.antt =====
-- The data of internal/sender/sender.go. `D` stands for a datum, a JSON object of a collector.
use truespec_agent.Prelude.{ℕ, Bool, Option, List, String}
use truespec_agent.Prelude.Int.{ℤ}
use truespec_agent.Buffer.{Bytes, Os, Buffer, BufferError}

pub record TelemetryBatch (D : Type 0) : Type 0 where
  pub agent_id : String
  pub timestamp : ℕ
  -- the field `Data`
  pub items : List D

-- `json.Marshal` and `json.Unmarshal` at `TelemetryBatch`; `none` is an error.
pub record Codec (D : Type 0) : Type 0 where
  pub marshal : TelemetryBatch D → Option Bytes
  pub unmarshal : Bytes → Option (TelemetryBatch D)

pub data Reply : Type 0 where
  no_reply : Reply
  status : ℕ → Reply

-- What one call meets: the clock, the server's answer to each request by its number, whether a
-- request can be created, which branch the `select` before each attempt takes, and the
-- operating system under the buffer.
pub record Env (D : Type 0) : Type 0 where
  pub now : ℕ
  pub server : ℕ → TelemetryBatch D → Reply
  pub request_fails : Bool
  pub cancelled : ℕ → Bool
  pub os : Os

-- The fields that the operations read or change. `requests` counts the requests made, and
-- `accepted` lists the batches that the server has answered with 200 or 201.
pub record Sender (D : Type 0) : Type 0 where
  pub agent_id : String
  pub batch_size : ℤ
  pub queue : List (TelemetryBatch D)
  pub buffer : Buffer
  pub requests : ℕ
  pub accepted : List (TelemetryBatch D)

-- The errors of one attempt.
pub data AttemptError : Type 0 where
  marshal_error create_error http_error : AttemptError
  bad_status : ℕ → AttemptError

pub data SendError : Type 0 where
  context_error : SendError
  all_attempts_failed : Option AttemptError → SendError
  buffer_error : BufferError → SendError
