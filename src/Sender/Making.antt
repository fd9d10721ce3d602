-- ===== src/Sender/Making.antt =====
-- `NewSender` in internal/sender/sender.go, and `NewUpdater` in internal/updater/updater.go.
use truespec_agent.Prelude.{none, some, List, [], Result, ok, err}
use truespec_agent.Buffer.{Os, Node, BufferError, new}
use truespec_agent.Host.{Host}
use truespec_agent.Config.{Config}
use truespec_agent.Identity.{Tls, Manager, IdentityError, get_http_client}
use truespec_agent.Sender.Defs.{Sender}

pub data MakingError : Type 0 where
  no_buffer : BufferError → MakingError
  no_client : IdentityError → MakingError

module _ {D : Type 0} where
  -- `NewSender`, where `disk` is what the buffer's directory holds already.
  unfoldable pub new_sender :
      Os → List Node → Tls → Host → Config → Manager → Result MakingError (Sender D)
  new_sender os disk tls h cfg identity = elim (new os cfg.buffer_dir cfg.max_buffer_size disk) [
    | err e ↦ err (no_buffer e)
    | ok buffer ↦ elim (get_http_client tls h identity) [
      | some e ↦ err (no_client e)
      | none ↦ ok (record {
        agent_id = identity.agent_id;
        batch_size = cfg.batch_size;
        queue = [];
        buffer = buffer;
        requests = 0;
        accepted = [];
      })
    ]
  ]
