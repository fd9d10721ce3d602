-- ===== src/Audit/Appending.antt =====
-- The audit log only grows (internal/logging/audit.go).
use truespec_agent.Prelude.{◌≡◌, List, ◌++◌}
use truespec_agent.Buffer.{Bytes}
use truespec_agent.Host.{Host}
use truespec_agent.Logging.{content}
use truespec_agent.Audit.Defs.{AuditLogger}

-- The file has grown by these bytes.
abbrev pub Grows : AuditLogger → Host → Host → Bytes → Type 0
Grows a h h' part = content a.file_path h' ≡ content a.file_path h ++ part
