-- ===== src/Updater/Defs.antt =====
-- The updater's data, and the calls of package os that it makes (internal/updater/updater.go).
use truespec_agent.Prelude.{ℕ, Bool, true, false, Option, none, some, String, if◌then◌else◌}
use truespec_agent.Buffer.{Bytes}
use truespec_agent.Host.{Host, lookup, delete, move}

pub record UpdateMetadata : Type 0 where
  pub version : String
  pub release_date : String
  pub channel : String
  pub download_url : String
  pub checksum : String
  pub signature : String
  pub changelog : String
  pub mandatory : Bool

-- The updater: the two fields of it that requests are made of.
pub record Updater : Type 0 where
  pub api_base_url : String
  pub current_version : String

-- The body of a download: all of it, or what came before the connection broke.
pub data Body : Type 0 where
  whole broken : Bytes → Body

-- The server at an address: nothing, or a status and a body. A body of metadata may not decode.
pub record UpdateServer : Type 0 where
  pub create_fails : String → Bool
  pub metadata_at : String → Option (ℕ × Option UpdateMetadata)
  pub binary_at : String → Option (ℕ × Body)

-- The platform: `runtime.GOOS` and `GOARCH`, the path of the executable or an error, the directory
-- for temporary files, `filepath.Join`, SHA-256 in hexadecimal, and which calls fail.
pub record Platform : Type 0 where
  pub os : String
  pub arch : String
  pub executable : Option String
  pub temp_dir : String
  pub join : String → String → String
  pub sha256 : Bytes → String
  pub rename_fails : String → String → Bool
  pub remove_fails : String → Bool

module _ (env : Platform) where
  -- `os.Rename`; true if it succeeds.
  abbrev pub rename : String → String → Host → Bool × Host
  rename = move env.rename_fails

  -- `os.Remove`; true if it succeeds.
  unfoldable pub remove : String → Host → Bool × Host
  remove p h = elim (lookup p h.files) [
    | none ↦ (false, h)
    | some _ ↦
        if env.remove_fails p then (false, h) else (true, record h { files = delete p h.files })
  ]
