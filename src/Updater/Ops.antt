-- ===== src/Updater/Ops.antt =====
-- The operations of internal/updater/updater.go. Log lines are left out, and so is `os.Chmod`, whose
-- failure is only logged.
use truespec_agent.Prelude.{
  ℕ, ◌==◌, ◌<>◌, not, Option, none, some, String, str_eq, Result, ok, err, if◌then◌else◌,
}
use truespec_agent.Buffer.{WriteOutcome, done, not_opened, short, take_bytes}
use truespec_agent.Host.{Host, insert, read_file, is_missing}
use truespec_agent.Updater.Defs.{
  UpdateMetadata, Updater, Body, whole, broken, UpdateServer, Platform, rename, remove,
}

pub data UpdateError : Type 0 where
  request_failed http_failed decode_failed not_created interrupted unreadable mismatch
        unsupported_os no_executable no_backup not_installed backup_missing not_removed
        not_restored :
      UpdateError
  bad_status : ℕ → UpdateError

abbrev pub metadata_url : Platform → Updater → String
metadata_url env u =
    u.api_base_url <> "/api/v1/updates/metadata?os=" <> env.os <> "&arch=" <> env.arch
    <> "&version=" <> u.current_version <> "&channel=" <> "stable"

-- `CheckForUpdate`
unfoldable pub check_for_update :
    Platform → UpdateServer → Updater → Result UpdateError (Option UpdateMetadata)
check_for_update env server u =
    let url = metadata_url env u in
    if server.create_fails url then err request_failed else elim (server.metadata_at url) [
      | none ↦ err http_failed
      | some (code, body) ↦
          if code == 204
          then ok none
          else if not (code == 200)
          then err (bad_status code)
          else elim body [ none ↦ err decode_failed | some md ↦ ok (some md) ]
    ]

module _ (env : Platform) where
  abbrev pub temp_file : UpdateMetadata → String
  temp_file md =
      let path = env.join env.temp_dir ("agent_update_" <> md.version) in
      if str_eq env.os "windows" then path <> ".exe" else path

  -- `os.Create` and `io.Copy` to the temporary file, which is removed when the copy fails.
  unfoldable pub copy_body : String → WriteOutcome → Body → Host → Result UpdateError String × Host
  copy_body tmp not_opened _ h = (err not_created, h)
  copy_body tmp done (whole bytes) h = (ok tmp, record h { files = insert tmp bytes h.files })
  copy_body tmp done (broken bytes) h =
      (err interrupted, (remove env tmp (record h { files = insert tmp bytes h.files })).1)
  copy_body tmp (short n) (whole bytes) h = (
    err interrupted,
    (remove env tmp (record h { files = insert tmp (take_bytes n bytes) h.files })).1,
  )
  copy_body tmp (short n) (broken bytes) h = (
    err interrupted,
    (remove env tmp (record h { files = insert tmp (take_bytes n bytes) h.files })).1,
  )

  unfoldable pub store_download :
      UpdateServer → UpdateMetadata → Host → Result UpdateError String × Host
  store_download server md h = elim (server.binary_at md.download_url) [
    | none ↦ (err http_failed, h)
    | some (code, body) ↦
        if not (code == 200)
        then (err (bad_status code), h)
        else copy_body (temp_file md) (h.write_outcome (temp_file md)) body h
  ]

  -- `DownloadUpdate`
  unfoldable pub download_update :
      UpdateServer → UpdateMetadata → Host → Result UpdateError String × Host
  unfolding store_download
  download_update server md h =
      if server.create_fails md.download_url
      then (err request_failed, h)
      else store_download server md h

  -- `verifySignature`, which looks at no file.
  unfoldable pub verify_signature : String → Option UpdateError
  verify_signature file_path =
      if str_eq env.os "windows"
      then none
      else if str_eq env.os "darwin"
      then none
      else if str_eq env.os "linux"
      then none
      else some unsupported_os

  -- `VerifyUpdate`
  unfoldable pub verify_update : Host → String → UpdateMetadata → Option UpdateError
  unfolding verify_signature
  verify_update h file_path md = elim (read_file h file_path) [
    | err _ ↦ some unreadable
    | ok bytes ↦
        if not (str_eq (env.sha256 bytes) md.checksum)
        then some mismatch
        else verify_signature file_path
  ]

  abbrev pub backup_of : String → String
  backup_of exe = exe <> ".old"

  -- `InstallUpdate`, from where the path of the executable is known.
  unfoldable pub swap : String → String → Host → Option UpdateError × Host
  swap exe new_binary h =
      let (backed_up, h1) = rename env exe (backup_of exe) h in
      let (installed, h2) = rename env new_binary exe h1 in
      if not backed_up
      then (some no_backup, h1)
      else if not installed
      then (some not_installed, (rename env (backup_of exe) exe h2).1)
      else (none, h2)

  -- `InstallUpdate`
  unfoldable pub install_update : String → Host → Option UpdateError × Host
  unfolding swap
  install_update new_binary h = elim env.executable [
    | none ↦ (some no_executable, h)
    | some exe ↦ swap exe new_binary h
  ]

  -- `Rollback`
  unfoldable pub rollback : Host → Option UpdateError × Host
  rollback h = elim env.executable [
    | none ↦ (some no_executable, h)
    | some exe ↦
        let (removed, h1) = remove env exe h in
        let (restored, h2) = rename env (backup_of exe) exe h1 in
        if is_missing h (backup_of exe)
        then (some backup_missing, h)
        else if not removed
        then (some not_removed, h1)
        else if not restored
        then (some not_restored, h2)
        else (none, h2)
  ]

  -- The verification and installation in `PerformUpdate`; the file is removed on the way out.
  unfoldable pub apply_update : String → UpdateMetadata → Host → Option UpdateError × Host
  unfolding verify_update install_update
  apply_update tmp md h = elim (verify_update h tmp md) [
    | some e ↦ (some e, (remove env tmp h).1)
    | none ↦ let (e, h') = install_update tmp h in (e, (remove env tmp h').1)
  ]

  -- `PerformUpdate`
  unfoldable pub perform_update : UpdateServer → Updater → Host → Option UpdateError × Host
  unfolding check_for_update download_update apply_update
  perform_update server u h = elim (check_for_update env server u) [
    | err e ↦ (some e, h)
    | ok none ↦ (none, h)
    | ok (some md) ↦
        let (got, h') = download_update server md h in
        elim got [ err e ↦ (some e, h') | ok tmp ↦ apply_update tmp md h' ]
  ]
