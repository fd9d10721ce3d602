-- ===== src/Updater/Verify.antt =====
-- `DownloadUpdate` and `VerifyUpdate` (internal/updater/updater.go).
use truespec_agent.Prelude.{
  ◌≡◌, ◌↔◌, refl, ap, sym, ◌∙◌, false, none, some, List, String, str_eq, eq_iff, ok, err, arith,
  ◌⊎◌, inl, inr, Option-cases, Result-cases,
}
use truespec_agent.Buffer.{Bytes, WriteOutcome, done, not_opened, short, take_bytes}
use truespec_agent.Host.{Host, ReadError, lookup, insert, read_file}
use truespec_agent.Host.Laws.{lookup-insert}
use truespec_agent.Updater.Renaming.{lookup-remove}
use truespec_agent.Updater.Defs.{UpdateMetadata, UpdateServer, Platform, Body, whole, broken}
use truespec_agent.Updater.Ops.{temp_file, copy_body, download_update, verify_update}

lookup-insert_apart {ℓ} :
    {V : Type ℓ} (j k : String) (v : V) (m : List (String × V))
    → str_eq k j ≡ false
    → lookup j (insert k v m) ≡ lookup j m
lookup-insert_apart j k v m apart = lookup-insert j k v m ∙ rw apart refl

module _ (env : Platform) where
  -- The systems for which `verifySignature` returns without an error.
  abbrev pub IsSupported : Type 0
  IsSupported = (env.os ≡ "windows") ⊎ ((env.os ≡ "darwin") ⊎ (env.os ≡ "linux"))

  -- The file can be read and its SHA-256 is the one announced.
  abbrev pub HasChecksum : Host → String → UpdateMetadata → Type 0
  HasChecksum h file_path md =
      (bytes : Bytes) × (read_file h file_path ≡ ok bytes) × (env.sha256 bytes ≡ md.checksum)

  verify_ok :
      (h : Host) (file_path : String) (md : UpdateMetadata) {bytes : Bytes}
      → read_file h file_path ≡ ok bytes
      → (verify_update env h file_path md ≡ none) ↔ ((env.sha256 bytes ≡ md.checksum) × IsSupported)
  unfolding verify_update
  verify_ok h file_path md {bytes} found = ground (
    arith,
    eq_iff (env.sha256 bytes) md.checksum,
    eq_iff env.os "windows",
    eq_iff env.os "darwin",
    eq_iff env.os "linux",
  )

  verify_unreadable :
      (h : Host) (file_path : String) (md : UpdateMetadata) {e : ReadError}
      → read_file h file_path ≡ err e
      → verify_update env h file_path md ≡ none
      → HasChecksum h file_path md × IsSupported
  unfolding verify_update
  verify_unreadable h file_path md lost verified = ground arith

  -- `VerifyUpdate` accepts a file exactly if it can be read, its SHA-256 is the checksum of the
  -- metadata, and the system is Windows, macOS or Linux: no signature takes part.
  pub verify_update_iff :
      (h : Host) (file_path : String) (md : UpdateMetadata)
      → (verify_update env h file_path md ≡ none) ↔ (HasChecksum h file_path md × IsSupported)
  verify_update_iff h file_path md = (
    elim (Result-cases (read_file h file_path)) [
      | inl (bytes, found) ↦ λ verified.
          let (matches, supported) = (verify_ok h file_path md found).0 verified in
          ((bytes, found, matches), supported)
      | inr (e, lost) ↦ verify_unreadable h file_path md lost
    ],
    λ given.
        let ((bytes, found, matches), supported) = given in
        (verify_ok h file_path md found).1 (matches, supported),
  )

  -- The file that the server gives whole, as a successful download leaves it.
  abbrev pub IsDownloaded : UpdateServer → UpdateMetadata → Host → String → Host → Type 0
  IsDownloaded server md h tmp h' =
      (bytes : Bytes) × (server.binary_at md.download_url ≡ some (200, whole bytes))
      × (tmp ≡ temp_file env md)
      × (h' ≡ record h { files = insert tmp bytes h.files })

  copy_ok :
      (tmp : String) (o : WriteOutcome) (body : Body) (h : Host) {path : String}
      → (copy_body env tmp o body h).0 ≡ ok path
      → (bytes : Bytes) × (body ≡ whole bytes)
        × (path ≡ tmp)
        × ((copy_body env tmp o body h).1 ≡ record h { files = insert tmp bytes h.files })
  unfolding copy_body
  copy_ok tmp not_opened body h got = ground arith
  copy_ok tmp done (whole bytes) h got = (bytes, refl, ground arith, refl)
  copy_ok tmp done (broken bytes) h got = ground arith
  copy_ok tmp (short n) (whole bytes) h got = ground arith
  copy_ok tmp (short n) (broken bytes) h got = ground arith

  lookup-copy_body :
      (tmp : String) (o : WriteOutcome) (body : Body) (h : Host) (j : String)
      → str_eq tmp j ≡ false
      → lookup j (copy_body env tmp o body h).1.files ≡ lookup j h.files
  unfolding copy_body
  lookup-copy_body tmp not_opened body h j apart = refl
  lookup-copy_body tmp done (whole bytes) h j apart = lookup-insert_apart j tmp bytes h.files apart
  lookup-copy_body tmp done (broken bytes) h j apart =
      lookup-remove env tmp (record h { files = insert tmp bytes h.files }) j apart
      ∙ lookup-insert_apart j tmp bytes h.files apart
  lookup-copy_body tmp (short n) (whole bytes) h j apart =
      let part = take_bytes n bytes in
      lookup-remove env tmp (record h { files = insert tmp part h.files }) j apart
      ∙ lookup-insert_apart j tmp part h.files apart
  lookup-copy_body tmp (short n) (broken bytes) h j apart =
      let part = take_bytes n bytes in
      lookup-remove env tmp (record h { files = insert tmp part h.files }) j apart
      ∙ lookup-insert_apart j tmp part h.files apart

  download_answer :
      (server : UpdateServer) (md : UpdateMetadata) (h : Host) {tmp : String}
      → (download_update env server md h).0 ≡ ok tmp
      → (body : Body) × (server.binary_at md.download_url ≡ some (200, body))
        × (download_update env server md h
            ≡ copy_body env (temp_file env md) (h.write_outcome (temp_file env md)) body h)
  unfolding download_update
  download_answer server md h got = elim (Option-cases (server.binary_at md.download_url)) [
    | inl lost ↦ ground arith
    | inr ((code, body), answered) ↦ (body, ground arith, ground arith)
  ]

  pub download_ok :
      (server : UpdateServer) (md : UpdateMetadata) (h : Host) {tmp : String}
      → (download_update env server md h).0 ≡ ok tmp
      → IsDownloaded server md h tmp (download_update env server md h).1
  download_ok server md h {tmp} got =
      let (body, answered, copies) = download_answer server md h got in
      let (bytes, is_whole, at, left) =
        copy_ok (temp_file env md) (h.write_outcome (temp_file env md)) body h
          (sym (ap (λ out. out.0) copies) ∙ got) in
      (
        bytes,
        answered ∙ ap (λ (b : Body). some (200, b)) is_whole,
        at,
        ap (λ out. out.1) copies
            ∙ left
            ∙ ap (λ (p : String). record h { files = insert p bytes h.files }) (sym at),
      )

  -- A download, successful or not, touches no file but the temporary one.
  pub lookup-download_update :
      (server : UpdateServer) (md : UpdateMetadata) (h : Host) (j : String)
      → str_eq (temp_file env md) j ≡ false
      → lookup j (download_update env server md h).1.files ≡ lookup j h.files
  unfolding download_update
  lookup-download_update server md h j apart =
      elim (Option-cases (server.binary_at md.download_url)) [
        | inl lost ↦ ground arith
        | inr ((code, body), answered) ↦ ground (
          arith,
          lookup-copy_body (temp_file env md) (h.write_outcome (temp_file env md)) body h j apart,
        )
      ]
