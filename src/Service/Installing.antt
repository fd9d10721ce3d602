-- ===== src/Service/Installing.antt =====
-- The installation of the systemd service (internal/service/linux.go).
use truespec_agent.Prelude.{
  str_eq_refl, ◌≡◌, inl, inr, refl, true, false, Option, none, some, [], ◌∷◌, ◌++◌, String, arith,
  Bool-cases, Option-cases,
}
use truespec_agent.Buffer.{Bytes}
use truespec_agent.Host.{insert, write_path}
use truespec_agent.Host.Laws.{lookup-insert, write_path_whole}
use truespec_agent.Service.Unix.{
  Tools, Machine, ServiceError, already_exists, no_executable, not_written, not_reloaded,
  not_enabled, is_found, unit_file, unit_text, daemon_reload, systemctl, enable_linux,
  install_linux,
}

-- The install has come to the point where the service file is written.
abbrev pub IsWritten : Option ServiceError → Type 0
IsWritten none = Unit
IsWritten (some not_reloaded) = Unit
IsWritten (some not_enabled) = Unit
IsWritten (some _) = ⊥

module _ (tools : Tools) (name : String) (m : Machine) where
  -- The machine with the service file for this executable.
  abbrev pub with_unit : String → Machine
  with_unit exe = record m {
    host = record m.host {
      files = insert (unit_file name) (tools.utf8 (unit_text exe)) m.host.files;
    };
  }

  enable_linux-host : (m' : Machine) → (enable_linux tools name m').1.host ≡ m'.host
  unfolding enable_linux
  enable_linux-host m' = ground arith

  abbrev pub text : String → Bytes
  text exe = tools.utf8 (unit_text exe)

  install_linux_done :
      (exe : String)
      → is_found m.host (unit_file name) ≡ false
      → tools.executable ≡ some exe
      → (write_path (unit_file name) (text exe) m.host).0 ≡ true
      → install_linux tools name m ≡ enable_linux tools name (with_unit exe)
  unfolding install_linux
  install_linux_done exe absent runs written =
      rw (absent, runs, write_path_whole (unit_file name) (text exe) m.host written) refl

  install_linux_found :
      is_found m.host (unit_file name) ≡ true
      → install_linux tools name m ≡ (some already_exists, m)
  unfolding install_linux
  install_linux_found found = rw found refl

  install_linux_without :
      is_found m.host (unit_file name) ≡ false
      → tools.executable ≡ none
      → install_linux tools name m ≡ (some no_executable, m)
  unfolding install_linux
  install_linux_without absent unknown = rw (absent, unknown) refl

  install_linux_unwritten :
      (exe : String)
      → is_found m.host (unit_file name) ≡ false
      → tools.executable ≡ some exe
      → (write_path (unit_file name) (tools.utf8 (unit_text exe)) m.host).0 ≡ false
      → (install_linux tools name m).0 ≡ some not_written
  unfolding install_linux
  install_linux_unwritten exe absent runs failed = rw (absent, runs, failed) refl

  IsWritten-none :
      {o : Option ServiceError × Machine}
      → install_linux tools name m ≡ o
      → IsWritten (install_linux tools name m).0
      → IsWritten o.0
  IsWritten-none e w = rw e at w

  -- An install that has come so far has done this.
  pub install_linux-IsWritten :
      IsWritten (install_linux tools name m).0
      → (exe : String) × (is_found m.host (unit_file name) ≡ false)
        × (tools.executable ≡ some exe)
        × (install_linux tools name m ≡ enable_linux tools name (with_unit exe))
  install_linux-IsWritten far = elim (Bool-cases (is_found m.host (unit_file name))) [
    | inl found ↦ absurd (IsWritten-none (install_linux_found found) far)
    | inr absent ↦ elim (Option-cases tools.executable) [
      | inl unknown ↦ absurd (IsWritten-none (install_linux_without absent unknown) far)
      | inr (exe, runs) ↦ elim (Bool-cases (write_path (unit_file name) (text exe) m.host).0) [
        | inl written ↦ (exe, absent, runs, install_linux_done exe absent runs written)
        | inr failed ↦ absurd (rw (install_linux_unwritten exe absent runs failed) at far)
      ]
    ]
  ]

  pub enable_linux-commands :
      (m' : Machine)
      → (enable_linux tools name m').0 ≡ none
      → (enable_linux tools name m').1 ≡ record m' {
        commands = (m'.commands ++ daemon_reload tools ∷ []) ++ systemctl tools "enable" name ∷ [];
      }
  unfolding enable_linux
  enable_linux-commands m' worked = ground arith

-- An install that has written the service file, whether systemd was then told of it or not, makes
-- the next one fail: a service of the name exists already. That one changes nothing. `os.Stat`
-- works at the file.
pub install_linux_again :
    (tools tools' : Tools) (name : String) (m : Machine)
    → IsWritten (install_linux tools name m).0
    → m.host.stat_fails (unit_file name) ≡ false
    → let m' = (install_linux tools name m).1 in
      install_linux tools' name m' ≡ (some already_exists, m')
install_linux_again tools tools' name m far stats =
    let (exe, absent, runs, goes_on) = install_linux-IsWritten tools name m far in
    let host = enable_linux-host tools name m (with_unit tools name m exe) in
    install_linux_found tools' name (install_linux tools name m).1 (
      rw
        (
          goes_on,
          host,
          stats,
          lookup-insert (unit_file name) (unit_file name) (text tools name m exe) m.host.files,
          str_eq_refl (unit_file name),
        )
        refl)
