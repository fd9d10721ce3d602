-- ===== src/Service/Removing.antt =====
-- The removal of the systemd service (internal/service/linux.go).
use truespec_agent.Prelude.{
  str_eq_refl, ◌≡◌, inl, inr, refl, false, Option, none, some, List, [], ◌∷◌, ◌++◌, String, arith,
  Option-cases, ap,
}
use truespec_agent.Buffer.{Bytes}
use truespec_agent.Host.{ReadError, Host, lookup, delete}
use truespec_agent.Host.Laws.{unlink_found, lookup-delete-insert, lookup-insert}
use truespec_agent.Service.Unix.{
  Tools, Machine, ServiceError, is_found, unit_file, daemon_reload, systemctl, install_linux,
  uninstall_linux,
}
use truespec_agent.Service.Installing.{
  with_unit, text, install_linux-IsWritten, enable_linux-commands,
}

absent_of :
    (h : Host) (path : String)
    → h.stat_fails path ≡ false
    → is_found h path ≡ false
    → lookup path h.files ≡ none
absent_of h path stats absent = elim (Option-cases (lookup path h.files)) [
  | inl missing ↦ missing
  | inr (bytes, there) ↦ absurd (ground arith)
]

one_by_one :
    {A : Type 0} (xs : List A) (a b c d e : A)
    → ((((xs ++ a ∷ []) ++ b ∷ []) ++ c ∷ []) ++ d ∷ []) ++ e ∷ [] ≡ xs ++ a ∷ b ∷ c ∷ d ∷ e ∷ []
one_by_one [] a b c d e = refl
one_by_one (x ∷ xs) a b c d e = ap (◌∷◌ x) (one_by_one xs a b c d e)

uninstall_linux_found :
    (tools : Tools) (name : String) (m : Machine) {bytes : Bytes}
    → lookup (unit_file name) m.host.files ≡ some bytes
    → tools.remove_fails (unit_file name) ≡ false
    → tools.command_fails (daemon_reload tools) ≡ false
    → uninstall_linux tools name m ≡ (
      none,
      record m {
        host = record m.host { files = delete (unit_file name) m.host.files };
        commands =
            ((m.commands ++ systemctl tools "stop" name ∷ [])
              ++ systemctl tools "disable" name ∷ [])
            ++ daemon_reload tools ∷ [];
      },
    )
unfolding uninstall_linux
uninstall_linux_found tools name m found removes reloads =
    let removed = unlink_found tools.remove_fails (unit_file name) m.host found removes in
    rw (removed, reloads, uninstall_linux)
      (ap (λ (o : Option ReadError × Host). removed_unit o.1) removed)
  where
    removed_unit : Host → Option ServiceError × Machine
    removed_unit host = (
      none,
      record {
        host = host;
        commands =
            ((m.commands ++ systemctl tools "stop" name ∷ [])
              ++ systemctl tools "disable" name ∷ [])
            ++ daemon_reload tools ∷ [];
      },
    )

-- An uninstall after an install that works gives back the files that there were, and has systemd
-- stop and disable the service and forget it, if the file can be removed, systemd answers, and
-- `os.Stat` works at the service file.
pub uninstall_linux-install_linux :
    (tools tools' : Tools) (name : String) (m : Machine) (path : String)
    → (install_linux tools name m).0 ≡ none
    → m.host.stat_fails (unit_file name) ≡ false
    → tools'.remove_fails (unit_file name) ≡ false
    → tools'.command_fails ("systemctl" ∷ "daemon-reload" ∷ []) ≡ false
    → let (e, left) = uninstall_linux tools' name (install_linux tools name m).1 in
      (e ≡ none)
      × (lookup path left.host.files ≡ lookup path m.host.files)
      × (left.commands
          ≡ m.commands
            ++ ("systemctl" ∷ "daemon-reload" ∷ [])
              ∷ ("systemctl" ∷ "enable" ∷ name ∷ [])
              ∷ ("systemctl" ∷ "stop" ∷ name ∷ [])
              ∷ ("systemctl" ∷ "disable" ∷ name ∷ [])
              ∷ ("systemctl" ∷ "daemon-reload" ∷ [])
              ∷ [])
uninstall_linux-install_linux tools tools' name m path works stats removes reloads =
    let (exe, absent, runs, goes_on) = install_linux-IsWritten tools name m (rw works tt) in
    let unit = unit_file name in
    let written = with_unit tools name m exe in
    let there = lookup-insert unit unit (text tools name m exe) m.host.files in
    let enabled = enable_linux-commands tools name m written (rw goes_on at works) in
    let left =
      uninstall_linux_found tools' name
        (record written {
          commands = (m.commands ++ daemon_reload tools ∷ []) ++ systemctl tools "enable" name ∷ [];
        })
        {bytes = text tools name m exe} (rw there (rw (str_eq_refl unit) refl)) removes reloads in
    rw (goes_on, enabled, left)
      (
        refl,
        lookup-delete-insert path unit (text tools name m exe) m.host.files
            (absent_of m.host unit stats absent),
        one_by_one m.commands _ _ _ _ _,
      )
