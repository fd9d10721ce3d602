-- ===== src/Service/Tests.antt =====
-- Runs of the Windows service (internal/service/windows.go), and the theorems at concrete inputs.
use truespec_agent.Prelude.{
  str_eq, none, ℕ, ◌*◌, ◌≡◌, refl, true, false, Option, some, List, [], ◌∷◌, zero, suc, ◌+◌,
}
use native.Mathlib.Omega.{arith}
use truespec_agent.Service.Defs.{
  running, stopped, paused, Request, interrogate, pause, reported, Scm, UninstallError, timed_out,
  uninstall,
}
use truespec_agent.Host.{lookup, write_path, unlink}
use truespec_agent.Identity.Tests.{empty_host}
use truespec_agent.Service.Unix.{
  Tools, Machine, already_exists, install_linux, uninstall_linux, enable_linux, install_macos,
  uninstall_macos,
}
use truespec_agent.Service.Manager.{ManagerAnswers, ManagerCall, ManagerError, install_windows}
use truespec_agent.Service.Installing.{install_linux_again}
use truespec_agent.Service.Removing.{uninstall_linux-install_linux}
use truespec_agent.Service.Uninstall.{Passes, uninstall_returns, uninstall_stopped}

abbrev some_requests : List Request
some_requests = pause ∷ interrogate (reported paused) ∷ []

-- A service that stops before the second query.
abbrev manager : Scm
manager = record {
  connect_fails = false;
  open_fails = false;
  query = λ n. elim n [ zero ↦ some running | suc _ ↦ some stopped ];
  control_fails = false;
  limit_set_at = 5;
  clock = λ n. 5 + 300 * n;
  delete_fails = false;
}

-- A service that does not stop.
abbrev stuck : Scm
stuck = record manager { query = λ n. some running }

given_up : (uninstall stuck).0 ≡ some (some timed_out)
unfolding uninstall
given_up = refl

manager-Passes : Passes manager
manager-Passes = (omega arith, λ i. omega arith)

uninstall_returns_example : (e : Option UninstallError) × ((uninstall manager).0 ≡ some e)
uninstall_returns_example = uninstall_returns manager manager-Passes

uninstall_stopped_example : (j : ℕ) × (manager.query j ≡ some stopped)
unfolding uninstall
uninstall_stopped_example = uninstall_stopped manager refl

abbrev tools : Tools
tools = record {
  executable = some "/opt/agent";
  remove_fails = λ p. false;
  command_fails = λ c. false;
  utf8 = λ s. 1 ∷ [];
}

-- systemd does not enable the service.
abbrev without_enable : Tools
without_enable = record tools {
  command_fails = λ c. elim c [ _ ∷ verb ∷ _ ↦ str_eq verb "enable" | _ ↦ false ];
}

abbrev machine : Machine
machine = record { host = record empty_host { files = ("/etc/hosts", 9 ∷ []) ∷ [] }; commands = [] }

macos_removed :
    (uninstall_macos tools "agent" (install_macos tools "agent" machine).1).1.host.files
    ≡ machine.host.files
unfolding uninstall_macos install_macos write_path unlink
macos_removed = refl

install_linux_again_example :
    let m' = (install_linux without_enable "agent" machine).1 in
    install_linux tools "agent" m' ≡ (some already_exists, m')
unfolding install_linux enable_linux write_path
install_linux_again_example = install_linux_again without_enable tools "agent" machine tt refl

uninstall_linux-install_linux_example :
    let (e, left) = uninstall_linux tools "agent" (install_linux tools "agent" machine).1 in
    (e ≡ none)
    × (lookup "/etc/hosts" left.host.files ≡ lookup "/etc/hosts" machine.host.files)
    × (left.commands
        ≡ ("systemctl" ∷ "daemon-reload" ∷ [])
          ∷ ("systemctl" ∷ "enable" ∷ "agent" ∷ [])
          ∷ ("systemctl" ∷ "stop" ∷ "agent" ∷ [])
          ∷ ("systemctl" ∷ "disable" ∷ "agent" ∷ [])
          ∷ ("systemctl" ∷ "daemon-reload" ∷ [])
          ∷ [])
unfolding install_linux enable_linux write_path
uninstall_linux-install_linux_example =
    uninstall_linux-install_linux tools tools "agent" machine "/etc/hosts" refl refl refl refl

abbrev answers_without_recovery : ManagerAnswers
answers_without_recovery = record {
  executable = some "C:\\agent.exe";
  connect_fails = false;
  open_fails = true;
  create_fails = false;
  recovery_fails = true;
  start_fails = false;
}

-- A service whose recovery actions cannot be set is created all the same.
left_without_recovery :
    (e : ManagerError) × (c : ManagerCall) × (install_windows answers_without_recovery "agent"
        "Agent" ""
      ≡ (some e, c ∷ []))
unfolding install_windows
left_without_recovery = (_, _, refl)
