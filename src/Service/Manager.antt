-- ===== src/Service/Manager.antt =====
-- Installing and starting the Windows service (internal/service/windows.go). The service manager is
-- the library's: which of its calls fail is an input, and the calls that change it are listed.
use truespec_agent.Prelude.{ℕ, Bool, true, Option, none, some, List, [], ◌∷◌, String, if◌then◌else◌}

-- `mgr.Config` with the executable.
pub record Registration : Type 0 where
  pub executable : String
  pub display_name : String
  pub description : String
  pub automatic : Bool
  pub account : String

-- A call that succeeded: a service is created, its recovery actions are set, which restart it after
-- these delays in milliseconds and forget failures after these seconds, or it is started.
pub data ManagerCall : Type 0 where
  created : String → Registration → ManagerCall
  recovers : String → List ℕ → ℕ → ManagerCall
  started : String → ManagerCall

-- `os.Executable`, and which calls fail.
pub record ManagerAnswers : Type 0 where
  pub executable : Option String
  pub connect_fails : Bool
  pub open_fails : Bool
  pub create_fails : Bool
  pub recovery_fails : Bool
  pub start_fails : Bool

pub data ManagerError : Type 0 where
  no_executable no_manager service_exists not_created no_recovery no_service start_failed :
      ManagerError

-- `InstallWindowsService`
unfoldable pub install_windows :
    ManagerAnswers → String → String → String → Option ManagerError × List ManagerCall
install_windows answers name display_name description = elim answers.executable [
  | none ↦ (some no_executable, [])
  | some exe ↦
      let creates = created name (record {
        executable = exe;
        display_name = display_name;
        description = description;
        automatic = true;
        account = "NT AUTHORITY\\SYSTEM";
      }) in
      if answers.connect_fails
      then (some no_manager, [])
      else if answers.open_fails
      then if answers.create_fails
        then (some not_created, [])
        else if answers.recovery_fails
        then (some no_recovery, creates ∷ [])
        else (none, creates ∷ recovers name (10_000 ∷ 30_000 ∷ 60_000 ∷ []) 86_400 ∷ [])
      else (some service_exists, [])
]

-- `StartWindowsService`
unfoldable pub start_windows : ManagerAnswers → String → Option ManagerError × List ManagerCall
start_windows answers name =
    if answers.connect_fails
    then (some no_manager, [])
    else if answers.open_fails
    then (some no_service, [])
    else if answers.start_fails
    then (some start_failed, [])
    else (none, started name ∷ [])
