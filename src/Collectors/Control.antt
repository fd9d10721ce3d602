-- ===== src/Collectors/Control.antt =====
-- Stopping, killing, starting and restarting processes: kill.go, stop.go, start.go and restart.go of
-- internal/collectors/processes. Package process of gopsutil and the start of a command are
-- parameters, on states of the system.
use truespec_agent.Prelude.{
  ℕ, not, Bool, ◌||◌, Option, none, some, List, [], ◌∷◌, String, str_eq, Result, ok, err,
  if◌then◌else◌,
}

-- The calls of gopsutil on a process, by its number: `NewProcess`, `IsRunning`, `CmdlineSlice`, `Exe`,
-- `SendSignal(SIGTERM)` and `Kill`; `wait` lets two seconds pass, and `start` is `cmd.Start`, with
-- the number of the new process. `none` is an error; of the signals it is the `Bool`.
pub record ProcessApi (S : Type 0) : Type 0 where
  pub exists : ℕ → S → Bool
  pub is_running : ℕ → S → Bool
  pub cmdline_slice : ℕ → S → Option (List String)
  pub exe : ℕ → S → Option String
  pub send_sigterm : ℕ → S → Bool × S
  pub kill_process : ℕ → S → Bool × S
  pub wait : S → S
  pub start : String → List String → S → Option ℕ × S

pub data ControlError : Type 0 where
  not_found not_signalled unsupported_os no_cmdline no_exe not_started : ControlError

abbrev pub signal_error : Bool → Option ControlError
signal_error done = if done then none else some not_signalled

module _ {S : Type 0} (api : ProcessApi S) where
  -- The state in which `Kill` calls the method `Kill` on Linux and macOS.
  abbrev pub after_sigterm : ℕ → S → S
  after_sigterm pid s = api.wait (api.send_sigterm pid s).1

  -- `Kill`; the first argument is `runtime.GOOS`.
  unfoldable pub kill : String → ℕ → S → Option ControlError × S
  kill goos pid s =
      let (killed, s') = api.kill_process pid (after_sigterm pid s) in
      let (killed_at_once, s'') = api.kill_process pid s in
      if not (api.exists pid s)
      then (some not_found, s)
      else if not (api.is_running pid s)
      then (none, s)
      else if str_eq goos "linux" || str_eq goos "darwin"
      then (signal_error killed, s')
      else if str_eq goos "windows"
      then (signal_error killed_at_once, s'')
      else (some unsupported_os, s)

  -- `Start`
  unfoldable pub start_process : String → List String → S → Result ControlError ℕ × S
  start_process path args s =
      let (pid, s') = api.start path args s in
      elim pid [ none ↦ (err not_started, s') | some n ↦ (ok n, s') ]

  -- `Stop`
  unfoldable pub stop_process : ℕ → S → Option ControlError × S
  stop_process pid s =
      let (signalled, s') = api.send_sigterm pid s in
      if api.exists pid s then (signal_error signalled, s') else (some not_found, s)

  -- `Restart`
  unfoldable pub restart : String → ℕ → S → Result ControlError ℕ × S
  unfolding kill start_process
  restart goos pid s =
      if not (api.exists pid s) then (err not_found, s) else elim (api.cmdline_slice pid s) [
        | none ↦ (err no_cmdline, s)
        | some [] ↦ (err no_cmdline, s)
        | some (_ ∷ args) ↦ elim (api.exe pid s) [
          | none ↦ (err no_exe, s)
          | some exe ↦ start_process exe args (kill goos pid s).1
        ]
      ]
