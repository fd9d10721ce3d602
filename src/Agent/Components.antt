-- ===== src/Agent/Components.antt =====
-- Steps 11 to 14 of `run` in cmd/agent/main.go: the components that run, and how they are shut
-- down. Also the file's helpers.
use truespec_agent.Prelude.{
  ◌≡◌, true, Option, none, some, List, [], ◌∷◌, ◌++◌, String, str_eq, ℕ, if◌then◌else◌,
}
use truespec_agent.Prelude.Int.{pos}
use truespec_agent.Host.{Host}
use truespec_agent.Config.{Config, is_empty}
use truespec_agent.Identity.{Tls, Manager}
use truespec_agent.Policy.{Engine, PolicyServer, new_engine, refresh, refreshes}
use truespec_agent.Scheduler.{Job, Scheduler, new_scheduler, start, stop, end_stop, may_exit}
use truespec_agent.Health.{Monitor, new_monitor, stop_monitor}

pub record Components : Type 0 where
  pub engine : Engine
  pub monitor : Monitor
  pub scheduler : Scheduler

-- Steps 11 to 13: an error of the first refresh is only logged. The monitor's goroutine runs from
-- here on. `collectors` are the names of the default collectors.
unfoldable pub start_components :
    Tls → ℕ → Host → PolicyServer → List String → Config → Manager → Components
start_components tls now h server collectors cfg identity = record {
  engine = (refresh tls h server (new_engine (pos now) cfg identity)).1;
  monitor = new_monitor now cfg identity;
  scheduler = start (new_scheduler collectors);
}

-- What the scheduler may do while `run` waits in step 14: the context is cancelled, and jobs end.
pub data Quiet : Scheduler → Scheduler → Type 0 where
  here : {s : Scheduler} → Quiet s s
  then_cancels : {s t : Scheduler} → Quiet s t → Quiet s (record t { cancelled = true })
  then_exits :
      {s t : Scheduler} (before : List Job) (j : Job) (after : List Job)
      → Quiet s t
      → t.jobs ≡ before ++ j ∷ after
      → may_exit j t ≡ true
      → Quiet s (record t { jobs = before ++ after })

-- The end of step 14, when the context is done; `none` is a panic.
unfoldable pub shut_down : Components → Option Components
shut_down c = elim (stop c.scheduler) [
  | none ↦ none
  | some s ↦ elim (stop_monitor c.monitor) [
    | none ↦ none
    | some m ↦ some (record c { scheduler = end_stop s; monitor = m })
  ]
]

-- Step 14: the ticks with what each refresh meets, and then the end of the context, at which the
-- scheduler is in the state given.
unfoldable pub serve_until_done :
    Tls → List (Host × PolicyServer) → Scheduler → Components → Option Components
unfolding shut_down
serve_until_done tls ticks s c =
    shut_down (record c { engine = refreshes tls ticks c.engine; scheduler = s })

-- `getDefaultConfigPath`; the first argument is `runtime.GOOS`.
unfoldable pub default_config_path : String → Host → String
default_config_path goos h =
    if is_empty (h.getenv "AGENT_CONFIG")
    then if str_eq goos "windows"
      then "C:\\ProgramData\\unitechio\\Agent\\config.json"
      else if str_eq goos "darwin"
      then "/Library/Application Support/unitechio/agent/config.json"
      else "/etc/unitechio/agent/config.json"
    else h.getenv "AGENT_CONFIG"

-- The command of `openBrowser`, if the system has one.
unfoldable pub browser_command : String → String → Option (String × List String)
browser_command goos url =
    if str_eq goos "windows"
    then some ("rundll32", "url.dll,FileProtocolHandler" ∷ url ∷ [])
    else if str_eq goos "darwin"
    then some ("open", url ∷ [])
    else if str_eq goos "linux"
    then some ("xdg-open", url ∷ [])
    else none
