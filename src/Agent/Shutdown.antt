-- ===== src/Agent/Shutdown.antt =====
-- The shutdown of the agent (cmd/agent/main.go, step 14 of `run`).
use truespec_agent.Prelude.{◌≡◌, true, false, List, String}
use truespec_agent.Host.{Host}
use truespec_agent.Config.{Config}
use truespec_agent.Policy.{Policy, PolicyServer}
use truespec_agent.Policy.Refreshing.{IsFetched}
use truespec_agent.Scheduler.{Scheduler}
use truespec_agent.Agent.Components.{Components}

-- What the end of the agent leaves: the scheduler and the monitor are stopped, and the policy is
-- the default one or one that a server has given.
abbrev pub IsShutDown : List (Host × PolicyServer) → String → Policy → Components → Type 0
IsShutDown ticks url first c =
    (c.scheduler.running ≡ false)
    × (c.scheduler.closed ≡ true)
    × (c.monitor.closed ≡ true)
    × IsFetched ticks url first c.engine.current
