-- ===== src/Service/Unix.antt =====
-- The services of Linux and macOS: internal/service/linux.go and internal/service/darwin.go.
use truespec_agent.Prelude.{
  ◌<>◌, not, ◌&&◌, Bool, true, false, Option, none, some, List, [], ◌∷◌, ◌++◌, String,
  if◌then◌else◌,
}
use truespec_agent.Buffer.{Bytes}
use truespec_agent.Host.{Host, not_exist, other_error, lookup, write_path, unlink}

-- What a service is installed with: `os.Executable`, which calls of `os.Remove` and which commands
-- fail, and the bytes of a string.
pub record Tools : Type 0 where
  pub executable : Option String
  pub remove_fails : String → Bool
  pub command_fails : List String → Bool
  pub utf8 : String → Bytes

-- The files, and the commands run so far, in order.
pub record Machine : Type 0 where
  pub host : Host
  pub commands : List (List String)

pub data ServiceError : Type 0 where
  already_exists no_executable not_written not_reloaded not_enabled not_loaded not_removed :
      ServiceError

-- The test that `os.Stat` finds a file.
abbrev pub is_found : Host → String → Bool
is_found h path =
    not (h.stat_fails path) && elim (lookup path h.files) [ none ↦ false | some _ ↦ true ]

abbrev pub unit_file : String → String
unit_file name = "/etc/systemd/system/" <> name <> ".service"

-- The service file that starts this executable.
unfoldable pub unit_text : String → String
unit_text exe =
    "[Unit]\nDescription=Enterprise Agent\n"
    <> "Documentation=https://docs.unitechio.com/agent\nAfter=network-online.target\n"
    <> "Wants=network-online.target\n\n[Service]\nType=simple\nUser=your-agent\n"
    <> "Group=your-agent\nExecStart=" <> exe
    <> " --config /etc/your-agent/config.json\nRestart=on-failure\nRestartSec=10s\n"
    <> "StandardOutput=journal\nStandardError=journal\n\n# Security hardening\n"
    <> "NoNewPrivileges=true\nPrivateTmp=true\nProtectSystem=strict\nProtectHome=true\n"
    <> "ReadWritePaths=/var/lib/your-agent /var/log/your-agent\n\n# Resource limits\n"
    <> "LimitNOFILE=65536\nMemoryMax=512M\nCPUQuota=50%\n\n[Install]\n"
    <> "WantedBy=multi-user.target\n"

abbrev pub plist_file : String → String
plist_file name = "/Library/LaunchDaemons/" <> name <> ".plist"

unfoldable pub plist_text : String → String → String
plist_text name exe =
    "<?xml version=\"1.0\" encoding=\"UTF-8\"?>\n"
    <> "\t<!DOCTYPE plist PUBLIC \"-//Apple//DTD PLIST 1.0//EN\" \"http://www.apple.com/DTDs/PropertyList-1.0.dtd\">\n"
    <> "\t<plist version=\"1.0\">\n\t<dict>\n\t    <key>Label</key>\n\t    <string>" <> name
    <> "</string>\n\n\t    <key>ProgramArguments</key>\n\t    <array>\n" <> "\t        <string>"
    <> exe <> "</string>\n\t        <string>--config</string>\n"
    <> "\t        <string>/var/lib/your-agent/config.json</string>\n\t    </array>\n\n"
    <> "\t    <key>RunAtLoad</key>\n\t    <true/>\n\n\t    <key>KeepAlive</key>\n"
    <> "\t    <dict>\n\t        <key>SuccessfulExit</key>\n\t        <false/>\n"
    <> "\t    </dict>\n\n\t    <key>StandardOutPath</key>\n"
    <> "\t    <string>/var/log/your-agent/stdout.log</string>\n\n"
    <> "\t    <key>StandardErrorPath</key>\n"
    <> "\t    <string>/var/log/your-agent/stderr.log</string>\n\n"
    <> "\t    <key>ThrottleInterval</key>\n\t    <integer>10</integer>\n\n"
    <> "\t    <key>WorkingDirectory</key>\n\t    <string>/var/lib/your-agent</string>\n"
    <> "\n\t    <key>EnvironmentVariables</key>\n\t    <dict>\n" <> "\t        <key>PATH</key>\n"
    <> "\t        <string>/usr/local/bin:/usr/bin:/bin:/usr/sbin:/sbin</string>\n"
    <> "\t    </dict>\n\t</dict>\n\t</plist>\n\t"

module _ (tools : Tools) where
  -- `exec.Command(...).Run()`; true if it succeeds.
  abbrev pub run_command : List String → Machine → Bool × Machine
  run_command command m =
      (not (tools.command_fails command), record m { commands = m.commands ++ command ∷ [] })

  abbrev pub daemon_reload : List String
  daemon_reload = "systemctl" ∷ "daemon-reload" ∷ []

  abbrev pub systemctl : String → String → List String
  systemctl verb name = "systemctl" ∷ verb ∷ name ∷ []

  abbrev pub launchctl : String → String → List String
  launchctl verb target = "launchctl" ∷ verb ∷ target ∷ []

  -- The end of `InstallLinuxService`, with the service file written.
  unfoldable pub enable_linux : String → Machine → Option ServiceError × Machine
  enable_linux name m =
      let (reloaded, m1) = run_command daemon_reload m in
      let (enabled, m2) = run_command (systemctl "enable" name) m1 in
      if not reloaded
      then (some not_reloaded, m1)
      else if not enabled
      then (some not_enabled, m2)
      else (none, m2)

  -- `InstallLinuxService`
  unfoldable pub install_linux : String → Machine → Option ServiceError × Machine
  unfolding enable_linux
  install_linux name m =
      if is_found m.host (unit_file name) then (some already_exists, m) else elim tools.executable [
        | none ↦ (some no_executable, m)
        | some exe ↦
            let (written, host) = write_path (unit_file name) (tools.utf8 (unit_text exe)) m.host in
            let m' : Machine = record m { host = host } in
            let (e, m'') = enable_linux name m' in
            if not written then (some not_written, m') else (e, m'')
      ]

  -- `UninstallLinuxService`
  unfoldable pub uninstall_linux : String → Machine → Option ServiceError × Machine
  uninstall_linux name m =
      let m1 = (run_command (systemctl "stop" name) m).1 in
      let m2 = (run_command (systemctl "disable" name) m1).1 in
      let (e, host) = unlink tools.remove_fails (unit_file name) m2.host in
      let m3 : Machine = record m2 { host = host } in
      let (reloaded, m4) = run_command daemon_reload m3 in
      let end : Option ServiceError × Machine =
        if not reloaded then (some not_reloaded, m4) else (none, m4) in
      elim e [ some other_error ↦ (some not_removed, m3) | some not_exist ↦ end | none ↦ end ]

  -- `StartLinuxService` and `StopLinuxService`
  unfoldable pub start_linux : String → Machine → Bool × Machine
  start_linux name = run_command (systemctl "start" name)

  unfoldable pub stop_linux : String → Machine → Bool × Machine
  stop_linux name = run_command (systemctl "stop" name)

  -- `InstallMacOSService`
  unfoldable pub install_macos : String → Machine → Option ServiceError × Machine
  install_macos name m =
      if is_found m.host (plist_file name)
      then (some already_exists, m)
      else elim tools.executable [
        | none ↦ (some no_executable, m)
        | some exe ↦
            let (written, host) =
              write_path (plist_file name) (tools.utf8 (plist_text name exe)) m.host in
            let m' : Machine = record m { host = host } in
            let (loaded, m'') = run_command (launchctl "load" (plist_file name)) m' in
            if not written
            then (some not_written, m')
            else if not loaded
            then (some not_loaded, m'')
            else (none, m'')
      ]

  -- `UninstallMacOSService`
  unfoldable pub uninstall_macos : String → Machine → Option ServiceError × Machine
  uninstall_macos name m =
      let m1 = (run_command (launchctl "unload" (plist_file name)) m).1 in
      let (e, host) = unlink tools.remove_fails (plist_file name) m1.host in
      let m2 : Machine = record m1 { host = host } in
      elim e [
        | some other_error ↦ (some not_removed, m2)
        | some not_exist ↦ (none, m2)
        | none ↦ (none, m2)
      ]

  -- `StartMacOSService` and `StopMacOSService`
  unfoldable pub start_macos : String → Machine → Bool × Machine
  start_macos name = run_command (launchctl "start" name)

  unfoldable pub stop_macos : String → Machine → Bool × Machine
  stop_macos name = run_command (launchctl "stop" name)
