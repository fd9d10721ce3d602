-- ===== src/Collectors/Processes.antt =====
-- The collection of processes (internal/collectors/processes/info.go).
use truespec_agent.Prelude.{
  ℕ, Bool, Option, none, some, List, [], ◌∷◌, String, Result, ok, err, if◌then◌else◌,
}
use truespec_agent.Collectors.Measures.{CollectError, no_processes, no_process_info}

-- A process as gopsutil answers for it; `none` is an error of the call.
pub record Process (F : Type 0) : Type 0 where
  pub pid : ℕ
  pub parent : Option ℕ
  pub command_line : Option String
  pub status : Option (List String)
  pub cpu_percent : Option F
  pub memory : Option ℕ

-- What is reported under `ppidName` is the parent as a process, here its number; the status and the
-- command line that are reported as the parent's are those of the process.
pub record ProcessInfo (F : Type 0) : Type 0 where
  pub pid : ℕ
  pub ppid : ℕ
  pub status : List String
  pub cmdline : String
  pub cpu_usage : F
  pub memory_info : ℕ
  pub ppid_name : ℕ
  pub ppid_status : List String
  pub ppid_cmdline : String

module _ {F : Type 0} where
  -- The body of the loop. The first argument says which processes `process.NewProcess` fails for.
  unfoldable pub process_info : (ℕ → Bool) → Process F → Result CollectError (ProcessInfo F)
  process_info new_fails p = elim p.parent [
    | none ↦ err no_process_info
    | some ppid ↦ elim p.command_line [
      | none ↦ err no_process_info
      | some cmdline ↦ elim p.status [
        | none ↦ err no_process_info
        | some status ↦ if new_fails ppid then err no_process_info else elim p.cpu_percent [
          | none ↦ err no_process_info
          | some usage ↦ elim p.memory [
            | none ↦ err no_process_info
            | some memory ↦ ok (record {
              pid = p.pid;
              ppid = ppid;
              status = status;
              cmdline = cmdline;
              cpu_usage = usage;
              memory_info = memory;
              ppid_name = ppid;
              ppid_status = status;
              ppid_cmdline = cmdline;
            })
          ]
        ]
      ]
    ]
  ]

  unfoldable pub process_infos :
      (ℕ → Bool) → List (Process F) → Result CollectError (List (ProcessInfo F))
  unfolding process_info
  process_infos new_fails [] = ok []
  process_infos new_fails (p ∷ ps) = elim (process_info new_fails p) [
    | err e ↦ err e
    | ok info ↦ elim (process_infos new_fails ps) [ err e ↦ err e | ok infos ↦ ok (info ∷ infos) ]
  ]

  -- `ProcessesInfoCollect`
  unfoldable pub processes_info :
      (ℕ → Bool) → Option (List (Process F)) → Result CollectError (List (ProcessInfo F))
  unfolding process_infos
  processes_info new_fails none = err no_processes
  processes_info new_fails (some processes) = process_infos new_fails processes
