-- ===== src/Collectors/Listing.antt =====
-- When the collection of processes succeeds (internal/collectors/processes/info.go).
use truespec_agent.Prelude.{
  ℕ, ◌≡◌, inl, inr, refl, Bool, false, Option, none, some, List, [], ◌∷◌, Result, ok, err, arith,
  All, Option-cases, Result-cases, subst, sym, Bool-cases,
}
use truespec_agent.Collectors.Measures.{CollectError, no_process_info}
use truespec_agent.Collectors.Processes.{
  Process, ProcessInfo, process_info, process_infos, processes_info,
}

abbrev pub IsSome : {A : Type 0} → Option A → Type 0
IsSome none = ⊥
IsSome (some a) = Unit

module _ {F : Type 0} (new_fails : ℕ → Bool) where
  -- All that is asked of a process is answered, and its parent can be opened.
  abbrev pub IsReadable : Process F → Type 0
  IsReadable p =
      ((ppid : ℕ) × (p.parent ≡ some ppid) × (new_fails ppid ≡ false))
      × IsSome p.command_line
      × IsSome p.status
      × IsSome p.cpu_percent
      × IsSome p.memory

  -- A process that can be read gives a row of its number, and any other gives the one error.
  abbrev Reads : Process F → Result CollectError (ProcessInfo F) → Type 0
  Reads p (ok info) = IsReadable p × (info.pid ≡ p.pid)
  Reads p (err e) = (¬ IsReadable p) × (e ≡ no_process_info)

  process_info-Reads : (p : Process F) → Reads p (process_info new_fails p)
  unfolding process_info
  process_info-Reads p = elim (Option-cases p.parent) [
    | inl none1 ↦ rw none1 (ground arith, refl)
    | inr (ppid, some1) ↦ elim (Option-cases p.command_line) [
      | inl none2 ↦ rw (some1, none2) (ground arith, refl)
      | inr (cmdline, some2) ↦ elim (Option-cases p.status) [
        | inl none3 ↦ rw (some1, some2, none3) (ground arith, refl)
        | inr (status, some3) ↦ elim (Bool-cases (new_fails ppid)) [
          | inl fails ↦ rw (some1, some2, some3, fails) (ground arith, refl)
          | inr opens ↦ elim (Option-cases p.cpu_percent) [
            | inl none4 ↦ rw (some1, some2, some3, opens, none4) (ground arith, refl)
            | inr (usage, some4) ↦ elim (Option-cases p.memory) [
              | inl none5 ↦ rw (some1, some2, some3, opens, some4, none5) (ground arith, refl)
              | inr (memory, some5) ↦
                  rw (some1, some2, some3, opens, some4, some5)
                    (((ppid, refl, opens), tt, tt, tt, tt), refl)
            ]
          ]
        ]
      ]
    ]
  ]

  abbrev pub pids : List (Process F) → List ℕ
  pids [] = []
  pids (p ∷ ps) = p.pid ∷ pids ps

  abbrev pub info_pids : List (ProcessInfo F) → List ℕ
  info_pids [] = []
  info_pids (p ∷ ps) = p.pid ∷ info_pids ps

  -- All are reported, if all can be read, and else there is the one error.
  abbrev pub ReadsAll : List (Process F) → Result CollectError (List (ProcessInfo F)) → Type 0
  ReadsAll ps (ok infos) = All IsReadable ps × (info_pids infos ≡ pids ps)
  ReadsAll ps (err e) = (¬ All IsReadable ps) × (e ≡ no_process_info)

  module _ (p : Process F) (ps : List (Process F)) where
    infos_first_failed :
        (e : CollectError)
        → process_info new_fails p ≡ err e
        → process_infos new_fails (p ∷ ps) ≡ err e
    unfolding process_infos
    infos_first_failed e fails = rw (fails, process_infos) refl

    infos_later_failed :
        (info : ProcessInfo F) (e : CollectError)
        → process_info new_fails p ≡ ok info
        → process_infos new_fails ps ≡ err e
        → process_infos new_fails (p ∷ ps) ≡ err e
    unfolding process_infos
    infos_later_failed info e reads fails = rw (reads, fails, process_infos) refl

    infos_read :
        (info : ProcessInfo F) (infos : List (ProcessInfo F))
        → process_info new_fails p ≡ ok info
        → process_infos new_fails ps ≡ ok infos
        → process_infos new_fails (p ∷ ps) ≡ ok (info ∷ infos)
    unfolding process_infos
    infos_read info infos reads all_read = rw (reads, all_read, process_infos) refl

  process_infos-ReadsAll : (ps : List (Process F)) → ReadsAll ps (process_infos new_fails ps)
  unfolding process_infos
  process_infos-ReadsAll [] = (tt, refl)
  process_infos-ReadsAll (p ∷ ps) =
      let first = process_info-Reads p in
      let later = process_infos-ReadsAll ps in
      let conclude =
        λ (o : Result CollectError (List (ProcessInfo F)))
            (e : process_infos new_fails (p ∷ ps) ≡ o) (h : ReadsAll (p ∷ ps) o).
          subst (λ r. ReadsAll (p ∷ ps) r) (sym e) h in
      elim (Result-cases (process_info new_fails p)) [
        | inr (e, fails) ↦
            let (unreadable, same) = subst (λ o. Reads p o) fails first in
            conclude (err e) (infos_first_failed p ps e fails) ((λ h. unreadable h.0), same)
        | inl (info, reads) ↦
            let (readable, same) = subst (λ o. Reads p o) reads first in
            elim (Result-cases (process_infos new_fails ps)) [
              | inr (e, fails) ↦
                  let (unreadable, e_same) = subst (λ o. ReadsAll ps o) fails later in
                  conclude (err e) (infos_later_failed p ps info e reads fails)
                    ((λ h. unreadable h.1), e_same)
              | inl (infos, all_read) ↦
                  let (readable_all, pids_same) = subst (λ o. ReadsAll ps o) all_read later in
                  conclude (ok (info ∷ infos)) (infos_read p ps info infos reads all_read)
                    ((readable, readable_all), cc)
            ]
      ]

  -- The collection of processes reports every listed process, in order, if each of them answers all
  -- that is asked of it and its parent can be opened; if one does not, there is an error for all.
  pub processes_info-ReadsAll :
      (ps : List (Process F)) → ReadsAll ps (processes_info new_fails (some ps))
  unfolding processes_info
  processes_info-ReadsAll ps = process_infos-ReadsAll ps
