-- ===== src/Policy/Refreshing.antt =====
-- The policy over its refreshes (internal/policy/policy.go).
use truespec_agent.Prelude.{
  ◌≡◌, refl, sym, ap, subst, ◌∙◌, none, some, List, [], ◌∷◌, String, arith, ◌⊎◌, inl, inr,
  Option-cases, Bool-cases, ◌==◌,
}
use truespec_agent.Prelude.Int.{pos, ◌<ℤ◌}
use truespec_agent.Host.{Host}
use truespec_agent.Config.{Config}
use truespec_agent.Config.Laws.{IsRunnable}
use truespec_agent.Identity.{Tls, get_http_client}
use truespec_agent.Policy.Defs.{
  Policy, Engine, PolicyServer, policy_url, refresh, get_collector_interval, refreshes,
}

-- A policy that the server gives with status 200.
abbrev pub IsServed : PolicyServer → String → Policy → Type 0
IsServed server url p = server url ≡ some (200, some p)

-- The policy is the old one, or one that a server of the list gives.
abbrev pub IsFetched : List (Host × PolicyServer) → String → Policy → Policy → Type 0
IsFetched [] url old p = p ≡ old
IsFetched ((h, server) ∷ later) url old p = IsServed server url p ⊎ IsFetched later url old p

module _ (tls : Tls) where
  refresh_either :
      (h : Host) (server : PolicyServer) (e : Engine)
      → ((refresh tls h server e).1 ≡ e)
        ⊎ ((p : Policy) × IsServed server (policy_url e) p
            × ((refresh tls h server e).1 ≡ record e { current = p }))
  unfolding refresh
  refresh_either h server e = elim (Option-cases (get_http_client tls h e.identity)) [
    | inr (reason, failed) ↦ inl (ground arith)
    | inl connected ↦ elim (Option-cases (server (policy_url e))) [
      | inl silent ↦ inl (ground arith)
      | inr ((code, none), answered) ↦ inl (ground arith)
      | inr ((code, some p), answered) ↦ elim (Bool-cases (code == 200)) [
        | inr bad ↦ inl (ground arith)
        | inl fine ↦ inr (p, ground arith, ground arith)
      ]
    ]
  ]

  IsFetched-served :
      (steps : List (Host × PolicyServer)) (server : PolicyServer) (h : Host) (url : String)
      (old mid p : Policy)
      → IsServed server url mid
      → IsFetched steps url mid p
      → IsFetched ((h, server) ∷ steps) url old p
  IsFetched-served [] server h url old mid p served same =
      inl (served ∙ ap (λ (q : Policy). some (200, some q)) (sym same))
  IsFetched-served ((h', s) ∷ steps) server h url old mid p served (inl found) = inr (inl found)
  IsFetched-served ((h', s) ∷ steps) server h url old mid p served (inr rest) =
      elim (IsFetched-served steps server h url old mid p served rest) [
        | inl found ↦ inl found
        | inr older ↦ inr (inr older)
      ]

  refreshes-cfg :
      (steps : List (Host × PolicyServer)) (e : Engine) → (refreshes tls steps e).cfg ≡ e.cfg
  unfolding refreshes
  refreshes-cfg [] e = refl
  refreshes-cfg ((h, server) ∷ later) e =
      refreshes-cfg later (refresh tls h server e).1 ∙ elim (refresh_either h server e) [
        | inl same ↦ ap (λ (r : Engine). r.cfg) same
        | inr (p, served, changed) ↦ ap (λ (r : Engine). r.cfg) changed
      ]

  -- Over any number of refreshes, failed ones between them, the policy in force is the one at
  -- first or one that a server has given, whole and with status 200, at the agent's address.
  pub refreshes-IsFetched :
      (steps : List (Host × PolicyServer)) (e : Engine)
      → IsFetched steps (policy_url e) e.current (refreshes tls steps e).current
  unfolding refreshes
  refreshes-IsFetched [] e = refl
  refreshes-IsFetched ((h, server) ∷ later) e = elim (refresh_either h server e) [
    | inl same ↦ inr (
        subst
          (λ (r : Engine). IsFetched later (policy_url e) e.current (refreshes tls later r).current)
          (sym same) (refreshes-IsFetched later e))
    | inr (p, served, changed) ↦
        let e' : Engine = record e { current = p } in
        IsFetched-served later server h (policy_url e) e.current p
          (refreshes tls later (refresh tls h server e).1).current served
          (subst (λ (r : Engine). IsFetched later (policy_url e) p (refreshes tls later r).current)
            (sym changed) (refreshes-IsFetched later e'))
  ]

  interval_positive :
      (name : String) (e : Engine)
      → pos 0 <ℤ e.cfg.collection_interval
      → pos 0 <ℤ get_collector_interval name e
  unfolding get_collector_interval
  interval_positive name e positive = ground arith

  -- With a configuration that passes the validation, the interval of every collector stays
  -- positive over all refreshes, whatever intervals the servers send.
  pub get_collector_interval-refreshes :
      (name : String) (steps : List (Host × PolicyServer)) (e : Engine)
      → IsRunnable e.cfg
      → pos 0 <ℤ get_collector_interval name (refreshes tls steps e)
  get_collector_interval-refreshes name steps e runnable =
      let least = runnable.interval in
      let positive : pos 0 <ℤ e.cfg.collection_interval = omega arith in
      interval_positive name (refreshes tls steps e) (
        subst (λ (c : Config). pos 0 <ℤ c.collection_interval) (sym (refreshes-cfg steps e))
          positive)
