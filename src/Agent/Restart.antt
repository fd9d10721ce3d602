-- ===== src/Agent/Restart.antt =====
-- A start of the agent with a configuration stored (cmd/agent/main.go, `run`).
use truespec_agent.Prelude.{◌≡◌, str_eq, ap, ◌∙◌, true, false, none, some, String, ok, arith}
use truespec_agent.Buffer.{Bytes}
use truespec_agent.Host.{Host, read_file}
use truespec_agent.Host.Laws.{read_file-lookup}
use truespec_agent.Config.{
  Config, load, validate_bootstrap, validate_runtime, mark_bootstrapped, save,
}
use truespec_agent.Config.Laws.{lookup-save, save-read_fails, save-mkdir_fails}
use truespec_agent.Identity.{
  X509, Manager, BootstrapResponse, new_manager, run_bootstrap, needs_rebootstrap, request_identity,
  save_certificates, verify_identity,
}
use truespec_agent.Identity.Rotation.{RefusesEmptyKey, needs_rebootstrap_always, verify_identity_ok}
use truespec_agent.Identity.Saving.{
  HasDistinctPaths, save_certificates-HoldsCertificates, save_certificates-read_fails,
  save_certificates-mkdir_fails,
}
use truespec_agent.Identity.Enrolment.{run_bootstrap_ok}
use truespec_agent.Agent.Defs.{World, obtain_config, renew, verified, ensure_identity, start_up}

module _ (w : World) (path : String) where
  renew_ok :
      (c : Config) {c' : Config} (h : Host) {h' : Host} {m : Manager}
      → run_bootstrap w.at_renewal (record c { bootstrapped = false }) h ≡ (ok c', h')
      → new_manager c' (save w.codec path c' h').1 ≡ ok m
      → renew w path c h ≡ (ok m, (save w.codec path c' h').1)
  unfolding renew
  renew_ok c h ran made = ground arith

  ensure_identity_renewed :
      (c : Config) (h : Host) {h' : Host} {m m' : Manager}
      → new_manager c h ≡ ok m
      → (needs_rebootstrap w.tls w.now h m).0 ≡ true
      → renew w path c h ≡ (ok m', h')
      → ensure_identity w path c h ≡ verified w path m' h'
  unfolding ensure_identity
  ensure_identity_renewed c h made due renewed = ground arith

  start_up_loaded :
      {c : Config} (h : Host)
      → load w.codec path h ≡ ok c
      → validate_runtime c ≡ none
      → start_up w path h ≡ ensure_identity w path c h
  unfolding start_up obtain_config
  start_up_loaded h loaded runnable = ground arith

  verified_ok :
      (m : Manager) {m' : Manager} (h : Host)
      → verify_identity w.tls h m ≡ (none, m')
      → verified w path m h ≡ (ok m', h)
  unfolding verified
  verified_ok m h fine = ground arith

  restart_valid :
      (c : Config)
      → validate_runtime c ≡ none
      → str_eq c.install_token "" ≡ false
      → validate_bootstrap (record c { bootstrapped = false }) ≡ none
  unfolding validate_bootstrap validate_runtime
  restart_valid c runnable token = ground arith

  new_manager_again :
      (c : Config) (h h' : Host) {m : Manager} (agent_id url : String)
      → new_manager c h ≡ ok m
      → h'.mkdir_fails ≡ h.mkdir_fails
      → new_manager (mark_bootstrapped agent_id url (record c { bootstrapped = false })) h' ≡ ok m
  unfolding new_manager mark_bootstrapped
  new_manager_again c h h' agent_id url made same = rw same made

  -- If crypto/tls refuses an empty key, a start with a stored configuration that can run, a token
  -- in it or in the environment, distinct paths and readable files asks the server for a new
  -- identity, whatever the certificate stored. When the server answers with a certificate and key
  -- that crypto/tls takes together, and they can be saved, the agent has the certificate's common
  -- name for its identity.
  pub start_up_restarts :
      {c : Config} {m : Manager} {r : BootstrapResponse} {leaf : Bytes} {x : X509} (h : Host)
      → RefusesEmptyKey w.tls
      → load w.codec path h ≡ ok c
      → validate_runtime c ≡ none
      → str_eq c.install_token "" ≡ false
      → new_manager c h ≡ ok m
      → request_identity w.at_renewal (record c { bootstrapped = false }) h ≡ ok r
      → (save_certificates m r h).0 ≡ none
      → HasDistinctPaths m
      → str_eq path m.cert_path ≡ false
      → str_eq path m.key_path ≡ false
      → h.read_fails m.cert_path ≡ false
      → h.read_fails m.key_path ≡ false
      → w.tls.key_pair r.certificate r.private_key ≡ some leaf
      → w.tls.parse_certificate leaf ≡ some x
      → (start_up w path h).0 ≡ ok (record m { agent_id = x.common_name })
  unfolding new_manager
  start_up_restarts {c} {m} {r} {leaf} {x} h refuses loaded runnable token made answered saved
        distinct off_cert off_key cert_read key_read pair parsed =
      let c' : Config =
        mark_bootstrapped r.agent_id r.api_base_url (record c { bootstrapped = false }) in
      let h' : Host = (save_certificates m r h).1 in
      let h'' : Host = (save w.codec path c' h').1 in
      let (cert_held, key_held, ca_held) =
        save_certificates-HoldsCertificates m r h distinct saved in
      let reads : h''.read_fails ≡ h.read_fails =
        save-read_fails w.codec path c' h' ∙ save_certificates-read_fails m r h in
      let makes : h''.mkdir_fails ≡ h.mkdir_fails =
        save-mkdir_fails w.codec path c' h' ∙ save_certificates-mkdir_fails m r h in
      let cert_found : read_file h'' m.cert_path ≡ ok r.certificate =
        read_file-lookup h'' m.cert_path
          (lookup-save w.codec path c' h' m.cert_path off_cert ∙ cert_held)
          (ap (λ f. f m.cert_path) reads ∙ cert_read) in
      let key_found : read_file h'' m.key_path ≡ ok r.private_key =
        read_file-lookup h'' m.key_path
          (lookup-save w.codec path c' h' m.key_path off_key ∙ key_held)
          (ap (λ f. f m.key_path) reads ∙ key_read) in
      let renewed =
        renew_ok c h
          (run_bootstrap_ok w.at_renewal (record c { bootstrapped = false }) h
            (restart_valid c runnable token) made answered saved)
          (new_manager_again c h h'' r.agent_id r.api_base_url made makes) in
      ap (λ out. out.0)
        (start_up_loaded h loaded runnable
          ∙ ensure_identity_renewed c h made (needs_rebootstrap_always w.tls refuses w.now h m)
              renewed
          ∙ verified_ok m h'' (verify_identity_ok w.tls h'' m cert_found key_found pair parsed))
