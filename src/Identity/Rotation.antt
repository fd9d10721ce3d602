-- ===== src/Identity/Rotation.antt =====
-- `NeedsRebootstrap` and `VerifyIdentity` (internal/identity/bootstrap.go).
use truespec_agent.Prelude.{◌≡◌, true, none, some, [], ok, arith, inl, inr, Result-cases}
use truespec_agent.Prelude.Int.{ℤ}
use truespec_agent.Buffer.{Bytes}
use truespec_agent.Host.{Host, read_file}
use truespec_agent.Identity.Defs.{
  X509, Tls, Manager, verify_identity, expires_soon, needs_rebootstrap,
}

module _ (tls : Tls) where
  -- What crypto/tls documents: a pair with no key in it is an error.
  abbrev pub RefusesEmptyKey : Type 0
  RefusesEmptyKey = (cert : Bytes) → tls.key_pair cert [] ≡ none

  expires_soon_always :
      RefusesEmptyKey → (now : ℤ) (cert : Bytes) → expires_soon tls now cert ≡ true
  unfolding expires_soon
  expires_soon_always refuses now cert = ground (arith, refuses cert)

  -- `NeedsRebootstrap` always says yes, whatever is stored and however long the certificate is
  -- valid, since it parses the certificate with an empty key, which crypto/tls refuses.
  pub needs_rebootstrap_always :
      RefusesEmptyKey
      → (now : ℤ) (h : Host) (m : Manager) → (needs_rebootstrap tls now h m).0 ≡ true
  unfolding needs_rebootstrap
  needs_rebootstrap_always refuses now h m = elim (Result-cases (read_file h m.cert_path)) [
    | inl (cert, found) ↦ ground (arith, expires_soon_always refuses now cert)
    | inr (e, lost) ↦ ground arith
  ]

  -- With both files readable, a pair that crypto/tls takes and a certificate that parses,
  -- `VerifyIdentity` succeeds, and the agent's identity is the certificate's common name.
  pub verify_identity_ok :
      (h : Host) (m : Manager) {cert key leaf : Bytes} {x : X509}
      → read_file h m.cert_path ≡ ok cert
      → read_file h m.key_path ≡ ok key
      → tls.key_pair cert key ≡ some leaf
      → tls.parse_certificate leaf ≡ some x
      → verify_identity tls h m ≡ (none, record m { agent_id = x.common_name })
  unfolding verify_identity
  verify_identity_ok h m cert key pair parsed = ground arith
