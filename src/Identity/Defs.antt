-- ===== src/Identity/Defs.antt =====
-- The manager of certificates in internal/identity/bootstrap.go. The packages crypto/tls and
-- crypto/x509 are parameters.
use truespec_agent.Prelude.{
  second, ◌*◌, Bool, true, false, not, Option, none, some, String, [], Result, ok, err,
  if◌then◌else◌,
}
use truespec_agent.Prelude.Int.{ℤ, pos, ltb_ℤ, ◌-ℤ◌}
use truespec_agent.Buffer.{Bytes}
use truespec_agent.Host.{Host, read_file, is_missing}
use truespec_agent.Config.{Config}

-- The fields of an `x509.Certificate` that the code reads.
pub record X509 : Type 0 where
  pub common_name : String
  pub not_after : ℤ

-- `tls.X509KeyPair`, which gives the bytes of the leaf certificate, `x509.ParseCertificate`, and
-- `AppendCertsFromPEM`; `none` is an error.
pub record Tls : Type 0 where
  pub key_pair : Bytes → Bytes → Option Bytes
  pub parse_certificate : Bytes → Option X509
  pub append_certs_from_pem : Bytes → Bool

pub record Manager : Type 0 where
  pub agent_id : String
  pub cert_path : String
  pub key_path : String
  pub ca_path : String

pub data IdentityError : Type 0 where
  mkdir_failed cert_unreadable key_unreadable ca_unreadable pair_invalid cert_invalid ca_invalid :
      IdentityError
  cert_unwritten key_unwritten ca_unwritten : IdentityError

unfoldable pub new_manager : Config → Host → Result IdentityError Manager
new_manager c h =
    if h.mkdir_fails c.tls_config.cert_file
    then err mkdir_failed
    else ok (record {
      agent_id = "";
      cert_path = c.tls_config.cert_file;
      key_path = c.tls_config.key_file;
      ca_path = c.tls_config.ca_file;
    })

unfoldable pub has_identity : Host → Manager → Bool
has_identity h m =
    if is_missing h m.cert_path
    then false
    else if is_missing h m.key_path
    then false
    else if is_missing h m.ca_path
    then false
    else true

module _ (tls : Tls) where
  -- The part of `VerifyIdentity` after both files are read; it sets the agent's identity.
  unfoldable pub verify_pair : Bytes → Bytes → Manager → Option IdentityError × Manager
  verify_pair cert key m = elim (tls.key_pair cert key) [
    | none ↦ (some pair_invalid, m)
    | some leaf ↦ elim (tls.parse_certificate leaf) [
      | none ↦ (some cert_invalid, m)
      | some x ↦ (none, record m { agent_id = x.common_name })
    ]
  ]

  unfoldable pub verify_identity : Host → Manager → Option IdentityError × Manager
  unfolding verify_pair
  verify_identity h m = elim (read_file h m.cert_path) [
    | err _ ↦ (some cert_unreadable, m)
    | ok cert ↦ elim (read_file h m.key_path) [
      | err _ ↦ (some key_unreadable, m)
      | ok key ↦ verify_pair cert key m
    ]
  ]

  -- The last part of `NeedsRebootstrap`: it takes the certificate with no key. `now` is the time.
  unfoldable pub expires_soon : ℤ → Bytes → Bool
  expires_soon now cert = elim (tls.key_pair cert []) [
    | none ↦ true
    | some leaf ↦ elim (tls.parse_certificate leaf) [
      | none ↦ true
      | some x ↦ ltb_ℤ (x.not_after -ℤ now) (pos (24 * 3600 * second))
    ]
  ]

  -- It verifies the identity on the way, which changes the manager.
  unfoldable pub needs_rebootstrap : ℤ → Host → Manager → Bool × Manager
  unfolding verify_identity has_identity expires_soon
  needs_rebootstrap now h m =
      let (e, m') = verify_identity h m in
      if not (has_identity h m) then (true, m) else elim e [
        | some _ ↦ (true, m')
        | none ↦ elim (read_file h m.cert_path) [
          | err _ ↦ (true, m')
          | ok cert ↦ (expires_soon now cert, m')
        ]
      ]

  -- `GetTLSConfig`, as far as `GetHTTPClient` can fail on it.
  unfoldable pub get_http_client : Host → Manager → Option IdentityError
  get_http_client h m = elim (read_file h m.cert_path) [
    | err _ ↦ some cert_unreadable
    | ok cert ↦ elim (read_file h m.key_path) [
      | err _ ↦ some key_unreadable
      | ok key ↦ elim (tls.key_pair cert key) [
        | none ↦ some pair_invalid
        | some _ ↦ elim (read_file h m.ca_path) [
          | err _ ↦ some ca_unreadable
          | ok ca ↦ if tls.append_certs_from_pem ca then none else some ca_invalid
        ]
      ]
    ]
  ]
