-- ===== src/Identity/Saving.antt =====
-- What `saveCertificates` (internal/identity/bootstrap.go) leaves on the disk.
use truespec_agent.Prelude.{
  ◌≡◌, refl, sym, subst, true, false, none, some, String, str_eq, eq_iff, arith, ◌⊎◌, Bool-cases,
  Option, inl, inr, if◌then◌else◌,
}
use truespec_agent.Buffer.{Bytes}
use truespec_agent.Host.{Host, lookup, write_path}
use truespec_agent.Host.Laws.{lookup-insert, write_path-read_fails, write_path-mkdir_fails}
use truespec_agent.Identity.Defs.{
  Manager, IdentityError, cert_unwritten, key_unwritten, ca_unwritten,
}
use truespec_agent.Identity.Bootstrap.{BootstrapResponse, save_certificates}

-- The three paths differ.
abbrev pub HasDistinctPaths : Manager → Type 0
HasDistinctPaths m =
    (str_eq m.cert_path m.key_path ≡ false)
    × (str_eq m.cert_path m.ca_path ≡ false)
    × (str_eq m.key_path m.ca_path ≡ false)

-- The three files hold what the server has sent.
abbrev pub HoldsCertificates : Manager → BootstrapResponse → Host → Type 0
HoldsCertificates m r h =
    (lookup m.cert_path h.files ≡ some r.certificate)
    × (lookup m.key_path h.files ≡ some r.private_key)
    × (lookup m.ca_path h.files ≡ some r.ca_cert)

lookup-write_path :
    (p q : String) (bytes : Bytes) (h : Host)
    → (write_path p bytes h).0 ≡ true
    → lookup q (write_path p bytes h).1.files
      ≡ (if str_eq p q then some bytes else lookup q h.files)
unfolding write_path
lookup-write_path p q bytes h written = ground (arith, lookup-insert q p bytes h.files)

-- Certificates that are saved without an error are all three on the disk.
pub save_certificates-HoldsCertificates :
    (m : Manager) (r : BootstrapResponse) (h : Host)
    → HasDistinctPaths m
    → (save_certificates m r h).0 ≡ none
    → HoldsCertificates m r (save_certificates m r h).1
unfolding save_certificates
save_certificates-HoldsCertificates m r h distinct saved =
    let h1 = (write_path m.cert_path r.certificate h).1 in
    let h2 = (write_path m.key_path r.private_key h1).1 in
    ground (
      arith,
      lookup-write_path m.cert_path m.cert_path r.certificate h,
      lookup-write_path m.key_path m.cert_path r.private_key h1,
      lookup-write_path m.ca_path m.cert_path r.ca_cert h2,
      lookup-write_path m.key_path m.key_path r.private_key h1,
      lookup-write_path m.ca_path m.key_path r.ca_cert h2,
      lookup-write_path m.ca_path m.ca_path r.ca_cert h2,
      eq_iff m.cert_path m.cert_path,
      eq_iff m.key_path m.key_path,
      eq_iff m.ca_path m.ca_path,
      eq_iff m.cert_path m.key_path,
      eq_iff m.key_path m.cert_path,
      eq_iff m.cert_path m.ca_path,
      eq_iff m.ca_path m.cert_path,
      eq_iff m.key_path m.ca_path,
      eq_iff m.ca_path m.key_path,
    )

-- Two of the three paths are one.
abbrev pub HasClash : Manager → Type 0
HasClash m =
    (str_eq m.cert_path m.key_path ≡ true)
    ⊎ ((str_eq m.cert_path m.ca_path ≡ true) ⊎ (str_eq m.key_path m.ca_path ≡ true))

paths_clash_or_differ : (m : Manager) → HasClash m ⊎ HasDistinctPaths m
paths_clash_or_differ m = elim (Bool-cases (str_eq m.cert_path m.key_path)) [
  | inl same ↦ inl (inl same)
  | inr apart ↦ elim (Bool-cases (str_eq m.cert_path m.ca_path)) [
    | inl same ↦ inl (inr (inl same))
    | inr apart' ↦ elim (Bool-cases (str_eq m.key_path m.ca_path)) [
      | inl same ↦ inl (inr (inr same))
      | inr apart'' ↦ inr (apart, apart', apart'')
    ]
  ]
]

-- The disk after a save that has failed at one of the three files: those before it are written, it
-- is not written in full, and those after it are not touched.
abbrev pub IsUnsaved : Manager → BootstrapResponse → Host → IdentityError → Host → Type 0
IsUnsaved m r h cert_unwritten h' = write_path m.cert_path r.certificate h ≡ (false, h')
IsUnsaved m r h key_unwritten h' =
    (h1 : Host) × (write_path m.cert_path r.certificate h ≡ (true, h1))
    × (write_path m.key_path r.private_key h1 ≡ (false, h'))
IsUnsaved m r h ca_unwritten h' =
    (h1 : Host) × (h2 : Host) × (write_path m.cert_path r.certificate h ≡ (true, h1))
    × (write_path m.key_path r.private_key h1 ≡ (true, h2))
    × (write_path m.ca_path r.ca_cert h2 ≡ (false, h'))
IsUnsaved m r h _ h' = ⊥

module _ (m : Manager) (r : BootstrapResponse) (h : Host) where
  abbrev after_cert : Host
  after_cert = (write_path m.cert_path r.certificate h).1

  abbrev after_key : Host
  after_key = (write_path m.key_path r.private_key after_cert).1

  abbrev after_ca : Host
  after_ca = (write_path m.ca_path r.ca_cert after_key).1

  save_certificates_no_cert :
      (write_path m.cert_path r.certificate h).0 ≡ false
      → save_certificates m r h ≡ (some cert_unwritten, after_cert)
  unfolding save_certificates
  save_certificates_no_cert bad = rw (bad, save_certificates) refl

  save_certificates_no_key :
      (write_path m.cert_path r.certificate h).0 ≡ true
      → (write_path m.key_path r.private_key after_cert).0 ≡ false
      → save_certificates m r h ≡ (some key_unwritten, after_key)
  unfolding save_certificates
  save_certificates_no_key good bad = rw (good, bad, save_certificates) refl

  save_certificates_no_ca :
      (write_path m.cert_path r.certificate h).0 ≡ true
      → (write_path m.key_path r.private_key after_cert).0 ≡ true
      → (write_path m.ca_path r.ca_cert after_key).0 ≡ false
      → save_certificates m r h ≡ (some ca_unwritten, after_ca)
  unfolding save_certificates
  save_certificates_no_ca good good' bad = rw (good, good', bad, save_certificates) refl

  save_certificates_ok :
      (write_path m.cert_path r.certificate h).0 ≡ true
      → (write_path m.key_path r.private_key after_cert).0 ≡ true
      → (write_path m.ca_path r.ca_cert after_key).0 ≡ true
      → save_certificates m r h ≡ (none, after_ca)
  unfolding save_certificates
  save_certificates_ok good good' good'' = rw (good, good', good'', save_certificates) refl

  abbrev IsSaved : Option IdentityError × Host → Type 0
  IsSaved (none, h') = Unit
  IsSaved (some e, h') = IsUnsaved m r h e h'

  save_certificates-IsSaved : IsSaved (save_certificates m r h)
  save_certificates-IsSaved = elim (Bool-cases (write_path m.cert_path r.certificate h).0) [
    | inr bad ↦
        subst (λ out. IsSaved out) (sym (save_certificates_no_cert bad)) λ i. (bad i, after_cert)
    | inl good ↦ elim (Bool-cases (write_path m.key_path r.private_key after_cert).0) [
      | inr bad ↦
          subst (λ out. IsSaved out) (sym (save_certificates_no_key good bad))
            (after_cert, (λ i. (good i, after_cert)), λ i. (bad i, after_key))
      | inl good' ↦ elim (Bool-cases (write_path m.ca_path r.ca_cert after_key).0) [
        | inr bad ↦
            subst (λ out. IsSaved out) (sym (save_certificates_no_ca good good' bad))
              (
                after_cert,
                after_key,
                (λ i. (good i, after_cert)),
                (λ i. (good' i, after_key)),
                λ i. (bad i, after_ca),
              )
        | inl good'' ↦ subst (λ out. IsSaved out) (sym (save_certificates_ok good good' good'')) tt
      ]
    ]
  ]

  pub save_certificates-IsUnsaved :
      {e : IdentityError}
      → (save_certificates m r h).0 ≡ some e
      → IsUnsaved m r h e (save_certificates m r h).1
  save_certificates-IsUnsaved failed =
      subst (λ e. IsSaved (e, (save_certificates m r h).1)) failed save_certificates-IsSaved

pub saved-HoldsCertificates :
    (m : Manager) (r : BootstrapResponse) (h : Host)
    → (save_certificates m r h).0 ≡ none
    → HasClash m ⊎ HoldsCertificates m r (save_certificates m r h).1
saved-HoldsCertificates m r h saved = elim (paths_clash_or_differ m) [
  | inl clash ↦ inl clash
  | inr distinct ↦ inr (save_certificates-HoldsCertificates m r h distinct saved)
]

module _ (m : Manager) (r : BootstrapResponse) (h : Host) where
  pub save_certificates-read_fails : (save_certificates m r h).1.read_fails ≡ h.read_fails
  unfolding save_certificates
  save_certificates-read_fails =
      let h1 = (write_path m.cert_path r.certificate h).1 in
      let h2 = (write_path m.key_path r.private_key h1).1 in
      ground (
        arith,
        write_path-read_fails m.cert_path r.certificate h,
        write_path-read_fails m.key_path r.private_key h1,
        write_path-read_fails m.ca_path r.ca_cert h2,
      )

  pub save_certificates-mkdir_fails : (save_certificates m r h).1.mkdir_fails ≡ h.mkdir_fails
  unfolding save_certificates
  save_certificates-mkdir_fails =
      let h1 = (write_path m.cert_path r.certificate h).1 in
      let h2 = (write_path m.key_path r.private_key h1).1 in
      ground (
        arith,
        write_path-mkdir_fails m.cert_path r.certificate h,
        write_path-mkdir_fails m.key_path r.private_key h1,
        write_path-mkdir_fails m.ca_path r.ca_cert h2,
      )
