-- ===== src/TlsHelper.antt =====
-- tls_helper.go: `buildTLSConfig`. What it reads from the disk, and what crypto/tls and crypto/x509
-- make of it, is the record `Files`.
use coredns_updater_plugin.Base.{
  ◌≡◌, ◌≢◌, inl, inr, Bool, true, false, Option, none, some, [], if◌then◌else◌, Result, ok, err,
  arith, Bool-cases, Option-cases,
}
use coredns_updater_plugin.Text.{Text, is_empty}
use coredns_updater_plugin.Setup.{Tls}

pub record Files : Type 0 where
  -- `tls.LoadX509KeyPair`, and whether it succeeds
  pub load_key_pair : Text → Text → Bool
  -- `os.ReadFile`
  pub read_file : Text → Option Text
  -- `AppendCertsFromPEM`: whether there is a certificate
  pub has_certificate : Text → Bool

pub data TlsError : Type 0 where
  loading_key_pair : TlsError
  reading_ca no_certificate : Text → TlsError

-- `*tls.Config`: the pair of the server, and what clients are asked for. The least version is 1.2 in
-- all cases.
pub record TlsConfig : Type 0 where
  pub cert : Text
  pub key : Text
  pub client_cas : Option Text
  -- `RequireAndVerifyClientCert` instead of `NoClientCert`
  pub verify_client : Bool

-- The part on the CA, for a pair that was loaded.
with_ca : Files → Tls → Result TlsError TlsConfig
with_ca fs t = elim (fs.read_file t.ca) [
  | none ↦ err (reading_ca t.ca)
  | some pem ↦
      if fs.has_certificate pem
      then ok (record { cert = t.cert; key = t.key; client_cas = some pem; verify_client = true })
      else err (no_certificate t.ca)
]

unfoldable pub build_tls_config : Files → Tls → Result TlsError TlsConfig
unfolding with_ca is_empty
build_tls_config fs t =
    if fs.load_key_pair t.cert t.key
    then (if is_empty t.ca
        then ok (record { cert = t.cert; key = t.key; client_cas = none; verify_client = false })
        else with_ca fs t)
    else err loading_key_pair

-- What a configuration for a server may be, given the settings.
pub data IsBuilt (fs : Files) (t : Tls) (cfg : TlsConfig) : Type 0 where
  server_only : t.ca ≡ [] → cfg.client_cas ≡ none → cfg.verify_client ≡ false → IsBuilt fs t cfg
  mutual_tls :
      (pem : Text)
      → t.ca ≢ []
      → fs.read_file t.ca ≡ some pem
      → fs.has_certificate pem ≡ true
      → cfg.client_cas ≡ some pem
      → cfg.verify_client ≡ true
      → IsBuilt fs t cfg

-- A configuration that is built has the pair of the settings, which could be loaded. It asks clients
-- for a certificate, verified against the CA, exactly if the settings name a CA; the file of the CA
-- could be read and holds a certificate.
pub build_tls_config-IsBuilt :
    (fs : Files) (t : Tls) (cfg : TlsConfig)
    → build_tls_config fs t ≡ ok cfg
    → (fs.load_key_pair t.cert t.key ≡ true)
      × (cfg.cert ≡ t.cert)
      × (cfg.key ≡ t.key)
      × IsBuilt fs t cfg
unfolding build_tls_config with_ca is_empty
build_tls_config-IsBuilt fs t cfg h = elim (Bool-cases (is_empty t.ca)) [
  | inl no_ca ↦ (
    ground arith,
    ground arith,
    ground arith,
    server_only (ground arith) (ground arith) (ground arith),
  )
  | inr named ↦ elim (Option-cases (fs.read_file t.ca)) [
    | inl unread ↦ absurd (ground arith)
    | inr (pem, read) ↦ (
      ground arith,
      ground arith,
      ground arith,
      mutual_tls pem (λ e. ground arith) read (ground arith) (ground arith) (ground arith),
    )
  ]
]
