-- ===== src/Tls.antt =====
-- src/tls.rs: the server's TLS configuration, and the identity of a client certificate. The crates
-- rustls, rustls-pemfile and x509-parser are arguments, and so is the file system; an error is the
-- text of its outermost context.
pub mod Server
pub mod Identity
pub mod Serve
use Prim.Native.String
use indexer_gateway_auth.Prelude.{
  String, Bool, true, false, Option, none, some, List, [], ◌∷◌, ◌++◌,
}
use indexer_gateway_auth.Prelude.{
  Bytes, Result, ok, err, ◌>>=◌, ok_or, map_err, and_then, flat_map, is_empty, if◌then◌else◌,
}
use indexer_gateway_auth.Config.{Tls}
use indexer_gateway_auth.Auth.Mtls.{ClientCert}
use indexer_gateway_auth.Server.{HttpRequest}

-- `certs` and `private_key` read PEM; `with_single_cert` makes the server's configuration, which
-- verifies clients if a verifier is given.
pub record Rustls (Cert PrivateKey Roots Verifier ServerConfig : Type 0) : Type 0 where
  pub read : String → Result String Bytes
  pub certs : Bytes → Result String (List Cert)
  pub private_key : Bytes → Result String (Option PrivateKey)
  pub empty : Roots
  pub add : Roots → Cert → Result String Roots
  pub protocol_versions : Result {0, 0} String Unit
  pub verifier : Roots → Result String Verifier
  pub with_single_cert : Option Verifier → List Cert → PrivateKey → Result String ServerConfig

module _ {Cert PrivateKey Roots Verifier ServerConfig : Type 0}
    (rustls : Rustls Cert PrivateKey Roots Verifier ServerConfig) where
  abbrev context : {A : Type 0} → String → Result String A → Result String A
  context text r = map_err (λ _. text) r

  unfoldable pub load_certs : String → Result String (List Cert)
  load_certs path = do
    data_read ← context (String.◌++◌ "reading " path) (rustls.read path)
    found ← context (String.◌++◌ "parsing certificates from " path) (rustls.certs data_read)
    if is_empty found then err (String.◌++◌ "no certificates in " path) else ok found

  unfoldable pub load_private_key : String → Result String PrivateKey
  load_private_key path = do
    data_read ← context (String.◌++◌ "reading " path) (rustls.read path)
    found ← context (String.◌++◌ "parsing private key from " path) (rustls.private_key data_read)
    ok_or found (String.◌++◌ "no private key found in " path)

  -- The loop over the certificates.
  unfoldable pub add_all : String → Roots → List Cert → Result String Roots
  add_all path roots [] = ok roots
  add_all path roots (cert ∷ rest) = do
    next ←
        context (String.◌++◌ "adding CA from " (String.◌++◌ path " to trust store"))
          (rustls.add roots cert)
    add_all path next rest

  unfoldable pub load_root_store : String → Result String Roots
  load_root_store path = do found ← load_certs path; add_all path rustls.empty found

  -- The verifier of a server that requires client certificates.
  unfoldable pub client_verifier : Tls → Result String (Option Verifier)
  client_verifier tls =
      if tls.require_client_cert
      then (do
        ca_path ← ok_or tls.client_ca "require_client_cert requires tls.client_ca"
        roots ← load_root_store ca_path
        verifier ← context "building client certificate verifier" (rustls.verifier roots)
        ok (some verifier))
      else ok none

  unfoldable pub load_server_config : Tls → Result String ServerConfig
  load_server_config tls = do
    cert_path ← ok_or tls.cert "tls.enabled requires tls.cert"
    key_path ← ok_or tls.key "tls.enabled requires tls.key"
    found ← load_certs cert_path
    key ← load_private_key key_path
    versions ← context "configuring TLS protocol versions" rustls.protocol_versions
    verifier ← client_verifier tls
    context "loading server certificate/key" (rustls.with_single_cert verifier found key)

-- What the program reads of a certificate that x509-parser has parsed. A common name that is no
-- text is `none`, and so is an extension that is absent or malformed.
pub data GeneralName : Type 0 where
  dns_name rfc822_name uri : String → GeneralName
  other_name : GeneralName

pub record X509Certificate : Type 0 where
  pub common_names : List (Option String)
  pub subject_alternative_name : Option (List GeneralName)

abbrev pub first_name : List (Option String) → Option String
first_name [] = none
first_name (name ∷ names) = name

abbrev pub san_of : GeneralName → List String
san_of (dns_name s) = s ∷ []
san_of (rfc822_name s) = s ∷ []
san_of (uri s) = s ∷ []
san_of other_name = []

unfoldable pub sans_of : Option (List GeneralName) → List String
sans_of none = []
sans_of (some names) = flat_map san_of names

abbrev pub leaf_of : {Cert : Type 0} → List Cert → Option Cert
leaf_of [] = none
leaf_of (cert ∷ certs) = some cert

abbrev pub identity_of : X509Certificate → ClientCert
identity_of cert = record {
  subject_cn = first_name cert.common_names;
  sans = sans_of cert.subject_alternative_name;
}

module _ {Cert : Type 0} (from_der : Cert → Option X509Certificate) where
  unfoldable pub extract_identity : List Cert → Option ClientCert
  extract_identity certs =
      and_then (and_then (leaf_of certs) from_der) (λ cert. some (identity_of cert))

  -- `serve_connection`: a request carries the identity of the certificates that its connection
  -- presented, if there is one.
  unfoldable pub with_identity : Option (List Cert) → HttpRequest → HttpRequest
  with_identity peer_certificates req = record req {
    client_cert = and_then peer_certificates extract_identity;
  }
