-- ===== src/Tls/Server.antt =====
-- When the server verifies its clients.
use indexer_gateway_auth.Prelude.{
  String, ◌≡◌, inl, inr, true, false, Option, none, some, List, arith,
}
use indexer_gateway_auth.Prelude.{ok, Result-cases, Option-cases, Bool-cases, is_empty}
use indexer_gateway_auth.Config.{Tls}
use indexer_gateway_auth.Tls.{
  Rustls, load_certs, add_all, load_root_store, load_private_key, client_verifier,
  load_server_config,
}

module _ {Cert PrivateKey Roots Verifier ServerConfig : Type 0}
    (rustls : Rustls Cert PrivateKey Roots Verifier ServerConfig) where
  -- The roots are those that adding each certificate of the file gives; the file has at least one.
  pub record IsTrusted (path : String) (roots : Roots) : Type 0 where
    pub cas : List Cert
    pub loaded : load_certs rustls path ≡ ok cas
    pub some_ca : is_empty cas ≡ false
    pub added : add_all rustls path rustls.empty cas ≡ ok roots

  -- How a server's configuration comes about: with a verifier exactly if client certificates are
  -- required, and that one over the trusted roots of the file that the configuration names.
  pub data IsVerifying (tls : Tls) : Option Verifier → Type 0 where
    open_to_all : tls.require_client_cert ≡ false → IsVerifying tls none
    verifying :
        {verifier : Verifier} (ca_path : String) (roots : Roots)
        → tls.require_client_cert ≡ true
        → tls.client_ca ≡ some ca_path
        → IsTrusted ca_path roots
        → rustls.verifier roots ≡ ok verifier
        → IsVerifying tls (some verifier)

  load_certs-nonempty :
      (path : String) (cas : List Cert) → load_certs rustls path ≡ ok cas → is_empty cas ≡ false
  unfolding load_certs
  load_certs-nonempty path cas h = elim (Result-cases (rustls.read path)) [
    | inr (x, e) ↦ absurd (ground arith)
    | inl (bytes, e) ↦ elim (Result-cases (rustls.certs bytes)) [
      | inr (x, f) ↦ absurd (ground arith)
      | inl (found, f) ↦ elim (Bool-cases (is_empty found)) [
        | inl g ↦ absurd (ground arith)
        | inr g ↦ ground arith
      ]
    ]
  ]

  load_root_store-IsTrusted :
      (path : String) (roots : Roots)
      → load_root_store rustls path ≡ ok roots
      → IsTrusted path roots
  unfolding load_root_store
  load_root_store-IsTrusted path roots h = elim (Result-cases (load_certs rustls path)) [
    | inr (x, e) ↦ absurd (ground arith)
    | inl (cas, e) ↦ record {
      cas = cas;
      loaded = e;
      some_ca = load_certs-nonempty path cas e;
      added = ground arith;
    }
  ]

  client_verifier-IsVerifying :
      (tls : Tls) (v : Option Verifier) → client_verifier rustls tls ≡ ok v → IsVerifying tls v
  unfolding client_verifier
  client_verifier-IsVerifying tls v h = elim (Bool-cases tls.require_client_cert) [
    | inr r ↦ let same : v ≡ none = ground arith in rw same (open_to_all r)
    | inl r ↦ elim (Option-cases tls.client_ca) [
      | inl c ↦ absurd (ground arith)
      | inr (path, c) ↦ elim (Result-cases (load_root_store rustls path)) [
        | inr (x, e) ↦ absurd (ground arith)
        | inl (roots, e) ↦ elim (Result-cases (rustls.verifier roots)) [
          | inr (x, f) ↦ absurd (ground arith)
          | inl (verifier, f) ↦
              let same : v ≡ some verifier = ground arith in
              rw same (verifying path roots r c (load_root_store-IsTrusted path roots e) f)
        ]
      ]
    ]
  ]

  -- A server starts only with a certificate and a key that were loaded; and where client
  -- certificates are required, only with a verifier over the roots of the configured file, of which
  -- there is at least one. Where they are not required, it has no verifier.
  pub load_server_config-IsVerifying :
      (tls : Tls) (config : ServerConfig)
      → load_server_config rustls tls ≡ ok config
      → (v : Option Verifier) × (cert_path : String) × (key_path : String) × (found : List Cert)
        × (key : PrivateKey) × IsVerifying tls v
        × (tls.cert ≡ some cert_path)
        × (tls.key ≡ some key_path)
        × (load_certs rustls cert_path ≡ ok found)
        × (load_private_key rustls key_path ≡ ok key)
        × (rustls.with_single_cert v found key ≡ ok config)
  unfolding load_server_config
  load_server_config-IsVerifying tls config h = elim (Option-cases tls.cert) [
    | inl c ↦ absurd (ground arith)
    | inr (cert_path, c) ↦ elim (Option-cases tls.key) [
      | inl k ↦ absurd (ground arith)
      | inr (key_path, k) ↦ elim (Result-cases (load_certs rustls cert_path)) [
        | inr (x, e) ↦ absurd (ground arith)
        | inl (found, e) ↦ elim (Result-cases (load_private_key rustls key_path)) [
          | inr (x, f) ↦ absurd (ground arith)
          | inl (key, f) ↦ elim (Result-cases (client_verifier rustls tls)) [
            | inr (x, g) ↦ absurd (ground arith)
            | inl (v, g) ↦
                let made : rustls.with_single_cert v found key ≡ ok config = ground arith in
                (
                  v,
                  cert_path,
                  key_path,
                  found,
                  key,
                  client_verifier-IsVerifying tls v g,
                  c,
                  k,
                  e,
                  f,
                  made,
                )
          ]
        ]
      ]
    ]
  ]
