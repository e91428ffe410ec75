-- ===== src/Tls/Identity.antt =====
-- The identity of a client certificate, and whose a request over its connection is.
use indexer_gateway_auth.Prelude.{
  String, ◌≡◌, refl, ◌↔◌, ◌⊎◌, inl, inr, false, Option, none, some, List, [], ◌∷◌, ◌++◌, Memᴰ,
  arith, eq_iff,
}
use indexer_gateway_auth.Prelude.{ok, Option-cases, flat_map, and_then}
use indexer_gateway_auth.Prelude.Sets.{contains-append, ◌∈◌}
use indexer_gateway_auth.Principal.{Principal}
use indexer_gateway_auth.Auth.{mtls_auth, authenticate, resolve}
use indexer_gateway_auth.Auth.Mtls.{ClientCert, Mapping, MtlsBackend, mapping_principal}
use indexer_gateway_auth.Auth.Mtls.Laws.{FirstMatch, cert_cases}
use indexer_gateway_auth.Server.{Deps, Inner, HttpRequest, Moment}
use indexer_gateway_auth.Server.Ends.{authn}
use indexer_gateway_auth.Tls.{
  GeneralName, dns_name, rfc822_name, uri, other_name, X509Certificate, first_name, san_of, sans_of,
  leaf_of, identity_of, extract_identity, with_identity,
}

-- The text that a name of the extension has, if the program reads names of its kind.
abbrev pub Names : GeneralName → String → Type 0
Names (dns_name s) x = s ≡ x
Names (rfc822_name s) x = s ≡ x
Names (uri s) x = s ≡ x
Names other_name x = ⊥

∈-append_iff : (xs ys : List String) (x : String) → (x ∈ xs ++ ys) ↔ ((x ∈ xs) ⊎ (x ∈ ys))
∈-append_iff xs ys x = ground (arith, contains-append xs ys x)

san_of_iff : (name : GeneralName) (x : String) → (x ∈ san_of name) ↔ Names name x
san_of_iff (dns_name s) x = ground (arith, eq_iff s x)
san_of_iff (rfc822_name s) x = ground (arith, eq_iff s x)
san_of_iff (uri s) x = ground (arith, eq_iff s x)
san_of_iff other_name x = (λ h. cc, λ h. absurd h)

flat_map-san_of :
    (names : List GeneralName) (x : String)
    → (x ∈ flat_map san_of names) ↔ ((name : GeneralName) × Memᴰ name names × Names name x)
flat_map-san_of [] x = (λ h. cc, λ (_, m, _). elim m [ ])
flat_map-san_of (n ∷ ns) x =
    let (split, join) = ∈-append_iff (san_of n) (flat_map san_of ns) x in
    let (to, from) = flat_map-san_of ns x in
    (
      λ h. elim (split h) [
        | inl here ↦ (n, Memᴰ.head refl, (san_of_iff n x).0 here)
        | inr rest ↦ let (name, m, is) = to rest in (name, Memᴰ.tail m, is)
      ],
      λ (name, m, is). elim m [
        | Memᴰ.head e ↦ join (inl ((san_of_iff n x).1 (rw (← e) is)))
        | Memᴰ.tail later ↦ join (inr (from (name, later, is)))
      ],
    )

module _ {Cert : Type 0} (from_der : Cert → Option X509Certificate) where
  -- The identity is that of the first certificate: its first common name, if that is a text, and
  -- the host names, addresses of mail and URIs of its alternative names.
  pub record IsIdentity (certs : List Cert) (id : ClientCert) : Type 0 where
    pub leaf : Cert
    pub cert : X509Certificate
    pub presented : leaf_of certs ≡ some leaf
    pub parsed : from_der leaf ≡ some cert
    pub common_name : id.subject_cn ≡ first_name cert.common_names
    pub alternative_names :
        (x : String)
        → (x ∈ id.sans) ↔ (
            (names : List GeneralName) × (name : GeneralName) × (cert.subject_alternative_name
              ≡ some names)
            × Memᴰ name names
            × Names name x)

  sans_of_iff :
      (o : Option (List GeneralName)) (x : String)
      → (x ∈ sans_of o) ↔ (
          (names : List GeneralName) × (name : GeneralName) × (o ≡ some names)
          × Memᴰ name names
          × Names name x)
  unfolding sans_of
  sans_of_iff none x = (λ h. cc, λ (_, _, e, _, _). cc)
  sans_of_iff (some ns) x =
      let (to, from) = flat_map-san_of ns x in
      (
        λ h. let (name, m, is) = to h in (ns, name, refl, m, is),
        λ (names, name, e, m, is). from (name, (let same : names ≡ ns = cc in rw (← same) m), is),
      )

  extract_identity-IsIdentity :
      (certs : List Cert) (id : ClientCert)
      → extract_identity from_der certs ≡ some id
      → IsIdentity certs id
  unfolding extract_identity
  extract_identity-IsIdentity certs id h = elim (Option-cases (leaf_of certs)) [
    | inl e ↦ absurd (ground arith)
    | inr (leaf, e) ↦ elim (Option-cases (from_der leaf)) [
      | inl f ↦ absurd (ground arith)
      | inr (cert, f) ↦
          let same : id ≡ identity_of cert = ground arith in
          record {
            leaf = leaf;
            cert = cert;
            presented = e;
            parsed = f;
            common_name = rw same refl;
            alternative_names = rw same (sans_of_iff cert.subject_alternative_name);
          }
    ]
  ]

module _ {Key Jwk Limiter Cert : Type 0} (deps : Deps Key Jwk Limiter) (state : Inner Key)
    (req : HttpRequest) (at : Moment) (from_der : Cert → Option X509Certificate) where
  -- Where callers are known by their certificates and anonymous reading is off, a request over a
  -- connection is somebody's only if the connection presented certificates of which the first can be
  -- parsed; and then it is that of the first mapping that this certificate's identity has.
  pub with_identity-authn :
      (backend : MtlsBackend) (peer_certificates : Option (List Cert)) (p : Principal)
      → state.authenticator ≡ mtls_auth backend
      → state.allow_anonymous_read ≡ false
      → authn deps state (with_identity from_der peer_certificates req) at ≡ ok p
      → (certs : List Cert) × (id : ClientCert) × (m : Mapping) × (peer_certificates ≡ some certs)
        × IsIdentity from_der certs id
        × FirstMatch id backend.mappings m
        × (p ≡ mapping_principal m)
  unfolding authenticate resolve with_identity
  with_identity-authn backend peer p auth off h =
      elim (Option-cases (and_then peer (extract_identity from_der))) [
        | inl e ↦ absurd (ground arith)
        | inr (id, e) ↦ elim (Option-cases peer) [
          | inl f ↦ absurd (ground arith)
          | inr (certs, f) ↦ elim (cert_cases backend id) [
            | inr (_, g) ↦ absurd (ground arith)
            | inl (m, first, g) ↦ (
              certs,
              id,
              m,
              f,
              extract_identity-IsIdentity from_der certs id (ground arith),
              first,
              ground arith,
            )
          ]
        ]
      ]
