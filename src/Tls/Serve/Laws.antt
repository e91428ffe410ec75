-- ===== src/Tls/Serve/Laws.antt =====
-- Whose the requests of TLS connections are.
use indexer_gateway_auth.Prelude.{
  ◌≡◌, refl, ap, ◌⊎◌, inl, inr, sym, subst, true, false, Option, some, List, [], ◌∷◌, ◌++◌, map,
  Memᴰ,
}
use indexer_gateway_auth.Prelude.{ok, Bool-cases}
use indexer_gateway_auth.Principal.{Principal}
use indexer_gateway_auth.Auth.{mtls_auth}
use indexer_gateway_auth.Auth.Mtls.{ClientCert, Mapping, MtlsBackend, mapping_principal}
use indexer_gateway_auth.Auth.Mtls.Laws.{FirstMatch}
use indexer_gateway_auth.Server.{Deps, Inner, HttpRequest, Moment}
use indexer_gateway_auth.Server.Ends.{authn}
use indexer_gateway_auth.Tls.{X509Certificate, with_identity}
use indexer_gateway_auth.Tls.Identity.{IsIdentity, with_identity-authn}
use indexer_gateway_auth.Tls.Serve.{
  Connection, Accepted, connection, accept_error, shutdown, over_connection, serve_connection,
  serve,
}

-- The connection was accepted before the loop ended.
pub data IsServed {Cert : Type 0} (c : Connection Cert) : List (Accepted Cert) → Type 0 where
  now : {rest : List (Accepted Cert)} → IsServed c (connection c ∷ rest)
  later :
      {d : Connection Cert} {rest : List (Accepted Cert)}
      → IsServed c rest
      → IsServed c (connection d ∷ rest)

Memᴰ-append-cases {ℓ} :
    {A : Type ℓ} {a : A} (xs ys : List A) → Memᴰ a (xs ++ ys) → Memᴰ a xs ⊎ Memᴰ a ys
Memᴰ-append-cases [] ys m = inr m
Memᴰ-append-cases (x ∷ xs) ys (Memᴰ.head e) = inl (Memᴰ.head e)
Memᴰ-append-cases (x ∷ xs) ys (Memᴰ.tail m) = elim (Memᴰ-append-cases xs ys m) [
  | inl here ↦ inl (Memᴰ.tail here)
  | inr there ↦ inr there
]

Memᴰ-map-cases :
    {A B : Type 0} (f : A → B) {b : B} (xs : List A)
    → Memᴰ b (map f xs)
    → (a : A) × Memᴰ a xs × (b ≡ f a)
Memᴰ-map-cases f [] m = elim m [ ]
Memᴰ-map-cases f (x ∷ xs) (Memᴰ.head e) = (x, Memᴰ.head refl, e)
Memᴰ-map-cases f (x ∷ xs) (Memᴰ.tail m) =
    let (a, n, e) = Memᴰ-map-cases f xs m in (a, Memᴰ.tail n, e)

module _ {Cert : Type 0} (from_der : Cert → Option X509Certificate) where
  -- A request that reaches the router is one of a connection that was served and whose handshake was
  -- done, with that connection's address and identity.
  pub record IsFrom (events : List (Accepted Cert)) (q : HttpRequest × Moment) : Type 0 where
    pub origin : Connection Cert
    pub sent : HttpRequest
    pub served : IsServed origin events
    pub handshake : origin.handshake ≡ true
    pub member : Memᴰ (sent, q.1) origin.requests
    pub same : q.0 ≡ over_connection from_der origin sent

  serve_connection-IsFrom :
      (c : Connection Cert) (rest : List (Accepted Cert)) (q : HttpRequest × Moment)
      → Memᴰ q (serve_connection from_der c)
      → IsFrom (connection c ∷ rest) q
  unfolding serve_connection
  serve_connection-IsFrom c rest q m = elim (Bool-cases c.handshake) [
    | inr e ↦ elim (no_member (rw e at m)) [ ]
    | inl e ↦
        let (a, n, f) =
          Memᴰ-map-cases (λ (x : HttpRequest × Moment). (over_connection from_der c x.0, x.1))
            c.requests (rw e at m) in
        record {
          origin = c;
          sent = a.0;
          served = now;
          handshake = e;
          member =
              subst (λ (t : Moment). Memᴰ (a.0, t) c.requests)
                (sym (ap (λ (x : HttpRequest × Moment). x.1) f)) n;
          same = ap (λ (x : HttpRequest × Moment). x.0) f;
        }
  ]
    where
      no_member : {p : HttpRequest × Moment} → Memᴰ p [] → ⊥
      no_member k = elim k [ ]

  serve-IsFrom :
      (events : List (Accepted Cert)) (q : HttpRequest × Moment)
      → Memᴰ q (serve from_der events).0
      → IsFrom events q
  unfolding serve
  serve-IsFrom [] q m = elim m [ ]
  serve-IsFrom (shutdown ∷ rest) q m = elim m [ ]
  serve-IsFrom (accept_error e ∷ rest) q m = elim m [ ]
  serve-IsFrom (connection c ∷ rest) q m =
      elim (Memᴰ-append-cases (serve_connection from_der c) (serve from_der rest).0 m) [
        | inl here ↦ serve_connection-IsFrom c rest q here
        | inr there ↦
            let f = serve-IsFrom rest q there in
            record {
              origin = f.origin;
              sent = f.sent;
              served = later f.served;
              handshake = f.handshake;
              member = f.member;
              same = f.same;
            }
      ]

module _ {Key Jwk Limiter Cert : Type 0} (deps : Deps Key Jwk Limiter) (state : Inner Key)
    (from_der : Cert → Option X509Certificate) where
  -- Where callers are known by their certificates and anonymous reading is off: a request that
  -- reached the router over TLS is somebody's only if it came over a connection that was accepted
  -- before the loop ended, with its handshake done and with certificates, and whose first certificate
  -- has the identity of the caller's mapping. The address of the request is that connection's.
  pub serve-authn :
      (backend : MtlsBackend) (events : List (Accepted Cert)) (req : HttpRequest) (at : Moment)
      (p : Principal)
      → state.authenticator ≡ mtls_auth backend
      → state.allow_anonymous_read ≡ false
      → Memᴰ (req, at) (serve from_der events).0
      → authn deps state req at ≡ ok p
      → (c : Connection Cert) × (certs : List Cert) × (id : ClientCert) × (m : Mapping) × IsServed c
          events
        × (c.handshake ≡ true)
        × (c.peer_certificates ≡ some certs)
        × IsIdentity from_der certs id
        × FirstMatch id backend.mappings m
        × (p ≡ mapping_principal m)
        × (req.source_ip ≡ c.peer)
  unfolding with_identity
  serve-authn backend events req at p auth off m h =
      let f = serve-IsFrom from_der events (req, at) m in
      let c = f.origin in
      let (certs, id, mapping, presented, identity, first, same) =
        with_identity-authn deps state (record (f.sent) { source_ip = c.peer }) at from_der backend
          c.peer_certificates p auth off (rw f.same at h) in
      (
        c,
        certs,
        id,
        mapping,
        f.served,
        f.handshake,
        presented,
        identity,
        first,
        same,
        ap (λ (r : HttpRequest). r.source_ip) f.same,
      )
