-- ===== src/Auth/Laws.antt =====
-- When credentials become the anonymous principal, and when they do not.
use indexer_gateway_auth.Prelude.{
  String, ◌≡◌, refl, sym, ◌∙◌, ◌≢◌, inl, inr, Bool, true, false, Option, none, some, List, [], ◌∷◌,
  arith,
}
use indexer_gateway_auth.Prelude.{Result, ok, err, if◌then◌else◌, Option-cases, Result-cases}
use indexer_gateway_auth.Principal.{Principal, anonymous}
use indexer_gateway_auth.Auth.Error.{AuthError, missing_credentials}
use indexer_gateway_auth.Auth.Token
use indexer_gateway_auth.Auth.Mtls
use indexer_gateway_auth.Auth.Mtls.{ClientCert, Mapping}
use indexer_gateway_auth.Auth.Jwt
use indexer_gateway_auth.Auth.Jwt.{JsonWebToken, JwtBackend}
use indexer_gateway_auth.Auth.{
  Credentials, Authenticator, bearer_auth, jwt_auth, mtls_auth, or_anonymous, resolve, authenticate,
}

-- The credential that the mode reads is there: a bearer token, or a client certificate.
abbrev pub IsPresented : {Key : Type 0} → Authenticator Key → Credentials → Type 0
IsPresented (bearer_auth b) creds = creds.bearer ≢ none
IsPresented (jwt_auth j) creds = creds.bearer ≢ none
IsPresented (mtls_auth m) creds = creds.client_cert ≢ none

module _ {Key Jwk : Type 0} (ct_eq : String → String → Bool) (crate : JsonWebToken Key Jwk) where
  token-not-missing :
      (b : Token.StaticTokenBackend) (t : String) → Token.verify ct_eq b t ≢ err missing_credentials
  unfolding Token.verify
  token-not-missing b t h = ground arith

  jwt-not-missing :
      (j : JwtBackend Key) (t : String) (last : Option String) (keys : List Key)
      → Jwt.verify_from crate j t last keys ≢ err missing_credentials
  unfolding Jwt.verify_from
  jwt-not-missing j t last [] h = cc
  jwt-not-missing j t last (k ∷ ks) h = elim (Result-cases (crate.decode t k j.validation)) [
    | inl (c, e) ↦ absurd (ground arith)
    | inr (x, e) ↦ jwt-not-missing j t (some x) ks (ground arith)
  ]

  mtls-not-missing :
      (cert : ClientCert) (ms : List Mapping) → Mtls.verify_from cert ms ≢ err missing_credentials
  unfolding Mtls.verify_from
  mtls-not-missing cert [] h = cc
  mtls-not-missing cert (m ∷ ms) h = ground (arith, mtls-not-missing cert ms)

  resolve-presented :
      (auth : Authenticator Key) (creds : Credentials)
      → IsPresented auth creds
      → resolve ct_eq crate auth creds ≢ err missing_credentials
  unfolding resolve Mtls.verify Jwt.verify
  resolve-presented (bearer_auth b) creds p h = elim (Option-cases creds.bearer) [
    | inl e ↦ p e
    | inr (t, e) ↦ token-not-missing b t (ground arith)
  ]
  resolve-presented (jwt_auth j) creds p h = elim (Option-cases creds.bearer) [
    | inl e ↦ p e
    | inr (t, e) ↦ jwt-not-missing j t none j.keys (ground arith)
  ]
  resolve-presented (mtls_auth m) creds p h = elim (Option-cases creds.client_cert) [
    | inl e ↦ p e
    | inr (c, e) ↦ mtls-not-missing c m.mappings (ground arith)
  ]

  resolve-absent :
      (auth : Authenticator Key) (creds : Credentials)
      → ¬ IsPresented auth creds
      → resolve ct_eq crate auth creds ≡ err missing_credentials
  unfolding resolve
  resolve-absent (bearer_auth b) creds p = elim (Option-cases creds.bearer) [
    | inl e ↦ rw e refl
    | inr (t, e) ↦ absurd (p (λ h. cc))
  ]
  resolve-absent (jwt_auth j) creds p = elim (Option-cases creds.bearer) [
    | inl e ↦ rw e refl
    | inr (t, e) ↦ absurd (p (λ h. cc))
  ]
  resolve-absent (mtls_auth m) creds p = elim (Option-cases creds.client_cert) [
    | inl e ↦ rw e refl
    | inr (t, e) ↦ absurd (p (λ h. cc))
  ]

  or_anonymous-other :
      (allow : Bool) (r : Result AuthError Principal)
      → r ≢ err missing_credentials
      → or_anonymous allow r ≡ r
  or_anonymous-other false r h = refl
  or_anonymous-other true (ok p) h = refl
  or_anonymous-other true (err missing_credentials) h = absurd (h refl)
  or_anonymous-other true (err _) h = refl

  -- Without the credential that the mode reads, the request is the anonymous principal's where that
  -- is allowed, and refused for missing credentials where it is not, in every mode.
  pub authenticate-absent :
      (auth : Authenticator Key) (creds : Credentials) (allow : Bool)
      → ¬ IsPresented auth creds
      → authenticate ct_eq crate auth creds allow
        ≡ (if allow then ok anonymous else err missing_credentials)
  unfolding authenticate
  authenticate-absent auth creds true p = rw (resolve-absent auth creds p) refl
  authenticate-absent auth creds false p = rw (resolve-absent auth creds p) refl

  -- A credential that is presented gets the backend's answer, in every mode and whether or not
  -- anonymous reading is allowed: a bad one is refused, and never taken for an absent one.
  pub authenticate-presented :
      (auth : Authenticator Key) (creds : Credentials) (allow : Bool)
      → IsPresented auth creds
      → (authenticate ct_eq crate auth creds allow ≡ resolve ct_eq crate auth creds)
        × (authenticate ct_eq crate auth creds allow ≢ err missing_credentials)
  unfolding authenticate
  authenticate-presented auth creds allow p =
      let there = resolve-presented auth creds p in
      let same = or_anonymous-other allow (resolve ct_eq crate auth creds) there in
      (same, λ h. there (sym same ∙ h))
