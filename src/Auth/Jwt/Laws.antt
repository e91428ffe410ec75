-- ===== src/Auth/Jwt/Laws.antt =====
-- Which tokens a JWT backend accepts, and what a configured secret asks of a token.
use indexer_gateway_auth.Prelude.{
  String, ◌≡◌, subst, ◌↔◌, inl, inr, true, Option, none, some, List, [], ◌∷◌, arith,
}
use indexer_gateway_auth.Prelude.{ok, err, Result-cases, Option-cases}
use indexer_gateway_auth.Json.{Value}
use indexer_gateway_auth.Config.{JwtConfig}
use indexer_gateway_auth.Principal.{Principal}
use indexer_gateway_auth.Auth.Jwt.{
  Algorithm, Validation, JsonWebToken, JwtBackend, build_validation, principal_from_claims,
  from_config, verify_from, verify,
}

module _ {Key Jwk : Type 0} (crate : JsonWebToken Key Jwk) where
  -- The claims are those that the first key which accepts the token gives.
  pub data FirstAccepted (token : String) (v : Validation) : List Key → Value → Type 0 where
    here :
        {key : Key} {keys : List Key} {claims : Value}
        → crate.decode token key v ≡ ok claims
        → FirstAccepted token v (key ∷ keys) claims
    later :
        {key : Key} {keys : List Key} {claims : Value} {e : String}
        → crate.decode token key v ≡ err e
        → FirstAccepted token v keys claims
        → FirstAccepted token v (key ∷ keys) claims

  accept :
      (backend : JwtBackend Key) (token : String) (last_err : Option String) (keys : List Key)
      (claims : Value)
      → FirstAccepted token backend.validation keys claims
      → verify_from crate backend token last_err keys ≡ ok (principal_from_claims backend claims)
  unfolding verify_from
  accept backend token last_err keys claims (here h) = ground arith
  accept backend token last_err keys claims (later {keys = rest} {e} h f) =
      ground (arith, accept backend token (some e) rest claims f)

  accepted :
      (backend : JwtBackend Key) (token : String) (last_err : Option String) (keys : List Key)
      (p : Principal)
      → verify_from crate backend token last_err keys ≡ ok p
      → (claims : Value) × FirstAccepted token backend.validation keys claims
        × (p ≡ principal_from_claims backend claims)
  unfolding verify_from
  accepted backend token last_err [] p h = cc
  accepted backend token last_err (key ∷ keys) p h =
      elim (Result-cases (crate.decode token key backend.validation)) [
        | inl (claims, d) ↦ (claims, here d, ground arith)
        | inr (e, d) ↦
            let (claims, f, same) = accepted backend token (some e) keys p (ground arith) in
            (claims, later d f, same)
      ]

  pub verify_iff :
      (backend : JwtBackend Key) (token : String) (p : Principal)
      → (verify crate backend token ≡ ok p) ↔ (
          (claims : Value) × FirstAccepted token backend.validation backend.keys claims
          × (p ≡ principal_from_claims backend claims))
  unfolding verify
  verify_iff backend token p = (
    accepted backend token none backend.keys p,
    λ (claims, f, same). rw same (accept backend token none backend.keys claims f),
  )

  only_key :
      (token : String) (v : Validation) (key : Key) (claims : Value)
      → FirstAccepted token v (key ∷ []) claims
      → crate.decode token key v ≡ ok claims
  only_key token v key claims (here h) = h
  only_key token v key claims (later h f) = elim f [ ]

  -- With a shared secret, what a token needs: the configuration has the secret, and the token
  -- decodes under that secret, the algorithm HS256, the configured issuer and audience, and `nbf`.
  pub from_config-verify :
      (cfg : JwtConfig) (b : JwtBackend Key) (token : String) (p : Principal)
      → from_config crate cfg ≡ ok b
      → verify crate b token ≡ ok p
      → (secret : String) × (claims : Value) × (cfg.hs256_secret ≡ some secret)
        × (crate.decode token (crate.from_secret secret) (record {
          algorithm = Algorithm.hs256;
          issuer = cfg.issuer ∷ [];
          audience = cfg.audience ∷ [];
          validate_nbf = true;
        })
            ≡ ok claims)
        × (p ≡ principal_from_claims b claims)
  unfolding from_config build_validation
  from_config-verify cfg b token p h k = elim (Option-cases cfg.hs256_secret) [
    | inl e ↦ absurd (ground arith)
    | inr (secret, e) ↦
        let same : b ≡ record {
          keys = crate.from_secret secret ∷ [];
          validation = build_validation cfg Algorithm.hs256;
          scopes_claim = cfg.scopes_claim;
        } =
          ground arith in
        let (claims, f, q) = (verify_iff b token p).0 k in
        let f' =
          subst (λ (c : JwtBackend Key). FirstAccepted token c.validation c.keys claims) same f in
        (secret, claims, e, only_key token _ _ claims f', q)
  ]
