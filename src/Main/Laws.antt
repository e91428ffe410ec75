-- ===== src/Main/Laws.antt =====
-- The start of the process: which authenticator a configuration gives, and what holds of the
-- gateway that is assembled from it.
use indexer_gateway_auth.Prelude.{
  String, ◌≡◌, refl, sym, ap, ◌↔◌, inl, inr, Bool, false, Option, none, some, List, [], ◌∷◌, arith,
}
use indexer_gateway_auth.Prelude.{Result, ok, All, Result-cases, Option-cases}
use indexer_gateway_auth.Config
use indexer_gateway_auth.Proxy
use indexer_gateway_auth.Config.{Config, AuthMode, JwtConfig}
use indexer_gateway_auth.Auth
use indexer_gateway_auth.Auth.{Authenticator, bearer_auth, jwt_auth, mtls_auth}
use indexer_gateway_auth.Auth.Token
use indexer_gateway_auth.Auth.Mtls
use indexer_gateway_auth.Auth.Jwt.{
  JsonWebToken, JwtBackend, Algorithm, build_validation, with_keys, fetch_jwks, from_jwks,
  from_config,
}
use indexer_gateway_auth.Auth.Jwt.KeySet.{KeysOf, FirstAdvertised, from_jwks_made_iff}
use indexer_gateway_auth.Server.{Deps, Inner, World, default_options, new_state}
use indexer_gateway_auth.Server.History.{
  Reachable, IsStripped, Reachable-IsStripped, Reachable-secret,
}
use indexer_gateway_auth.Main.{parse_config_path, jwks_authenticator, build_authenticator, assemble}

module _ {Key Jwk Answer : Type 0} (ct_eq : String → String → Bool) (crate : JsonWebToken Key Jwk)
    (get_url : String → Result String Answer) (json : Answer → Result String (List Jwk)) where
  -- The authenticators that a configuration may give.
  pub data IsBuilt (config : Config) : Authenticator Key → Type 0 where
    bearer_built :
        config.auth.mode ≡ AuthMode.bearer
        → IsBuilt config (bearer_auth (Token.new config.auth.tokens))
    mtls_built :
        config.auth.mode ≡ AuthMode.mtls → IsBuilt config (mtls_auth (Mtls.new config.auth.mtls))
    secret_built :
        (section : JwtConfig) (secret : String)
        → config.auth.mode ≡ AuthMode.jwt
        → config.auth.jwt ≡ some section
        → section.hs256_secret ≡ some secret
        → IsBuilt config
            (jwt_auth (with_keys section (crate.from_secret secret ∷ []) Algorithm.hs256))
    jwks_built :
        (section : JwtConfig) (url : String) (set : List Jwk) (keys : List Key) (a : Algorithm)
        → config.auth.mode ≡ AuthMode.jwt
        → config.auth.jwt ≡ some section
        → section.hs256_secret ≡ none
        → section.jwks_url ≡ some url
        → fetch_jwks get_url json url ≡ ok set
        → KeysOf crate set keys
        → FirstAdvertised crate set a
        → IsBuilt config (jwt_auth (with_keys section keys a))

  jwks_authenticator-inv :
      (section : JwtConfig) (auth : Authenticator Key)
      → jwks_authenticator ct_eq crate get_url json section ≡ ok auth
      → (url : String) × (set : List Jwk) × (b : JwtBackend Key) × (section.jwks_url ≡ some url)
        × (fetch_jwks get_url json url ≡ ok set)
        × (from_jwks crate section set ≡ ok b)
        × (auth ≡ jwt_auth b)
  unfolding jwks_authenticator
  jwks_authenticator-inv section auth h = elim (Option-cases section.jwks_url) [
    | inl e ↦ absurd (ground arith)
    | inr (url, e) ↦ elim (Result-cases (fetch_jwks get_url json url)) [
      | inr (x, f) ↦ absurd (ground arith)
      | inl (set, f) ↦ elim (Result-cases (from_jwks crate section set)) [
        | inr (x, g) ↦ absurd (ground arith)
        | inl (b, g) ↦ (url, set, b, e, f, g, ground arith)
      ]
    ]
  ]

  IsBuilt-jwks :
      (config : Config) (section : JwtConfig) (auth : Authenticator Key)
      → config.auth.mode ≡ AuthMode.jwt
      → config.auth.jwt ≡ some section
      → section.hs256_secret ≡ none
      → jwks_authenticator ct_eq crate get_url json section ≡ ok auth
      → IsBuilt config auth
  IsBuilt-jwks config section auth m j s h =
      let (url, set, b, e, f, g, same) = jwks_authenticator-inv section auth h in
      let (keys, a, k, first, whole) = (from_jwks_made_iff crate section set b).0 g in
      rw (same, whole) (jwks_built section url set keys a m j s e f k first)

  build_authenticator-IsBuilt :
      (config : Config) (auth : Authenticator Key)
      → build_authenticator ct_eq crate get_url json config ≡ ok auth
      → IsBuilt config auth
  unfolding build_authenticator Auth.from_config from_config with_keys
  build_authenticator-IsBuilt config auth h = by_mode config.auth.mode refl
    where
      by_mode : (m : AuthMode) → config.auth.mode ≡ m → IsBuilt config auth
      by_mode AuthMode.bearer e =
          let same : auth ≡ bearer_auth (Token.new config.auth.tokens) = ground arith in
          rw same (bearer_built e)
      by_mode AuthMode.mtls e =
          let same : auth ≡ mtls_auth (Mtls.new config.auth.mtls) = ground arith in
          rw same (mtls_built e)
      by_mode AuthMode.jwt e = elim (Option-cases config.auth.jwt) [
        | inl j ↦ absurd (ground arith)
        | inr (section, j) ↦ elim (Option-cases section.hs256_secret) [
          | inl s ↦ IsBuilt-jwks config section auth e j s (ground arith)
          | inr (secret, s) ↦
              let same : auth
                  ≡ jwt_auth (with_keys section (crate.from_secret secret ∷ []) Algorithm.hs256) =
                ground arith in
              rw same (secret_built section secret e j s)
        ]
      ]

  IsBuilt-build_authenticator :
      (config : Config) (auth : Authenticator Key)
      → IsBuilt config auth
      → build_authenticator ct_eq crate get_url json config ≡ ok auth
  unfolding build_authenticator Auth.from_config from_config with_keys jwks_authenticator from_jwks
      build_validation
  IsBuilt-build_authenticator config auth (bearer_built e) = rw e refl
  IsBuilt-build_authenticator config auth (mtls_built e) = rw e refl
  IsBuilt-build_authenticator config auth (secret_built section secret e j s) =
      rw (e, j) (rw s refl)
  IsBuilt-build_authenticator config auth (jwks_built section url set keys a e j s u f k first) =
      let made = (from_jwks_made_iff crate section set _).1 (keys, a, k, first, refl) in
      rw (e, j) (rw s (rw u (rw f (rw made refl))))

  -- The process builds an authenticator exactly if the configuration is for static tokens or for
  -- client certificates; or it is for JWT and has a section with a shared secret, which is then the
  -- one key, under HS256; or that section has no secret, but a URL from which a key set is fetched
  -- whose keys all serve and of which one advertises a known algorithm, and these are then used.
  pub build_authenticator_iff :
      (config : Config) (auth : Authenticator Key)
      → (build_authenticator ct_eq crate get_url json config ≡ ok auth) ↔ IsBuilt config auth
  build_authenticator_iff config auth =
      (build_authenticator-IsBuilt config auth, IsBuilt-build_authenticator config auth)

module _ {Key Jwk Limiter Answer : Type 0} (deps : Deps Key Jwk Limiter)
    (env : String → Option String) (read_to_string : String → Result String String)
    (from_str : String → Result String Config) (get_url : String → Result String Answer)
    (json : Answer → Result String (List Jwk)) where
  assemble-inv :
      (args : List String) (state : Inner Key) (start : World Limiter)
      → assemble deps env read_to_string from_str get_url json args ≡ ok (state, start)
      → (state.log_variables ≡ false) × (start.audit ≡ []) × (start.sent ≡ [])
  unfolding assemble new_state
  assemble-inv args state start h =
      elim (Result-cases (Config.load env read_to_string from_str (parse_config_path args))) [
        | inr (x, e) ↦ absurd (ground arith)
        | inl (config, e) ↦
            elim (Result-cases (build_authenticator deps.ct_eq deps.crate get_url json config)) [
              | inr (x, f) ↦ absurd (ground arith)
              | inl (auth, f) ↦
                  let same : new_state deps config auth (Proxy.new config.upstream) default_options
                      ≡ (state, start) =
                    ground arith in
                  (
                    ap (λ (r : Inner Key × World Limiter). r.0.log_variables) (sym same),
                    ap (λ (r : Inner Key × World Limiter). r.1.audit) (sym same),
                    ap (λ (r : Inner Key × World Limiter). r.1.sent) (sym same),
                  )
            ]
      ]

  -- Whatever the arguments and the configuration: in a gateway that the process assembled, after any
  -- sequence of requests, no audit record holds raw variables, and no request that was sent holds an
  -- `authorization` header, a `host` header or a hop-by-hop header.
  pub assemble-keeps_secrets :
      (args : List String) (state : Inner Key) (start : World Limiter) {w : World Limiter}
      → assemble deps env read_to_string from_str get_url json args ≡ ok (state, start)
      → Reachable deps state start w
      → All (λ rec. rec.variables ≡ none) w.audit × All (IsStripped deps state) w.sent
  assemble-keeps_secrets args state start h r =
      let (off, no_records, none_sent) = assemble-inv args state start h in
      (Reachable-secret deps state off no_records r, Reachable-IsStripped deps state none_sent r)
