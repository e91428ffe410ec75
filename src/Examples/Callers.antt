-- ===== src/Examples/Callers.antt =====
-- Callers: principals, their scopes, credentials and secrets.
use indexer_gateway_auth.Prelude.{
  String, ◌≡◌, refl, ◌≢◌, ◌↔◌, ◌⊎◌, true, false, none, some, List, [], ◌∷◌, ◌==◌, eq_iff,
}
use indexer_gateway_auth.Prelude.{ok, err}
use indexer_gateway_auth.Prelude.Sets.{tree_insert, tree_extend}
use indexer_gateway_auth.Config.{Override, Policy, resolve_secret, resolve_secrets, missing_env}
use indexer_gateway_auth.Config.Secrets.{IsResolved, resolve_secrets_iff}
use indexer_gateway_auth.Principal.{new, anonymous, satisfies}
use indexer_gateway_auth.Authz.Granted.{Needed, Held, authorize-new_iff}
use indexer_gateway_auth.Authz.{
  require_for, require_all, required_scopes, authorize, override_matches,
}
use indexer_gateway_auth.Authz.Required.{Demands}
use indexer_gateway_auth.Authz.Laws.{Decision, authorize-Decision, overrides_tighten}
use indexer_gateway_auth.Auth.{Credentials, bearer_auth, resolve, authenticate}
use indexer_gateway_auth.Auth.Error.{missing_credentials, invalid_token}
use indexer_gateway_auth.Auth.Laws.{authenticate-absent, authenticate-presented}
use indexer_gateway_auth.Auth.Callers.{IsIdentified, authenticate_iff}
use indexer_gateway_auth.Auth.Laws.{IsPresented}
use indexer_gateway_auth.Auth.Token
use indexer_gateway_auth.Auth.Token.{TokenRecord, token_principal}
use indexer_gateway_auth.Auth.Mtls.{ClientCert, MtlsBackend}
use indexer_gateway_auth.Auth.Jwt
use indexer_gateway_auth.Auth.Jwt.{
  JwtBackend, Validation, Algorithm, principal_from_claims, build_validation, from_config,
  from_jwks, with_keys,
}
use indexer_gateway_auth.Auth.Jwt.KeySet.{KeysOf, FirstAdvertised, from_jwks_iff}
use indexer_gateway_auth.Auth.Jwt.Laws.{from_config-verify}
use indexer_gateway_auth.Json.{Value, Members}
use indexer_gateway_auth.Prelude.{Memᴰ, inl, inr}
use indexer_gateway_auth.Examples.Samples.{viewer}
use indexer_gateway_auth.Examples.Samples.{
  rules_need_admin, config, env, resolved, policy, lax, operator, sent_rules, tokens, crate,
  jwt_config,
}

abbrev read_scope : String
read_scope = "read"

authorize-new_iff_example :
    ((required : List String) × (authorize (new "viewer" ("write" ∷ [])) sent_rules policy
        ≡ ok required))
    ↔ ((scope : String) → Needed sent_rules policy scope → Held ("write" ∷ []) scope)
authorize-new_iff_example = authorize-new_iff "viewer" ("write" ∷ []) sent_rules policy

authorize-Decision_example :
    Decision anonymous sent_rules policy (authorize anonymous sent_rules policy)
authorize-Decision_example = authorize-Decision anonymous sent_rules policy

-- The same override twice.
abbrev policy_twice : Policy
policy_twice = record {
  fail_closed_on_parse_error = false;
  overrides = rules_need_admin ∷ rules_need_admin ∷ [];
}

same-Demands :
    (scope : String) → Demands sent_rules policy scope ↔ Demands sent_rules policy_twice scope
same-Demands scope = (
  elim [ inl base ↦ inl base | inr (op, ov, m, n, a, s) ↦ inr (op, ov, m, Memᴰ.tail n, a, s) ],
  elim [ inl base ↦ inl base | inr (op, ov, m, n, a, s) ↦ inr (op, ov, m, once n, a, s) ],
)
  where
    once : {ov : Override} → Memᴰ ov policy_twice.overrides → Memᴰ ov policy.overrides
    once (Memᴰ.head e) = Memᴰ.head e
    once (Memᴰ.tail n) = n

operator_authorized : authorize operator sent_rules policy ≡ ok ("admin" ∷ "write" ∷ [])
unfolding authorize required_scopes require_all require_for tree_insert tree_extend satisfies
    override_matches
operator_authorized = refl

overrides_tighten_example : authorize operator sent_rules lax ≡ ok (required_scopes sent_rules lax)
overrides_tighten_example =
    overrides_tighten operator sent_rules lax policy ("admin" ∷ "write" ∷ []) (λ ov m. elim m [ ])
      operator_authorized

abbrev no_credentials : Credentials
no_credentials = record { bearer = none; client_cert = none }

abbrev with_token : Credentials
with_token = record { bearer = some "t3"; client_cert = none }

authenticate-absent_example :
    authenticate (λ a b. a == b) crate (bearer_auth tokens) no_credentials true ≡ ok anonymous
authenticate-absent_example =
    authenticate-absent (λ a b. a == b) crate (bearer_auth tokens) no_credentials true (λ p. p refl)

authenticate-presented_example :
    (authenticate (λ a b. a == b) crate (bearer_auth tokens) with_token true
      ≡ resolve (λ a b. a == b) crate (bearer_auth tokens) with_token)
    × (authenticate (λ a b. a == b) crate (bearer_auth tokens) with_token true
        ≢ err missing_credentials)
authenticate-presented_example =
    authenticate-presented (λ a b. a == b) crate (bearer_auth tokens) with_token true (λ e. cc)

authenticate_iff_example :
    (authenticate (λ a b. a == b) crate (bearer_auth tokens) with_token false ≡ ok viewer) ↔ (
      IsIdentified (λ a b. a == b) (λ a b. eq_iff a b) crate (bearer_auth tokens) with_token viewer
      ⊎ ((false ≡ true)
          × ¬ IsPresented {Key = String} (bearer_auth tokens) with_token
          × (viewer ≡ anonymous)))
authenticate_iff_example =
    authenticate_iff (λ a b. a == b) (λ a b. eq_iff a b) crate (bearer_auth tokens) with_token false
      viewer

abbrev mappings : MtlsBackend
mappings = record {
  mappings = record { subject = "agent.local"; name = "agent"; scopes = "write" ∷ [] } ∷ [];
}

abbrev cert : ClientCert
cert = record { subject_cn = none; sans = "agent.local" ∷ [] }

abbrev jwt_backend : JwtBackend String
jwt_backend = record {
  keys = "secret" ∷ [];
  validation = build_validation jwt_config Algorithm.hs256;
  scopes_claim = "scopes";
}

abbrev empty_claims : Value
empty_claims = Value.object Members.end

from_config-verify_example :
    (secret : String) × (claims : Value) × (jwt_config.hs256_secret ≡ some secret)
    × (crate.decode "secret" (crate.from_secret secret) (record {
      algorithm = Algorithm.hs256;
      issuer = jwt_config.issuer ∷ [];
      audience = jwt_config.audience ∷ [];
      validate_nbf = true;
    })
        ≡ ok claims)
    × (principal_from_claims jwt_backend empty_claims ≡ principal_from_claims jwt_backend claims)
unfolding from_config Jwt.verify Jwt.verify_from
from_config-verify_example =
    from_config-verify crate jwt_config jwt_backend "secret"
      (principal_from_claims jwt_backend empty_claims) refl refl

abbrev jwks : List String
jwks = "secret" ∷ []

abbrev es256_backend : JwtBackend String
es256_backend = record {
  keys = jwks;
  validation = record {
    algorithm = Algorithm.es256;
    issuer = jwt_config.issuer ∷ [];
    audience = jwt_config.audience ∷ [];
    validate_nbf = true;
  };
  scopes_claim = jwt_config.scopes_claim;
}

from_jwks_iff_example : (from_jwks crate jwt_config jwks ≡ ok es256_backend) ↔ (
    KeysOf crate jwks es256_backend.keys
    × FirstAdvertised crate jwks es256_backend.validation.algorithm
    × (es256_backend.validation.issuer ≡ jwt_config.issuer ∷ [])
    × (es256_backend.validation.audience ≡ jwt_config.audience ∷ [])
    × (es256_backend.validation.validate_nbf ≡ true)
    × (es256_backend.scopes_claim ≡ jwt_config.scopes_claim))
from_jwks_iff_example = from_jwks_iff crate jwt_config jwks es256_backend

resolve_secrets_iff_example :
    (resolve_secrets env config ≡ ok resolved) ↔ IsResolved env config resolved
resolve_secrets_iff_example = resolve_secrets_iff env config resolved

-- The reference in the token is replaced; the literal JWT secret is kept.
config_resolves : resolve_secrets env config ≡ ok resolved
unfolding resolve_secrets resolve_secret
config_resolves = refl

config_lacks_variable : resolve_secrets (λ name. none) config ≡ err (missing_env "TOKEN")
unfolding resolve_secrets resolve_secret
config_lacks_variable = refl

-- A bad token is refused, though anonymous reading is allowed.
bad_token_refused :
    authenticate (λ a b. a == b) crate (bearer_auth tokens) with_token true ≡ err invalid_token
unfolding authenticate resolve Token.verify Token.scan
bad_token_refused = refl
