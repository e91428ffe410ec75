-- ===== src/Auth/Jwt.antt =====
-- src/auth/jwt.rs: verification of JSON Web Tokens. The crate jsonwebtoken is an argument: its keys
-- and key sets, and `decode`, which checks the signature and the registered claims.
pub mod Laws
pub mod KeySet
use Prim.Native.String
use mathlib.Core.Option
use indexer_gateway_auth.Prelude.{String, Bool, true, Option, none, some, List, [], ◌∷◌, map}
use indexer_gateway_auth.Prelude.{
  Result, ok, err, ◌>>=◌, ok_or, map_err, filter_map, and_then, split_whitespace,
}
use indexer_gateway_auth.Json
use indexer_gateway_auth.Json.{Value}
use indexer_gateway_auth.Config.{JwtConfig}
use indexer_gateway_auth.Principal
use indexer_gateway_auth.Principal.{Principal}
use indexer_gateway_auth.Auth.Error.{AuthError, jwt, misconfigured}

pub data Algorithm : Type 0 where
  hs256 hs384 hs512 es256 es384 rs256 rs384 rs512 ps256 ps384 ps512 ed_dsa : Algorithm

-- `alg` of a JWK; `other` is any that the crate knows and no `Algorithm` stands for.
pub data KeyAlgorithm : Type 0 where
  hs256 hs384 hs512 es256 es384 rs256 rs384 rs512 ps256 ps384 ps512 ed_dsa other : KeyAlgorithm

-- What the program sets of the crate's `Validation`; the rest is the crate's default.
pub record Validation : Type 0 where
  pub algorithm : Algorithm
  pub issuer : List String
  pub audience : List String
  pub validate_nbf : Bool

-- The crate, over its types of decoding keys and of JWKs; errors are texts.
pub record JsonWebToken (Key Jwk : Type 0) : Type 0 where
  pub from_secret : String → Key
  pub from_jwk : Jwk → Result String Key
  pub key_algorithm : Jwk → Option KeyAlgorithm
  pub decode : String → Key → Validation → Result String Value

pub record JwtBackend (Key : Type 0) : Type 0 where
  pub keys : List Key
  pub validation : Validation
  pub scopes_claim : String

unfoldable pub key_algorithm_to_algorithm : KeyAlgorithm → Option Algorithm
key_algorithm_to_algorithm KeyAlgorithm.hs256 = some Algorithm.hs256
key_algorithm_to_algorithm KeyAlgorithm.hs384 = some Algorithm.hs384
key_algorithm_to_algorithm KeyAlgorithm.hs512 = some Algorithm.hs512
key_algorithm_to_algorithm KeyAlgorithm.es256 = some Algorithm.es256
key_algorithm_to_algorithm KeyAlgorithm.es384 = some Algorithm.es384
key_algorithm_to_algorithm KeyAlgorithm.rs256 = some Algorithm.rs256
key_algorithm_to_algorithm KeyAlgorithm.rs384 = some Algorithm.rs384
key_algorithm_to_algorithm KeyAlgorithm.rs512 = some Algorithm.rs512
key_algorithm_to_algorithm KeyAlgorithm.ps256 = some Algorithm.ps256
key_algorithm_to_algorithm KeyAlgorithm.ps384 = some Algorithm.ps384
key_algorithm_to_algorithm KeyAlgorithm.ps512 = some Algorithm.ps512
key_algorithm_to_algorithm KeyAlgorithm.ed_dsa = some Algorithm.ed_dsa
key_algorithm_to_algorithm KeyAlgorithm.other = none

unfoldable pub build_validation : JwtConfig → Algorithm → Validation
build_validation cfg algorithm = record {
  algorithm = algorithm;
  issuer = cfg.issuer ∷ [];
  audience = cfg.audience ∷ [];
  validate_nbf = true;
}

-- The two forms of the claim; any other value gives no scopes.
unfoldable pub scopes_of : Option Value → List String
scopes_of (some (Value.array vs)) = filter_map Json.as_str (Json.items vs)
scopes_of (some (Value.string s)) = split_whitespace s
scopes_of _ = []

unfoldable pub extract_scopes : Value → String → List String
extract_scopes claims claim = scopes_of (Json.get claim claims)

abbrev pub sub_or_jwt : Option String → String
sub_or_jwt none = "jwt"
sub_or_jwt (some sub) = sub

module _ {Key : Type 0} where
  -- `JwtBackend::with_keys`
  unfoldable pub with_keys : JwtConfig → List Key → Algorithm → JwtBackend Key
  with_keys cfg keys algorithm = record {
    keys = keys;
    validation = build_validation cfg algorithm;
    scopes_claim = cfg.scopes_claim;
  }

  -- `JwtBackend::principal_from_claims`
  unfoldable pub principal_from_claims : JwtBackend Key → Value → Principal
  principal_from_claims backend claims =
      Principal.new (sub_or_jwt (and_then (Json.get "sub" claims) Json.as_str))
        (extract_scopes claims backend.scopes_claim)

abbrev pub error_or_no_keys : Option String → String
error_or_no_keys none = "no verification keys configured"
error_or_no_keys (some e) = e

module _ {Key Jwk : Type 0} (crate : JsonWebToken Key Jwk) where
  -- `JwtBackend::from_config`
  unfoldable pub from_config : JwtConfig → Result AuthError (JwtBackend Key)
  from_config cfg = do
    secret ←
        ok_or cfg.hs256_secret
          (misconfigured "JWT backend needs hs256_secret (JWKS requires async startup)")
    ok (record {
      keys = crate.from_secret secret ∷ [];
      validation = build_validation cfg Algorithm.hs256;
      scopes_claim = cfg.scopes_claim;
    })

  -- The loop over the keys; `last_err` is the error of the key before.
  unfoldable pub verify_from :
      JwtBackend Key → String → Option String → List Key → Result AuthError Principal
  verify_from backend token last_err [] = err (jwt (error_or_no_keys last_err))
  verify_from backend token last_err (key ∷ keys) =
      elim (crate.decode token key backend.validation) [
        | ok claims ↦ ok (principal_from_claims backend claims)
        | err e ↦ verify_from backend token (some e) keys
      ]

  -- `JwtBackend::verify`
  unfoldable pub verify : JwtBackend Key → String → Result AuthError Principal
  verify backend token = verify_from backend token none backend.keys

  abbrev pub advertised : Jwk → Option Algorithm
  advertised jwk = and_then (crate.key_algorithm jwk) key_algorithm_to_algorithm

  -- `if algorithm.is_none() { algorithm = … }`
  abbrev pub first_algorithm : Option Algorithm → Jwk → Option Algorithm
  first_algorithm none jwk = advertised jwk
  first_algorithm (some a) jwk = some a

  -- The loop over the JWKs: the keys, and the first algorithm that is advertised.
  unfoldable pub read_jwks :
      Option Algorithm → List Jwk → Result AuthError (List Key × Option Algorithm)
  read_jwks algorithm [] = ok ([], algorithm)
  read_jwks algorithm (jwk ∷ jwks) = do
    key ← map_err (λ e. AuthError.jwt (String.◌++◌ "invalid JWK: " e)) (crate.from_jwk jwk)
    rest ← read_jwks (first_algorithm algorithm jwk) jwks
    ok (key ∷ rest.0, rest.1)

  unfoldable pub keys_from_jwks : List Jwk → Result AuthError (List Key × Algorithm)
  keys_from_jwks [] = err (AuthError.jwt "JWKS contained no keys")
  keys_from_jwks (jwk ∷ jwks) = do
    found ← read_jwks none (jwk ∷ jwks)
    algorithm ← ok_or found.1 (AuthError.jwt "JWKS keys do not advertise an 'alg'")
    ok (found.0, algorithm)

  -- `JwtBackend::from_jwks`
  unfoldable pub from_jwks : JwtConfig → List Jwk → Result AuthError (JwtBackend Key)
  from_jwks cfg set = do found ← keys_from_jwks set; ok (with_keys cfg found.0 found.1)

-- `fetch_jwks`: `get_url` sends the request, and `json` reads the body of its answer.
unfoldable pub fetch_jwks :
    {Answer Jwk : Type 0}
    → (String → Result String Answer)
    → (Answer → Result String (List Jwk))
    → String
    → Result AuthError (List Jwk)
fetch_jwks get_url json url = do
  answer ← map_err (λ e. AuthError.jwt (failed "fetching" e)) (get_url url)
  map_err (λ e. AuthError.jwt (failed "parsing" e)) (json answer)
  where
    failed : String → String → String
    failed what e =
        String.◌++◌ what (String.◌++◌ " JWKS from " (String.◌++◌ url (String.◌++◌ ": " e)))
