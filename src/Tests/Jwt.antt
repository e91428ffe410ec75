-- ===== src/Tests/Jwt.antt =====
-- The tests of src/auth/jwt.rs. What jsonwebtoken checks of a token here is its signature, its expiry,
-- its issuer and its audience.
use indexer_gateway_auth.Prelude.{
  String, ◌≡◌, refl, Bool, true, false, not, ◌&&◌, ◌==◌, Option, none, some, List, [], ◌∷◌, length,
}
use indexer_gateway_auth.Prelude.{
  All, Result, ok, err, ◌>>=◌, if◌then◌else◌, nat_eq, is_empty, split_whitespace, trim_start,
}
use indexer_gateway_auth.Prelude.Sets.{contains}
use indexer_gateway_auth.Json
use indexer_gateway_auth.Json.{Value, Members}
use indexer_gateway_auth.Config.{JwtConfig}
use indexer_gateway_auth.Principal
use indexer_gateway_auth.Principal.{Principal}
use indexer_gateway_auth.Auth.Error.{AuthError}
use indexer_gateway_auth.Auth.Jwt
use indexer_gateway_auth.Auth.Jwt.{Validation, JwtBackend, JsonWebToken, KeyAlgorithm, Algorithm}
use indexer_gateway_auth.Tests.{is_ok, ok_and, err_and}

abbrev config : JwtConfig
config = record {
  issuer = "https://auth.example.com/";
  audience = "indexer-management";
  jwks_url = none;
  hs256_secret = some "super-secret-signing-key";
  scopes_claim = "scopes";
}

-- A token that is not expired, which the crate accepts if it was signed with the key, and issued by
-- and for those whom the validation lists.
record Minted : Type 0 where
  signature : String
  expired : Bool
  claims : Members

abbrev lists : List String → Option Value → Bool
lists names (some (Value.string s)) = contains names s
lists names _ = false

abbrev is_accepted : Minted → String → Validation → Bool
is_accepted m key v =
    m.signature == key
    && not m.expired
    && lists v.issuer (Json.get "iss" (Value.object m.claims))
    && lists v.audience (Json.get "aud" (Value.object m.claims))

-- The token under test is this one.
abbrev crate : Minted → JsonWebToken String KeyAlgorithm
crate m = record {
  from_secret = λ s. s;
  from_jwk = λ j. ok "key";
  key_algorithm = λ j. some j;
  decode =
      λ token key v. if is_accepted m key v then ok (Value.object m.claims) else err "not accepted";
}

abbrev mint : Members → Minted
mint claims = record { signature = "super-secret-signing-key"; expired = false; claims = claims }

abbrev verify : Minted → Result AuthError Principal
verify m = Jwt.from_config (crate m) config >>= λ backend. Jwt.verify (crate m) backend "token"

abbrev verified : Members → (Principal → Bool) → Bool
verified claims test = ok_and (verify (mint claims)) test

-- `iss` and `aud`, before the other claims.
abbrev issued : Members → Members
issued rest =
    Members.member "iss" (Value.string "https://auth.example.com/")
      (Members.member "aud" (Value.string "indexer-management") rest)

abbrev valid_token_yields_principal_with_scopes : Bool
valid_token_yields_principal_with_scopes =
    verified
      (issued (
        Members.member "sub" (Value.string "operator@indexer") (
          Members.member "scopes"
            (Value.array (Json.from_items (Value.string "read" ∷ Value.string "write" ∷ [])))
            Members.end)))
      (λ p. p.name == "operator@indexer" && contains p.scopes "read" && contains p.scopes "write")

abbrev space_delimited_scopes_are_parsed : Bool
space_delimited_scopes_are_parsed =
    verified
      (issued (Members.member "scopes" (Value.string "read write actions:execute") Members.end))
      (λ p. contains p.scopes "actions:execute" && p.name == "jwt")

abbrev missing_scopes_claim_yields_no_scopes : Bool
missing_scopes_claim_yields_no_scopes = verified (issued Members.end) (λ p. is_empty p.scopes)

abbrev is_jwt : AuthError → Bool
is_jwt (AuthError.jwt e) = true
is_jwt _ = false

abbrev wrong_audience_is_rejected : Bool
wrong_audience_is_rejected =
    err_and
      (verify (
        mint (
          Members.member "iss" (Value.string "https://auth.example.com/") (
            Members.member "aud" (Value.string "some-other-service") (
              Members.member "scopes" (Value.array (Json.from_items (Value.string "read" ∷ [])))
                Members.end)))))
      is_jwt

abbrev expired_token_is_rejected : Bool
expired_token_is_rejected =
    err_and (verify (record (mint (issued Members.end)) { expired = true })) is_jwt

abbrev tampered_signature_is_rejected : Bool
tampered_signature_is_rejected = not (
    is_ok (verify (record (mint (issued Members.end)) { signature = "super-secret-signing-keyx" })))

abbrev is_rs256 : Algorithm → Bool
is_rs256 Algorithm.rs256 = true
is_rs256 _ = false

abbrev builds_keys_and_detects_algorithm_from_jwks : Bool
builds_keys_and_detects_algorithm_from_jwks =
    ok_and (Jwt.from_jwks (crate (mint Members.end)) config (KeyAlgorithm.rs256 ∷ []))
      (λ backend. nat_eq (length backend.keys) 1 && is_rs256 backend.validation.algorithm)

abbrev empty_jwks_is_rejected : Bool
empty_jwks_is_rejected = err_and (Jwt.from_jwks (crate (mint Members.end)) config []) is_jwt

abbrev is_misconfigured : AuthError → Bool
is_misconfigured (AuthError.misconfigured e) = true
is_misconfigured _ = false

abbrev jwks_only_config_cannot_build_synchronously : Bool
jwks_only_config_cannot_build_synchronously =
    err_and
      (Jwt.from_config (crate (mint Members.end)) (record config {
        hs256_secret = none;
        jwks_url = some "https://auth.example.com/.well-known/jwks.json";
      }))
      is_misconfigured

jwt_tests_pass :
    All
      (λ passed. passed ≡ true)
      (valid_token_yields_principal_with_scopes ∷ space_delimited_scopes_are_parsed
        ∷ missing_scopes_claim_yields_no_scopes ∷ wrong_audience_is_rejected
        ∷ expired_token_is_rejected ∷ tampered_signature_is_rejected
        ∷ builds_keys_and_detects_algorithm_from_jwks ∷ empty_jwks_is_rejected
        ∷ jwks_only_config_cannot_build_synchronously ∷ [])
unfolding Principal.new Jwt.from_config Jwt.verify Jwt.verify_from Jwt.principal_from_claims
    Jwt.extract_scopes Jwt.scopes_of Jwt.from_jwks Jwt.read_jwks Jwt.keys_from_jwks Jwt.with_keys
    Json.get Json.get_member Json.as_str split_whitespace trim_start Jwt.key_algorithm_to_algorithm
    Jwt.build_validation
jwt_tests_pass = (refl, (refl, (refl, (refl, (refl, (refl, (refl, (refl, (refl, tt)))))))))
