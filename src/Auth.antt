-- ===== src/Auth.antt =====
-- src/auth/mod.rs: the configured authenticator, and the principal that credentials stand for.
pub mod Error
pub mod Token
pub mod Mtls
pub mod Jwt
pub mod Laws
pub mod Callers
use indexer_gateway_auth.Prelude.{String, Bool, true, false, Option, none, some}
use indexer_gateway_auth.Prelude.{Result, ok, err, ◌>>=◌, ok_or}
use indexer_gateway_auth.Config
use indexer_gateway_auth.Config.{AuthMode, JwtConfig}
use indexer_gateway_auth.Principal.{Principal, anonymous}
use Error.{AuthError, missing_credentials, misconfigured}
use Token
use Token.{StaticTokenBackend}
use Mtls
use Mtls.{ClientCert, MtlsBackend}
use Jwt
use Jwt.{JsonWebToken, JwtBackend}

pub record Credentials : Type 0 where
  pub bearer : Option String
  pub client_cert : Option ClientCert

pub data Authenticator (Key : Type 0) : Type 0 where
  bearer_auth : StaticTokenBackend → Authenticator Key
  jwt_auth : JwtBackend Key → Authenticator Key
  mtls_auth : MtlsBackend → Authenticator Key

-- `bearer`
abbrev pub bearer_of : Credentials → Result AuthError String
bearer_of creds = ok_or creds.bearer missing_credentials

-- Only an absent credential becomes the anonymous principal, where that is allowed.
abbrev pub or_anonymous : Bool → Result AuthError Principal → Result AuthError Principal
or_anonymous true (err missing_credentials) = ok anonymous
or_anonymous _ other = other

module _ {Key Jwk : Type 0} (ct_eq : String → String → Bool) (crate : JsonWebToken Key Jwk) where
  abbrev pub jwt_authenticator : Option JwtConfig → Result AuthError (Authenticator Key)
  jwt_authenticator section = do
    cfg ← ok_or section (misconfigured "mode = \"jwt\" but [auth.jwt] is absent")
    backend ← Jwt.from_config crate cfg
    ok (jwt_auth backend)

  abbrev pub authenticator_for : AuthMode → Config.Auth → Result AuthError (Authenticator Key)
  authenticator_for AuthMode.bearer auth = ok (bearer_auth (Token.new auth.tokens))
  authenticator_for AuthMode.mtls auth = ok (mtls_auth (Mtls.new auth.mtls))
  authenticator_for AuthMode.jwt auth = jwt_authenticator auth.jwt

  -- `Authenticator::from_config`
  unfoldable pub from_config : Config.Auth → Result AuthError (Authenticator Key)
  from_config auth = authenticator_for auth.mode auth

  -- What the backend makes of the credentials.
  unfoldable pub resolve : Authenticator Key → Credentials → Result AuthError Principal
  resolve (bearer_auth b) creds = bearer_of creds >>= λ t. Token.verify ct_eq b t
  resolve (jwt_auth j) creds = bearer_of creds >>= λ t. Jwt.verify crate j t
  resolve (mtls_auth m) creds = ok_or creds.client_cert missing_credentials >>= λ c. Mtls.verify m c

  -- `Authenticator::authenticate`
  unfoldable pub authenticate : Authenticator Key → Credentials → Bool → Result AuthError Principal
  authenticate auth creds allow_anonymous_read =
      or_anonymous allow_anonymous_read (resolve auth creds)
