-- ===== src/Main.antt =====
-- src/main.rs: how the process chooses its configuration, builds its authenticator, and assembles
-- the state of the server. The requests to the network and to the file system are arguments.
pub mod Laws
pub mod Gateway
use Prim.Native.String
use indexer_gateway_auth.Prelude.{
  String, Bool, true, false, ◌||◌, Option, none, some, List, [], ◌∷◌, ◌==◌,
}
use indexer_gateway_auth.Prelude.{Result, ok, err, ◌>>=◌, ok_or, map_err, if◌then◌else◌}
use indexer_gateway_auth.Config
use indexer_gateway_auth.Config.{Config, ConfigError, AuthMode, JwtConfig}
use indexer_gateway_auth.Auth
use indexer_gateway_auth.Auth.{Authenticator, jwt_auth}
use indexer_gateway_auth.Auth.Error.{AuthError, error_text}
use indexer_gateway_auth.Auth.Jwt.{JsonWebToken, fetch_jwks, from_jwks}
use indexer_gateway_auth.Proxy
use indexer_gateway_auth.Server.{Deps, Inner, World, default_options, new_state}

-- `parse_config_path`, on the arguments behind the program's name.
unfoldable pub parse_config_path : List String → String
parse_config_path [] = "config.toml"
parse_config_path (arg ∷ []) = "config.toml"
parse_config_path (arg ∷ path ∷ args) =
    let later = parse_config_path (path ∷ args) in
    if arg == "--config" || arg == "-c" then path else later

-- The section of the JWT mode, if it has no shared secret.
abbrev pub without_secret : Option String → JwtConfig → Option JwtConfig
without_secret none section = some section
without_secret (some secret) section = none

abbrev pub needs_jwks : AuthMode → Option JwtConfig → Option JwtConfig
needs_jwks AuthMode.jwt (some section) = without_secret section.hs256_secret section
needs_jwks _ _ = none

module _ {Key Jwk Answer : Type 0} (ct_eq : String → String → Bool) (crate : JsonWebToken Key Jwk)
    (get_url : String → Result String Answer) (json : Answer → Result String (List Jwk)) where
  -- The branch that fetches the key set.
  unfoldable pub jwks_authenticator : JwtConfig → Result String (Authenticator Key)
  jwks_authenticator section = do
    url ← ok_or section.jwks_url "JWT mode requires either hs256_secret or jwks_url"
    set ← map_err error_text (fetch_jwks get_url json url)
    backend ← map_err error_text (from_jwks crate section set)
    ok (jwt_auth backend)

  abbrev pub authenticator_from : Option JwtConfig → Config.Auth → Result String (Authenticator Key)
  authenticator_from (some section) auth = jwks_authenticator section
  authenticator_from none auth =
      map_err (λ e. String.◌++◌ "authenticator: " (error_text e))
        (Auth.from_config ct_eq crate auth)

  -- `build_authenticator`
  unfoldable pub build_authenticator : Config → Result String (Authenticator Key)
  build_authenticator config =
      authenticator_from (needs_jwks config.auth.mode config.auth.jwt) config.auth

-- What stops the process at its start.
pub data StartError : Type 0 where
  config_error : ConfigError → StartError
  authenticator_error : String → StartError

module _ {Key Jwk Limiter Answer : Type 0} (deps : Deps Key Jwk Limiter)
    (env : String → Option String) (read_to_string : String → Result String String)
    (from_str : String → Result String Config) (get_url : String → Result String Answer)
    (json : Answer → Result String (List Jwk)) where
  -- `main`, as far as the state of the server: the options are the default ones.
  unfoldable pub assemble : List String → Result StartError (Inner Key × World Limiter)
  assemble args = do
    config ← map_err config_error (Config.load env read_to_string from_str (parse_config_path args))
    authenticator ←
        map_err authenticator_error (build_authenticator deps.ct_eq deps.crate get_url json config)
    ok (new_state deps config authenticator (Proxy.new config.upstream) default_options)
