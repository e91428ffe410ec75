-- ===== src/Config.antt =====
-- src/config.rs: the configuration document, its defaults, and the resolution of secrets.
-- Socket addresses and paths are texts: only the binary's entry point reads them.
pub mod Secrets
pub mod Toml
pub mod Decode
use indexer_gateway_auth.Prelude.{ℕ, String, Bool, true, false, Option, none, some, List, [], ◌∷◌}
use indexer_gateway_auth.Prelude.{
  strip_prefix, Result, ok, err, ◌>>=◌, ok_or, map_err, if◌then◌else◌,
}

pub record Upstream : Type 0 where
  pub agent_management : String
  pub graph_node_admin : Option String
  pub graph_node_status : Option String

pub record Tls : Type 0 where
  pub enabled : Bool
  pub cert : Option String
  pub key : Option String
  pub require_client_cert : Bool
  pub client_ca : Option String

pub data AuthMode : Type 0 where
  bearer jwt mtls : AuthMode

pub record MtlsMapping : Type 0 where
  pub subject : String
  pub name : String
  pub scopes : List String

pub record TokenEntry : Type 0 where
  pub name : String
  pub token : String
  pub scopes : List String

pub record JwtConfig : Type 0 where
  pub issuer : String
  pub audience : String
  pub jwks_url : Option String
  pub hs256_secret : Option String
  pub scopes_claim : String

pub record Auth : Type 0 where
  pub mode : AuthMode
  pub allow_anonymous_read : Bool
  pub tokens : List TokenEntry
  pub jwt : Option JwtConfig
  pub mtls : List MtlsMapping

-- A named operation or a top-level field, and the scopes that it needs besides the base scope.
pub record Override : Type 0 where
  pub field : Option String
  pub operation : Option String
  pub require_scopes : List String

pub record Policy : Type 0 where
  pub fail_closed_on_parse_error : Bool
  pub overrides : List Override

-- `u32` budgets: below 2 ^ 32.
pub record RateLimit : Type 0 where
  pub write_per_minute : ℕ
  pub read_per_minute : ℕ

pub record Config : Type 0 where
  pub listen : String
  pub metrics : String
  pub upstream : Upstream
  pub tls : Tls
  pub auth : Auth
  pub policy : Policy
  pub ratelimit : RateLimit

abbrev pub default_scopes_claim : String
default_scopes_claim = "scopes"

abbrev pub default_true : Bool
default_true = true

abbrev pub default_write_per_minute : ℕ
default_write_per_minute = 30

abbrev pub default_read_per_minute : ℕ
default_read_per_minute = 600

-- `Policy::default`
abbrev pub default_policy : Policy
default_policy = record { fail_closed_on_parse_error = true; overrides = [] }

-- `RateLimit::default`
abbrev pub default_rate_limit : RateLimit
default_rate_limit = record {
  write_per_minute = default_write_per_minute;
  read_per_minute = default_read_per_minute;
}

pub data ConfigError : Type 0 where
  read : (path source : String) → ConfigError
  parse : String → ConfigError
  missing_env : String → ConfigError

-- `env` is `std::env::var`: `none` where a variable is not set, or is no Unicode.
module _ (env : String → Option String) where
  unfoldable pub resolve_secret : String → Result ConfigError String
  unfolding strip_prefix
  resolve_secret raw = elim (strip_prefix raw "env:") [
    | some var ↦ ok_or (env var) (missing_env var)
    | none ↦ ok raw
  ]

  -- the loop over `auth.tokens`
  pub resolve_tokens : List TokenEntry → Result ConfigError (List TokenEntry)
  resolve_tokens [] = ok []
  resolve_tokens (token ∷ tokens) = do
    value ← resolve_secret token.token
    rest ← resolve_tokens tokens
    ok (record token { token = value } ∷ rest)

  pub resolve_jwt : Option JwtConfig → Result ConfigError (Option JwtConfig)
  resolve_jwt none = ok none
  resolve_jwt (some config) = elim config.hs256_secret [
    | none ↦ ok (some config)
    | some secret ↦ do
      value ← resolve_secret secret
      ok (some (record config { hs256_secret = some value }))
  ]

  -- `Config::resolve_secrets`; on an error the program drops the half-resolved document.
  unfoldable pub resolve_secrets : Config → Result ConfigError Config
  unfolding resolve_secret resolve_tokens resolve_jwt
  resolve_secrets config = do
    tokens ← resolve_tokens config.auth.tokens
    jwt_config ← resolve_jwt config.auth.jwt
    ok (record config { auth = record config.auth { tokens = tokens; jwt = jwt_config } })

  -- `from_str` is `toml::from_str`.
  unfoldable pub from_toml_str :
      (String → Result String Config) → String → Result ConfigError Config
  unfolding resolve_secrets
  from_toml_str from_str text = do config ← map_err parse (from_str text); resolve_secrets config

  -- `read_to_string` is `std::fs::read_to_string`.
  unfoldable pub load :
      (String → Result String String)
      → (String → Result String Config)
      → String
      → Result ConfigError Config
  unfolding resolve_secrets
  load read_to_string from_str path = do
    text ← map_err (read path) (read_to_string path)
    config ← map_err parse (from_str text)
    resolve_secrets config
