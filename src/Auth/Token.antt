-- ===== src/Auth/Token.antt =====
-- src/auth/token.rs: static bearer tokens. `ct_eq`, the comparison of the crate `subtle`, is an
-- argument.
pub mod Laws
use indexer_gateway_auth.Prelude.{String, Bool, Option, none, some, List, [], ◌∷◌, map}
use indexer_gateway_auth.Prelude.{Result, ok_or, if◌then◌else◌}
use mathlib.Core.Option
use indexer_gateway_auth.Config.{TokenEntry}
use indexer_gateway_auth.Principal
use indexer_gateway_auth.Principal.{Principal}
use indexer_gateway_auth.Auth.Error.{AuthError, invalid_token}

pub record TokenRecord : Type 0 where
  pub name : String
  pub token : String
  pub scopes : List String

pub record StaticTokenBackend : Type 0 where
  pub tokens : List TokenRecord

abbrev pub token_record : TokenEntry → TokenRecord
token_record e = record { name = e.name; token = e.token; scopes = e.scopes }

-- `StaticTokenBackend::new`
unfoldable pub new : List TokenEntry → StaticTokenBackend
new entries = record { tokens = map token_record entries }

abbrev pub token_principal : TokenRecord → Principal
token_principal r = Principal.new r.name r.scopes

module _ (ct_eq : String → String → Bool) where
  -- The loop compares every record, also behind a match.
  unfoldable pub scan : String → Option TokenRecord → List TokenRecord → Option TokenRecord
  scan presented matched [] = matched
  scan presented matched (r ∷ rs) =
      scan presented (if ct_eq r.token presented then some r else matched) rs

  -- `StaticTokenBackend::verify`
  unfoldable pub verify : StaticTokenBackend → String → Result AuthError Principal
  verify backend presented =
      ok_or (Option.map token_principal (scan presented none backend.tokens)) invalid_token
