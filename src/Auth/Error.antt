-- ===== src/Auth/Error.antt =====
-- `AuthError` of src/auth/mod.rs, and the texts that it shows.
use Prim.Native.String.{◌++◌}
use indexer_gateway_auth.Prelude.{String}

pub data AuthError : Type 0 where
  missing_credentials invalid_token invalid_client_cert : AuthError
  jwt misconfigured : String → AuthError

-- `Display for AuthError`
unfoldable pub error_text : AuthError → String
error_text missing_credentials = "no credentials presented"
error_text invalid_token = "invalid or unknown token"
error_text invalid_client_cert = "client certificate not recognised"
error_text (jwt e) = "JWT verification failed: " ++ e
error_text (misconfigured e) = "backend not configured: " ++ e
