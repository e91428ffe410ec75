-- ===== src/Auth/Mtls.antt =====
-- src/auth/mtls.rs: the identity of a verified client certificate, mapped to a principal.
pub mod Laws
use indexer_gateway_auth.Prelude.{String, Bool, ◌||◌, ◌==◌, Option, none, some, List, [], ◌∷◌, map}
use indexer_gateway_auth.Prelude.{Result, ok, err, any, if◌then◌else◌}
use indexer_gateway_auth.Prelude.{is_some_of}
use indexer_gateway_auth.Config.{MtlsMapping}
use indexer_gateway_auth.Principal
use indexer_gateway_auth.Principal.{Principal}
use indexer_gateway_auth.Auth.Error.{AuthError, invalid_client_cert}

pub record ClientCert : Type 0 where
  pub subject_cn : Option String
  pub sans : List String

pub record Mapping : Type 0 where
  pub subject : String
  pub name : String
  pub scopes : List String

pub record MtlsBackend : Type 0 where
  pub mappings : List Mapping

abbrev pub mapping_of : MtlsMapping → Mapping
mapping_of m = record { subject = m.subject; name = m.name; scopes = m.scopes }

-- `MtlsBackend::new`
unfoldable pub new : List MtlsMapping → MtlsBackend
new mappings = record { mappings = map mapping_of mappings }

unfoldable pub matches : ClientCert → Mapping → Bool
matches cert m = is_some_of cert.subject_cn m.subject || any (λ s. s == m.subject) cert.sans

abbrev pub mapping_principal : Mapping → Principal
mapping_principal m = Principal.new m.name m.scopes

-- The loop, which returns at the first mapping that matches.
unfoldable pub verify_from : ClientCert → List Mapping → Result AuthError Principal
verify_from cert [] = err invalid_client_cert
verify_from cert (m ∷ ms) = if matches cert m then ok (mapping_principal m) else verify_from cert ms

-- `MtlsBackend::verify`
unfoldable pub verify : MtlsBackend → ClientCert → Result AuthError Principal
verify backend cert = verify_from cert backend.mappings
