-- ===== src/Config/Decode/Document.antt =====
-- The table that a configuration is written as, one table for each section.
use indexer_gateway_auth.Prelude.{String, Option, none, some, List, [], ◌∷◌}
use mathlib.Core.Option
use indexer_gateway_auth.Config.{
  Config, Upstream, Tls, AuthMode, MtlsMapping, TokenEntry, JwtConfig, Auth, Override, Policy,
  RateLimit,
}
use indexer_gateway_auth.Config.Toml.{
  Value, string, boolean, integer, array, table, Items, nil, cons, Table, end, entry,
}

abbrev pub entry_if : String → Option Value → Table → Table
entry_if key none rest = rest
entry_if key (some v) rest = entry key v rest

abbrev pub text_if : Option String → Option Value
text_if o = Option.map string o

abbrev pub items_of : {A : Type 0} → (A → Value) → List A → Items
items_of encode [] = nil
items_of encode (a ∷ as_list) = cons (encode a) (items_of encode as_list)

abbrev pub texts : List String → Value
texts ss = array (items_of string ss)

abbrev pub upstream_table : Upstream → Table
upstream_table u = entry "agent_management" (string u.agent_management) (
    entry_if "graph_node_admin" (text_if u.graph_node_admin)
      (entry_if "graph_node_status" (text_if u.graph_node_status) end))

abbrev pub tls_table : Tls → Table
tls_table t = entry "enabled" (boolean t.enabled) (
    entry_if "cert" (text_if t.cert) (
      entry_if "key" (text_if t.key) (
        entry "require_client_cert" (boolean t.require_client_cert)
          (entry_if "client_ca" (text_if t.client_ca) end))))

abbrev pub mapping_table : MtlsMapping → Table
mapping_table m =
    entry "subject" (string m.subject)
      (entry "name" (string m.name) (entry "scopes" (texts m.scopes) end))

abbrev pub token_table : TokenEntry → Table
token_table t =
    entry "name" (string t.name)
      (entry "token" (string t.token) (entry "scopes" (texts t.scopes) end))

abbrev pub jwt_table : JwtConfig → Table
jwt_table j = entry "issuer" (string j.issuer) (
    entry "audience" (string j.audience) (
      entry_if "jwks_url" (text_if j.jwks_url) (
        entry_if "hs256_secret" (text_if j.hs256_secret)
          (entry "scopes_claim" (string j.scopes_claim) end))))

abbrev pub override_table : Override → Table
override_table o = entry_if "field" (text_if o.field) (
    entry_if "operation" (text_if o.operation)
      (entry "require_scopes" (texts o.require_scopes) end))

abbrev pub ratelimit_table : RateLimit → Table
ratelimit_table r =
    entry "write_per_minute" (integer r.write_per_minute)
      (entry "read_per_minute" (integer r.read_per_minute) end)

abbrev pub policy_table : Policy → Table
policy_table p =
    entry "fail_closed_on_parse_error" (boolean p.fail_closed_on_parse_error)
      (entry "override" (array (items_of (λ o. table (override_table o)) p.overrides)) end)

abbrev pub mode_name : AuthMode → String
mode_name AuthMode.bearer = "bearer"
mode_name AuthMode.jwt = "jwt"
mode_name AuthMode.mtls = "mtls"

abbrev pub auth_table : Auth → Table
auth_table a = entry "mode" (string (mode_name a.mode)) (
    entry "allow_anonymous_read" (boolean a.allow_anonymous_read) (
      entry "tokens" (array (items_of (λ t. table (token_table t)) a.tokens)) (
        entry_if "jwt" (Option.map (λ j. table (jwt_table j)) a.jwt)
          (entry "mtls" (array (items_of (λ m. table (mapping_table m)) a.mtls)) end))))

abbrev pub config_table : Config → Table
config_table c = entry "listen" (string c.listen) (
    entry "metrics" (string c.metrics) (
      entry "upstream" (table (upstream_table c.upstream)) (
        entry "tls" (table (tls_table c.tls)) (
          entry "auth" (table (auth_table c.auth)) (
            entry "policy" (table (policy_table c.policy))
              (entry "ratelimit" (table (ratelimit_table c.ratelimit)) end))))))
