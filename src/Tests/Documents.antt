-- ===== src/Tests/Documents.antt =====
-- The tests of src/config.rs, from the tables that their documents are parsed to.
use indexer_gateway_auth.Prelude.{
  String, ◌≡◌, refl, Bool, true, false, not, ◌&&◌, ◌==◌, Option, none, some, List, [], ◌∷◌,
}
use indexer_gateway_auth.Prelude.{
  All, Result, ok, nat_eq, length, is_some_of, strip_prefix, if◌then◌else◌,
}
use indexer_gateway_auth.Config.{
  Config, AuthMode, TokenEntry, Override, ConfigError, parse, missing_env, resolve_secret,
  resolve_secrets, from_toml_str,
}
use indexer_gateway_auth.Config.Toml.{
  Value, string, boolean, integer, array, table, nil, cons, Table, end, entry,
}
use indexer_gateway_auth.Config.Decode.{struct, config_from, from_str}
use indexer_gateway_auth.Config.Decode.Fields.{fits}
use indexer_gateway_auth.Examples.Documents.{toml}
use indexer_gateway_auth.Tests.{same_texts, ok_and, err_and, some_and}

-- `Config::from_toml_str` on a text that is parsed to the table.
abbrev config_of : (String → Option String) → Table → Result ConfigError Config
config_of env t =
    from_toml_str env (from_str toml (λ text. ok t) (λ t. "a field does not fit")) "text"

abbrev one : String → Value
one text = array (cons (string text) nil)

abbrev rfc_tokens : Value
rfc_tokens = array (
    cons
      (table (
        entry "name" (string "ci-readonly")
          (entry "token" (string "env:IGA_TEST_TOKEN_CI") (entry "scopes" (one "read") end))))
      (cons
        (table (
          entry "name" (string "operator") (
            entry "token" (string "literal-operator-token")
              (entry "scopes" (array (cons (string "read") (cons (string "write") nil))) end))))
        nil))

abbrev rfc_upstream : Table
rfc_upstream = entry "agent_management" (string "http://127.0.0.1:18000") (
    entry "graph_node_admin" (string "http://127.0.0.1:8020")
      (entry "graph_node_status" (string "http://127.0.0.1:8030") end))

abbrev rfc_tls : Table
rfc_tls = entry "enabled" (boolean true) (
    entry "cert" (string "/etc/iga/tls/cert.pem") (
      entry "key" (string "/etc/iga/tls/key.pem")
        (entry "require_client_cert" (boolean false) end)))

abbrev rfc_policy : Table
rfc_policy = entry "fail_closed_on_parse_error" (boolean true) (
    entry "override"
      (array (
        cons
          (table (
            entry "field" (string "executeApprovedActions")
              (entry "require_scopes" (one "actions:execute") end)))
          nil))
      end)

abbrev rfc_example : Table
rfc_example = entry "listen" (string "0.0.0.0:8400") (
    entry "metrics" (string "0.0.0.0:7300") (
      entry "upstream" (table rfc_upstream) (
        entry "tls" (table rfc_tls) (
          entry "auth"
            (table (
              entry "mode" (string "bearer")
                (entry "allow_anonymous_read" (boolean false) (entry "tokens" rfc_tokens end))))
            (entry "policy" (table rfc_policy) (
              entry "ratelimit"
                (table (
                  entry "write_per_minute" (integer 30)
                    (entry "read_per_minute" (integer 600) end)))
                end))))))

abbrev is_bearer : AuthMode → Bool
is_bearer AuthMode.bearer = true
is_bearer _ = false

-- The two tokens of the example.
abbrev tokens_are : List TokenEntry → Bool
tokens_are (ci ∷ operator ∷ []) =
    ci.token == "ci-secret-value"
    && same_texts ci.scopes ("read" ∷ [])
    && operator.token == "literal-operator-token"
tokens_are _ = false

abbrev overrides_are : List Override → Bool
overrides_are (o ∷ []) = is_some_of o.field "executeApprovedActions"
overrides_are _ = false

abbrev ci_env : String → Option String
ci_env name = if name == "IGA_TEST_TOKEN_CI" then some "ci-secret-value" else none

abbrev parses_rfc_example_and_resolves_env : Bool
parses_rfc_example_and_resolves_env = ok_and (config_of ci_env rfc_example) (λ cfg.
    cfg.listen == "0.0.0.0:8400"
    && cfg.upstream.agent_management == "http://127.0.0.1:18000"
    && is_bearer cfg.auth.mode
    && not cfg.auth.allow_anonymous_read
    && tokens_are cfg.auth.tokens
    && overrides_are cfg.policy.overrides
    && nat_eq cfg.ratelimit.write_per_minute 30)

-- The lines that the other documents have in common, before those of `[auth]` and with more at the top.
abbrev minimal : Table → Table → Table
minimal auth more = entry "listen" (string "0.0.0.0:8400") (
    entry "metrics" (string "0.0.0.0:7300") (
      entry "upstream" (table (entry "agent_management" (string "http://127.0.0.1:18000") end))
        (entry "auth" (table auth) more)))

abbrev is_missing : String → ConfigError → Bool
is_missing name (missing_env v) = v == name
is_missing name _ = false

abbrev no_env : String → Option String
no_env name = none

abbrev missing_env_secret_is_an_error : Bool
missing_env_secret_is_an_error =
    err_and
      (config_of no_env (
        minimal
          (entry "mode" (string "bearer") (
            entry "tokens"
              (array (
                cons
                  (table (
                    entry "name" (string "x") (
                      entry "token" (string "env:IGA_DEFINITELY_NOT_SET_12345")
                        (entry "scopes" (one "read") end))))
                  nil))
              end))
          end))
      (is_missing "IGA_DEFINITELY_NOT_SET_12345")

abbrev defaults_apply_when_sections_omitted : Bool
defaults_apply_when_sections_omitted =
    ok_and
      (config_of no_env (
        minimal
          (entry "mode" (string "jwt") (
            entry "jwt"
              (table (
                entry "issuer" (string "https://auth.example.com/") (
                  entry "audience" (string "indexer-management") (
                    entry "jwks_url" (string "https://auth.example.com/.well-known/jwks.json")
                      end))))
              end))
          end))
      (λ cfg.
        nat_eq cfg.ratelimit.write_per_minute 30
        && nat_eq cfg.ratelimit.read_per_minute 600
        && cfg.policy.fail_closed_on_parse_error
        && not cfg.tls.enabled
        && some_and cfg.auth.jwt (λ j. j.scopes_claim == "scopes"))

-- `matches!(_, Err(ConfigError::Parse(_)))`
abbrev is_parse_error : ConfigError → Bool
is_parse_error (parse e) = true
is_parse_error _ = false

abbrev unknown_field_is_rejected : Bool
unknown_field_is_rejected =
    err_and
      (config_of no_env
        (minimal (entry "mode" (string "bearer") end) (entry "surprise" (boolean true) end)))
      is_parse_error

-- config.example.toml: two tokens by reference, TLS off, and every section but `[auth.jwt]`.
abbrev example_tokens : Value
example_tokens = array (
    cons
      (table (
        entry "name" (string "ci-readonly")
          (entry "token" (string "env:IGA_TOKEN_CI") (entry "scopes" (one "read") end))))
      (cons
        (table (
          entry "name" (string "operator") (
            entry "token" (string "env:IGA_TOKEN_OPERATOR")
              (entry "scopes" (array (cons (string "read") (cons (string "write") nil))) end))))
        nil))

abbrev shipped_example : Table
shipped_example = entry "listen" (string "0.0.0.0:8400") (
    entry "metrics" (string "0.0.0.0:7300") (
      entry "upstream" (table rfc_upstream) (
        entry "tls"
          (table
            (entry "enabled" (boolean false) (entry "require_client_cert" (boolean false) end)))
          (entry "auth"
            (table (
              entry "mode" (string "bearer")
                (entry "allow_anonymous_read" (boolean false) (entry "tokens" example_tokens end))))
            (entry "policy" (table rfc_policy) (
              entry "ratelimit"
                (table (
                  entry "write_per_minute" (integer 30)
                    (entry "read_per_minute" (integer 600) end)))
                end))))))

abbrev example_env : String → Option String
example_env name =
    if name == "IGA_TOKEN_CI"
    then some "x"
    else if name == "IGA_TOKEN_OPERATOR"
    then some "y"
    else none

abbrev shipped_example_config_parses : Bool
shipped_example_config_parses =
    ok_and (config_of example_env shipped_example)
      (λ cfg. is_bearer cfg.auth.mode && nat_eq (length cfg.policy.overrides) 1)

config_tests_pass :
    All
      (λ passed. passed ≡ true)
      (parses_rfc_example_and_resolves_env ∷ missing_env_secret_is_an_error
        ∷ defaults_apply_when_sections_omitted ∷ unknown_field_is_rejected
        ∷ shipped_example_config_parses ∷ [])
unfolding from_toml_str from_str config_from struct fits resolve_secrets resolve_secret strip_prefix
config_tests_pass = (refl, (refl, (refl, (refl, (refl, tt)))))
