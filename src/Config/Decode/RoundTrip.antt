-- ===== src/Config/Decode/RoundTrip.antt =====
-- That the deserialization reads back the table that a configuration is written as.
use indexer_gateway_auth.Prelude.{
  ℕ, ◌<◌, String, ◌≡◌, refl, ◌∙◌, Bool, true, Option, none, some, List, [], ◌∷◌, arith, ltb,
}
use indexer_gateway_auth.Config.{
  Config, Upstream, Tls, AuthMode, MtlsMapping, TokenEntry, JwtConfig, Auth, Override, Policy,
  RateLimit,
}
use indexer_gateway_auth.Config.Toml.{Value, string, array, table, Table}
use indexer_gateway_auth.Config.Decode.{
  Toml, upstream_fields, upstream_from, tls_fields, tls_from, mapping_fields, mapping_from,
  token_fields, token_from, jwt_fields, jwt_from, override_fields, override_from, ratelimit_fields,
  ratelimit_from, policy_fields, policy_from, auth_fields, auth_from, struct, mode_from,
  config_from,
}
use indexer_gateway_auth.Config.Decode.Fields.{fits, string_from, vec_from}
use indexer_gateway_auth.Config.Decode.Document.{
  items_of, texts, upstream_table, tls_table, mapping_table, token_table, jwt_table, override_table,
  ratelimit_table, policy_table, mode_name, auth_table, config_table,
}

-- What the crate documents: the fields that a table gives to a struct are its entries, and a text is
-- the unit variant with that name.
pub record IsToml (toml : Toml) : Type 0 where
  pub as_fields-table : (names : List String) (t : Table) → toml.as_fields names (table t) ≡ some t
  pub variant_of-string : (s : String) → toml.variant_of (string s) ≡ some s

module _ {A : Type 0} (decode : Value → Option A) (encode : A → Value)
    (inverse : (a : A) → decode (encode a) ≡ some a) where
  vec_from-items_of : (xs : List A) → vec_from decode (array (items_of encode xs)) ≡ some xs
  vec_from-items_of [] = refl
  vec_from-items_of (x ∷ xs) = rw (inverse x, vec_from-items_of xs) refl

ltb-true : {m n : ℕ} → m < n → ltb m n ≡ true
ltb-true h = ground arith

vec_from-texts : (ss : List String) → vec_from string_from (texts ss) ≡ some ss
vec_from-texts ss = vec_from-items_of string_from string (λ s. refl) ss

module _ (toml : Toml) (laws : IsToml toml) where
  upstream-read :
      (a : String) (b c : Option String)
      → let u : Upstream = record {
        agent_management = a;
        graph_node_admin = b;
        graph_node_status = c;
      } in
        struct toml upstream_fields upstream_from (table (upstream_table u)) ≡ some u
  unfolding struct fits
  upstream-read a none none = rw (laws.as_fields-table _ _) refl
  upstream-read a none (some c) = rw (laws.as_fields-table _ _) refl
  upstream-read a (some b) none = rw (laws.as_fields-table _ _) refl
  upstream-read a (some b) (some c) = rw (laws.as_fields-table _ _) refl

  override-read :
      (a b : Option String) (ss : List String)
      → let o : Override = record { field = a; operation = b; require_scopes = ss } in
        struct toml override_fields override_from (table (override_table o)) ≡ some o
  unfolding struct fits
  override-read none none ss = rw (laws.as_fields-table _ _, vec_from-texts ss) refl
  override-read none (some b) ss = rw (laws.as_fields-table _ _, vec_from-texts ss) refl
  override-read (some a) none ss = rw (laws.as_fields-table _ _, vec_from-texts ss) refl
  override-read (some a) (some b) ss = rw (laws.as_fields-table _ _, vec_from-texts ss) refl

  tls-read :
      (on required : Bool) (a b c : Option String)
      → let t : Tls = record {
        enabled = on;
        cert = a;
        key = b;
        require_client_cert = required;
        client_ca = c;
      } in
        struct toml tls_fields tls_from (table (tls_table t)) ≡ some t
  unfolding struct fits
  tls-read on required none none none = rw (laws.as_fields-table _ _) refl
  tls-read on required none none (some c) = rw (laws.as_fields-table _ _) refl
  tls-read on required none (some b) none = rw (laws.as_fields-table _ _) refl
  tls-read on required none (some b) (some c) = rw (laws.as_fields-table _ _) refl
  tls-read on required (some a) none none = rw (laws.as_fields-table _ _) refl
  tls-read on required (some a) none (some c) = rw (laws.as_fields-table _ _) refl
  tls-read on required (some a) (some b) none = rw (laws.as_fields-table _ _) refl
  tls-read on required (some a) (some b) (some c) = rw (laws.as_fields-table _ _) refl

  jwt-read :
      (issuer audience claim : String) (a b : Option String)
      → let j : JwtConfig = record {
        issuer = issuer;
        audience = audience;
        jwks_url = a;
        hs256_secret = b;
        scopes_claim = claim;
      } in
        struct toml jwt_fields jwt_from (table (jwt_table j)) ≡ some j
  unfolding struct fits
  jwt-read i u claim none none = rw (laws.as_fields-table _ _) refl
  jwt-read i u claim none (some b) = rw (laws.as_fields-table _ _) refl
  jwt-read i u claim (some a) none = rw (laws.as_fields-table _ _) refl
  jwt-read i u claim (some a) (some b) = rw (laws.as_fields-table _ _) refl

  token-read :
      (t : TokenEntry) → struct toml token_fields token_from (table (token_table t)) ≡ some t
  unfolding struct fits
  token-read t = rw (laws.as_fields-table _ _, vec_from-texts t.scopes) refl

  mapping-read :
      (m : MtlsMapping) → struct toml mapping_fields mapping_from (table (mapping_table m)) ≡ some m
  unfolding struct fits
  mapping-read m = rw (laws.as_fields-table _ _, vec_from-texts m.scopes) refl

  ratelimit-read :
      (r : RateLimit)
      → ltb r.write_per_minute 4294967296 ≡ true
      → ltb r.read_per_minute 4294967296 ≡ true
      → struct toml ratelimit_fields ratelimit_from (table (ratelimit_table r)) ≡ some r
  unfolding struct fits
  ratelimit-read r w d = rw (laws.as_fields-table _ _, w, d) refl

  struct-table :
      {A : Type 0} (names : List String) (decode : Table → Option A) (t : Table)
      → fits names t ≡ true
      → struct toml names decode (table t) ≡ decode t
  unfolding struct
  struct-table names decode t h = rw (laws.as_fields-table names t, h) refl

  overrides-read :
      (os : List Override)
      → vec_from
          (struct toml override_fields override_from)
          (array (items_of (λ o. table (override_table o)) os))
        ≡ some os
  overrides-read =
      vec_from-items_of _ (λ (o : Override). table (override_table o))
        (λ o. override-read o.field o.operation o.require_scopes)

  policy-read :
      (p : Policy) → struct toml policy_fields (policy_from toml) (table (policy_table p)) ≡ some p
  unfolding fits
  policy-read p =
      struct-table policy_fields (policy_from toml) (policy_table p) refl
      ∙ rw (overrides-read p.overrides) refl

  tokens-read :
      (ts : List TokenEntry)
      → vec_from
          (struct toml token_fields token_from)
          (array (items_of (λ t. table (token_table t)) ts))
        ≡ some ts
  tokens-read = vec_from-items_of _ (λ (t : TokenEntry). table (token_table t)) token-read

  mappings-read :
      (ms : List MtlsMapping)
      → vec_from
          (struct toml mapping_fields mapping_from)
          (array (items_of (λ m. table (mapping_table m)) ms))
        ≡ some ms
  mappings-read = vec_from-items_of _ (λ (m : MtlsMapping). table (mapping_table m)) mapping-read

  mode-read : (m : AuthMode) → mode_from toml (string (mode_name m)) ≡ some m
  mode-read AuthMode.bearer = rw (laws.variant_of-string "bearer") refl
  mode-read AuthMode.jwt = rw (laws.variant_of-string "jwt") refl
  mode-read AuthMode.mtls = rw (laws.variant_of-string "mtls") refl

  auth-read :
      (mode : AuthMode) (anonymous : Bool) (ts : List TokenEntry) (jwt : Option JwtConfig)
      (ms : List MtlsMapping)
      → let a : Auth = record {
        mode = mode;
        allow_anonymous_read = anonymous;
        tokens = ts;
        jwt = jwt;
        mtls = ms;
      } in
        struct toml auth_fields (auth_from toml) (table (auth_table a)) ≡ some a
  unfolding fits
  auth-read mode anonymous ts none ms =
      struct-table auth_fields (auth_from toml) _ refl
      ∙ rw (mode-read mode, tokens-read ts, mappings-read ms) refl
  auth-read mode anonymous ts (some j) ms =
      struct-table auth_fields (auth_from toml) _ refl
      ∙ rw
          (
            mode-read mode,
            tokens-read ts,
            mappings-read ms,
            jwt-read j.issuer j.audience j.scopes_claim j.jwks_url j.hs256_secret,
          )
          refl

  -- Every configuration whose addresses are socket addresses and whose budgets are below 2 ^ 32 can be
  -- written as a document, one table for each section, and is read back from it as it was.
  pub config_from-config_table :
      (c : Config)
      → toml.is_socket_addr c.listen ≡ true
      → toml.is_socket_addr c.metrics ≡ true
      → c.ratelimit.write_per_minute < 4294967296
      → c.ratelimit.read_per_minute < 4294967296
      → config_from toml (config_table c) ≡ some c
  unfolding config_from fits
  config_from-config_table c l m w d =
      let u = c.upstream in
      let t = c.tls in
      let a = c.auth in
      rw
        (
          l,
          m,
          upstream-read u.agent_management u.graph_node_admin u.graph_node_status,
          tls-read t.enabled t.require_client_cert t.cert t.key t.client_ca,
          auth-read a.mode a.allow_anonymous_read a.tokens a.jwt a.mtls,
          policy-read c.policy,
          ratelimit-read c.ratelimit (ltb-true w) (ltb-true d),
        )
        refl
