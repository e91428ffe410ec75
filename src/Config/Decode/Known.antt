-- ===== src/Config/Decode/Known.antt =====
-- No key of a document is passed over.
use indexer_gateway_auth.Prelude.{
  String, ◌≡◌, refl, ◌⊎◌, inl, inr, sym, true, false, Option, none, some, List, [], ◌∷◌, ◌==◌, Memᴰ,
  eq_iff,
}
use indexer_gateway_auth.Prelude.{and_then, Bool-cases, Option-cases}
use indexer_gateway_auth.Config.{
  Config, Auth, Policy, default_true, default_policy, default_rate_limit,
}
use indexer_gateway_auth.Config.Toml.{
  Value, array, table, Items, nil, cons, Table, end, entry, get, keys,
}
use indexer_gateway_auth.Config.Decode.{
  Toml, struct, config_fields, upstream_fields, tls_fields, auth_fields, policy_fields,
  ratelimit_fields, upstream_from, tls_from, default_tls, auth_from, policy_from, ratelimit_from,
  socket_addr_from, document_from, config_from, mode_from, token_fields, token_from, jwt_fields,
  jwt_from, mapping_fields, mapping_from, override_fields, override_from,
}
use indexer_gateway_auth.Config.Decode.Fields.{
  take_name, fits, known, bool_from, items_from, vec_from, required, defaulted, optional,
}
use indexer_gateway_auth.Config.Decode.RoundTrip.{IsToml}

take_name-Memᴰ :
    (key : String) (names others : List String)
    → take_name key names ≡ some others
    → Memᴰ key names × ((n : String) → Memᴰ n others → Memᴰ n names)
take_name-Memᴰ key [] others h = cc
take_name-Memᴰ key (x ∷ xs) others h = elim (Bool-cases (key == x)) [
  | inl e ↦
      let same : xs ≡ others = cc (rw e at h) in
      (Memᴰ.head ((eq_iff key x).0 e), λ n m. Memᴰ.tail (rw same m))
  | inr e ↦ elim (Option-cases (take_name key xs)) [
    | inl f ↦ cc (rw (e, f) at h)
    | inr (ys, f) ↦
        let same : x ∷ ys ≡ others = cc (rw (e, f) at h) in
        let (here, rest) = take_name-Memᴰ key xs ys f in
        (Memᴰ.tail here, λ n m. kept n ys rest (rw (sym same) at m))
  ]
]
  where
    kept :
        (n : String) (ys : List String)
        → ((n : String) → Memᴰ n ys → Memᴰ n xs)
        → Memᴰ n (x ∷ ys)
        → Memᴰ n (x ∷ xs)
    kept n ys rest (Memᴰ.head e) = Memᴰ.head e
    kept n ys rest (Memᴰ.tail m) = Memᴰ.tail (rest n m)

fits-keys :
    (names : List String) (t : Table)
    → fits names t ≡ true
    → (k : String) → Memᴰ k (keys t)
    → Memᴰ k names
unfolding fits
fits-keys names end h k m = elim m [ ]
fits-keys names (entry key v later_entries) h k m = elim (Option-cases (take_name key names)) [
  | inl e ↦ cc (rw (e, fits) at h)
  | inr (others, e) ↦
      let (here, rest) = take_name-Memᴰ key names others e in
      elim m [
        | Memᴰ.head same ↦ rw same here
        | Memᴰ.tail later ↦ rest k (fits-keys others later_entries (rw (e, fits) at h) k later)
      ]
]

and_then-some :
    {A B : Type 0} (o : Option A) (f : A → Option B) (b : B)
    → and_then o f ≡ some b
    → (a : A) × (o ≡ some a) × (f a ≡ some b)
and_then-some none f b h = cc
and_then-some (some a) f b h = (a, refl, h)

-- Every key of the table is one of the names.
abbrev pub IsKnown : List String → Table → Type 0
IsKnown names t = (k : String) → Memᴰ k (keys t) → Memᴰ k names

-- What holds of the section, if it is a table.
abbrev pub InSection : String → (Table → Type 0) → Table → Type 0
InSection section P t = (s : Table) → get section t ≡ some (table s) → P s

abbrev pub Holds : Value → Items → Type 0
Holds v nil = ⊥
Holds v (cons w ws) = (v ≡ w) ⊎ Holds v ws

-- What holds of each table of the array.
abbrev pub InArray : String → (Table → Type 0) → Table → Type 0
InArray name P t =
    (vs : Items) → get name t ≡ some (array vs) → (s : Table) → Holds (table s) vs → P s

abbrev pub IsAuthKnown : Table → Type 0
IsAuthKnown s =
    IsKnown ("mode" ∷ "allow_anonymous_read" ∷ "tokens" ∷ "jwt" ∷ "mtls" ∷ []) s
    × InSection "jwt"
        (IsKnown ("issuer" ∷ "audience" ∷ "jwks_url" ∷ "hs256_secret" ∷ "scopes_claim" ∷ [])) s
    × InArray "tokens" (IsKnown ("name" ∷ "token" ∷ "scopes" ∷ [])) s
    × InArray "mtls" (IsKnown ("subject" ∷ "name" ∷ "scopes" ∷ [])) s

abbrev pub IsPolicyKnown : Table → Type 0
IsPolicyKnown s =
    IsKnown ("fail_closed_on_parse_error" ∷ "override" ∷ []) s
    × InArray "override" (IsKnown ("field" ∷ "operation" ∷ "require_scopes" ∷ [])) s

abbrev pub IsDocumentKnown : Table → Type 0
IsDocumentKnown t =
    IsKnown ("listen" ∷ "metrics" ∷ "upstream" ∷ "tls" ∷ "auth" ∷ "policy" ∷ "ratelimit" ∷ []) t
    × InSection "upstream"
        (IsKnown ("agent_management" ∷ "graph_node_admin" ∷ "graph_node_status" ∷ [])) t
    × InSection "tls"
        (IsKnown ("enabled" ∷ "cert" ∷ "key" ∷ "require_client_cert" ∷ "client_ca" ∷ [])) t
    × InSection "auth" IsAuthKnown t
    × InSection "policy" IsPolicyKnown t
    × InSection "ratelimit" (IsKnown ("write_per_minute" ∷ "read_per_minute" ∷ [])) t

known-fits :
    {A : Type 0} (names : List String) (decode : Table → Option A) (t : Table) (a : A)
    → known names decode t ≡ some a
    → (fits names t ≡ true) × (decode t ≡ some a)
known-fits names decode t a h = elim (Bool-cases (fits names t)) [
  | inl e ↦ (e, rw e at h)
  | inr e ↦ cc (rw e at h)
]

module _ (toml : Toml) (laws : IsToml toml) where
  module _ {A : Type 0} (names : List String) (decode : Table → Option A) where
    struct-IsKnown :
        (s : Table) (a : A)
        → struct toml names decode (table s) ≡ some a
        → IsKnown names s × (decode s ≡ some a)
    unfolding struct
    struct-IsKnown s a h =
        let (fit, made) = known-fits names decode s a (rw (laws.as_fields-table names s) at h) in
        (fits-keys names s fit, made)

    required-InSection :
        (section : String) (t : Table) (a : A)
        → required (struct toml names decode) section t ≡ some a
        → InSection section (λ s. IsKnown names s × (decode s ≡ some a)) t
    required-InSection section t a h s e = struct-IsKnown s a (rw e at h)

    defaulted-InSection :
        (default : A) (section : String) (t : Table) (a : A)
        → defaulted (struct toml names decode) default section t ≡ some a
        → InSection section (λ s. IsKnown names s × (decode s ≡ some a)) t
    defaulted-InSection default section t a h s e = struct-IsKnown s a (rw e at h)

    optional-InSection :
        (section : String) (t : Table) (a : Option A)
        → optional (struct toml names decode) section t ≡ some a
        → InSection section (IsKnown names) t
    optional-InSection section t a h s e =
        elim (Option-cases (struct toml names decode (table s))) [
          | inl none_made ↦ cc (rw (e, none_made) at h)
          | inr (b, made) ↦ (struct-IsKnown s b made).0
        ]

    items_from-IsKnown :
        (vs : Items) (xs : List A)
        → items_from (struct toml names decode) vs ≡ some xs
        → (s : Table) → Holds (table s) vs
        → IsKnown names s
    items_from-IsKnown nil xs h s m = absurd m
    items_from-IsKnown (cons v vs) xs h s m =
        let (a, made, rest) = and_then-some (struct toml names decode v) _ xs h in
        elim m [
          | inl same ↦ (struct-IsKnown s a (rw same made)).0
          | inr later ↦ elim (Option-cases (items_from (struct toml names decode) vs)) [
            | inl e ↦ cc (rw e at rest)
            | inr (ys, e) ↦ items_from-IsKnown vs ys e s later
          ]
        ]

    defaulted-InArray :
        (default : List A) (name : String) (t : Table) (xs : List A)
        → defaulted (vec_from (struct toml names decode)) default name t ≡ some xs
        → InArray name (IsKnown names) t
    defaulted-InArray default name t xs h vs e = items_from-IsKnown vs xs (rw e at h)

  auth_from-IsKnown :
      (s : Table) (a : Auth) → IsKnown auth_fields s → auth_from toml s ≡ some a → IsAuthKnown s
  auth_from-IsKnown s a here h0 =
      let (_, _, h1) = and_then-some (required (mode_from toml) "mode" s) _ a h0 in
      let (_, _, h2) = and_then-some (defaulted bool_from false "allow_anonymous_read" s) _ a h1 in
      let (ts, tokens, h3) =
        and_then-some (defaulted (vec_from (struct toml token_fields token_from)) [] "tokens" s) _ a
          h2 in
      let (j, jwt, h4) =
        and_then-some (optional (struct toml jwt_fields jwt_from) "jwt" s) _ a h3 in
      let (ms, mtls, _) =
        and_then-some (defaulted (vec_from (struct toml mapping_fields mapping_from)) [] "mtls" s) _
          a h4 in
      (
        here,
        optional-InSection jwt_fields jwt_from "jwt" s j jwt,
        defaulted-InArray token_fields token_from [] "tokens" s ts tokens,
        defaulted-InArray mapping_fields mapping_from [] "mtls" s ms mtls,
      )

  policy_from-IsKnown :
      (s : Table) (p : Policy)
      → IsKnown policy_fields s
      → policy_from toml s ≡ some p
      → IsPolicyKnown s
  policy_from-IsKnown s p here h0 =
      let (_, _, h1) =
        and_then-some (defaulted bool_from default_true "fail_closed_on_parse_error" s) _ p h0 in
      let (os, overrides, _) =
        and_then-some
          (defaulted (vec_from (struct toml override_fields override_from)) [] "override" s) _ p
          h1 in
      (here, defaulted-InArray override_fields override_from [] "override" s os overrides)

  -- A document that is accepted has only keys that the program knows, at its top, in each of its
  -- sections that is a table, in [auth.jwt] if that is a table, and in each table of the arrays of
  -- tokens and of certificate mappings in [auth] and of overrides in [policy]: a misspelt key is
  -- refused, and never passed over for a default.
  pub config_from-IsKnown :
      (t : Table) (c : Config) → config_from toml t ≡ some c → IsDocumentKnown t
  unfolding config_from
  config_from-IsKnown t c h =
      let (fit, h0) = known-fits config_fields (document_from toml) t c h in
      let (l, e1, h1) = and_then-some (required (socket_addr_from toml) "listen" t) _ c h0 in
      let (m, e2, h2) = and_then-some (required (socket_addr_from toml) "metrics" t) _ c h1 in
      let (u, upstream, h3) =
        and_then-some (required (struct toml upstream_fields upstream_from) "upstream" t) _ c h2 in
      let (s, tls, h4) =
        and_then-some (defaulted (struct toml tls_fields tls_from) default_tls "tls" t) _ c h3 in
      let (a, auth, h5) =
        and_then-some (required (struct toml auth_fields (auth_from toml)) "auth" t) _ c h4 in
      let (p, policy, h6) =
        and_then-some
          (defaulted (struct toml policy_fields (policy_from toml)) default_policy "policy" t) _ c
          h5 in
      let (r, ratelimit, h7) =
        and_then-some
          (defaulted (struct toml ratelimit_fields ratelimit_from) default_rate_limit "ratelimit" t)
          _ c h6 in
      (
        fits-keys config_fields t fit,
        λ x e. (required-InSection upstream_fields upstream_from "upstream" t u upstream x e).0,
        λ x e. (defaulted-InSection tls_fields tls_from default_tls "tls" t s tls x e).0,
        λ x e.
            let (known_keys, made) =
              required-InSection auth_fields (auth_from toml) "auth" t a auth x e in
            auth_from-IsKnown x a known_keys made,
        λ x e.
            let (known_keys, made) =
              defaulted-InSection policy_fields (policy_from toml) default_policy "policy" t p
                policy x e in
            policy_from-IsKnown x p known_keys made,
        λ x e.
            (defaulted-InSection ratelimit_fields ratelimit_from default_rate_limit "ratelimit" t r
              ratelimit x e).0,
      )
