-- ===== src/Proxy/Headers.antt =====
-- Which headers pass the gateway.
use indexer_gateway_auth.Prelude.{
  String, ◌≡◌, refl, ap, ◌∙◌, ◌↔◌, ◌⊎◌, inl, inr, Bool, true, false, not, ◌||◌, List, [], ◌∷◌, ◌==◌,
  arith, eq_iff,
}
use indexer_gateway_auth.Prelude.{Bytes, filter, Bool-cases, or_cases, if◌then◌else◌}
use indexer_gateway_auth.Prelude.Sets.{◌∈◌}
use indexer_gateway_auth.Proxy.{
  Headers, hop_by_hop, is_hop_by_hop, filter_forward_headers, filter_response_headers,
}

-- The values of a header, in order.
abbrev pub values : String → Headers → List Bytes
values name [] = []
values name ((key, value) ∷ rest) =
    if key == name then value ∷ values name rest else values name rest

-- A filter that looks at names alone keeps all values of a name, or none.
values-filter :
    (keep : String → Bool) (name : String) (headers : Headers)
    → values name (filter (λ h. keep h.0) headers) ≡ (if keep name then values name headers else [])
values-filter keep name [] = ground arith
values-filter keep name ((key, value) ∷ rest) =
    ground (arith, values-filter keep name rest, eq_iff key name)

is_hop_by_hop_iff : (name : String) → (is_hop_by_hop name ≡ true) ↔ (name ∈ hop_by_hop)
unfolding is_hop_by_hop
is_hop_by_hop_iff name = (λ h. h, λ h. h)

-- The headers that are not for the upstream.
abbrev pub IsConsumed : String → Type 0
IsConsumed name = (name ∈ hop_by_hop) ⊎ (name ≡ "host") ⊎ (name ≡ "authorization")

is_consumed : String → Bool
is_consumed name = is_hop_by_hop name || name == "host" || name == "authorization"

is_consumed_iff : (name : String) → (is_consumed name ≡ true) ↔ IsConsumed name
unfolding is_consumed
is_consumed_iff name = (
  λ h. elim (or_cases _ _ h) [
    | inr e ↦ inr (inr ((eq_iff _ _).0 e))
    | inl h' ↦ elim (or_cases _ _ h') [
      | inl m ↦ inl ((is_hop_by_hop_iff name).0 m)
      | inr e ↦ inr (inl ((eq_iff _ _).0 e))
    ]
  ],
  elim [
    | inl m ↦ rw ((is_hop_by_hop_iff name).1 m) refl
    | inr (inl e) ↦ let t = (eq_iff name "host").1 e in ground arith
    | inr (inr e) ↦ let t = (eq_iff name "authorization").1 e in ground arith
  ],
)

values-kept :
    (keep : String → Bool) (name : String) (headers : Headers) (b : Bool)
    → keep name ≡ b
    → values name (filter (λ h. keep h.0) headers) ≡ (if b then values name headers else [])
values-kept keep name headers b e =
    values-filter keep name headers ∙ ap (λ (t : Bool). if t then values name headers else []) e

-- What is forwarded has no value of a hop-by-hop header, of `host` or of `authorization`; of every
-- other header it has the values that came, in their order and as often.
pub filter_forward_headers-values :
    (name : String) (headers : Headers)
    → (IsConsumed name → values name (filter_forward_headers headers) ≡ [])
      × (¬ IsConsumed name → values name (filter_forward_headers headers) ≡ values name headers)
unfolding filter_forward_headers is_consumed
filter_forward_headers-values name headers = (
  λ c.
      values-kept (λ n. not (is_consumed n)) name headers false
        (let e = (is_consumed_iff name).1 c in ap not e),
  λ c. elim (Bool-cases (is_consumed name)) [
    | inl e ↦ absurd (c ((is_consumed_iff name).0 e))
    | inr e ↦ values-kept (λ n. not (is_consumed n)) name headers true (ap not e)
  ],
)

-- What is relayed to the client has no value of a hop-by-hop header or of `content-length`; of every
-- other header it has the values that the upstream gave, in their order and as often.
pub filter_response_headers-values :
    (name : String) (headers : Headers)
    → ((name ∈ hop_by_hop) ⊎ (name ≡ "content-length")
        → values name (filter_response_headers headers) ≡ [])
      × (¬ ((name ∈ hop_by_hop) ⊎ (name ≡ "content-length"))
          → values name (filter_response_headers headers) ≡ values name headers)
unfolding filter_response_headers
filter_response_headers-values name headers =
    let keep = λ (n : String). not (is_hop_by_hop n || n == "content-length") in
    (
      elim [
        | inl m ↦ values-kept keep name headers false (rw ((is_hop_by_hop_iff name).1 m) refl)
        | inr e ↦
            let t = (eq_iff name "content-length").1 e in
            values-kept keep name headers false (ground arith)
      ],
      λ c. elim (Bool-cases (is_hop_by_hop name || name == "content-length")) [
        | inr e ↦ values-kept keep name headers true (ap not e)
        | inl e ↦ elim (or_cases _ _ e) [
          | inl m ↦ absurd (c (inl ((is_hop_by_hop_iff name).0 m)))
          | inr l ↦ absurd (c (inr ((eq_iff _ _).0 l)))
        ]
      ],
    )
