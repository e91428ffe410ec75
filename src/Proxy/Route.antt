-- ===== src/Proxy/Route.antt =====
-- Which paths go to which upstream.
use Prim.Native.Char.{code, Char}
use Prim.Native.String
use text.Mathlib.TextEquality.{Char-path}
use text.Mathlib.TextLemmas.{
  append-nil, nil-append, cons-append, nil≢cons, cons≢nil, head-eq_of_cons-eq,
}
use indexer_gateway_auth.Prelude.{
  String, ◌≡◌, refl, sym, ap, ◌∙◌, ◌↔◌, ◌⊎◌, inl, inr, true, Option, none, some, arith,
}
use indexer_gateway_auth.Prelude.{
  nat_eq, strip_prefix, strip_prefix-eq-some, Bool-cases, Option-cases,
}
use indexer_gateway_auth.Proxy.{
  UpstreamTarget, admin_prefix, status_prefix, segment_rest, strip_prefix_segment, route,
}

infixr 65 ◌++◌
abbrev ◌++◌ : String → String → String
s ++ t = String.◌++◌ s t

-- The path is the prefix itself, or goes on behind it with a slash; and what is forwarded is the
-- path without the prefix, or the root.
abbrev pub IsUnder : String → String → String → Type 0
IsUnder prefix path forwarded =
    ((path ≡ prefix) × (forwarded ≡ "/"))
    ⊎ ((rest : String) × (path ≡ prefix ++ "/" ++ rest) × (forwarded ≡ "/" ++ rest))

abbrev slash : Char
slash = "/"

slash_append : (rest : String) → ("/" ++ rest) ≡ String.◌∷◌ slash rest
slash_append rest = cons-append slash "" rest ∙ ap (λ t. String.◌∷◌ slash t) (nil-append rest)

segment_rest_iff :
    (rest forwarded : String)
    → (segment_rest rest ≡ some forwarded) ↔ (
        ((rest ≡ "") × (forwarded ≡ "/"))
        ⊎ ((r : String) × (rest ≡ "/" ++ r) × (forwarded ≡ "/" ++ r)))
segment_rest_iff String.[] forwarded = (
  λ h. inl (refl, ground arith),
  elim [ inl (_, e) ↦ rw e refl | inr (r, e, _) ↦ absurd (nil≢cons (e ∙ slash_append r)) ],
)
segment_rest_iff (String.◌∷◌ c s) forwarded = (
  λ h. elim (Bool-cases (nat_eq (code c) b'/')) [
    | inl e ↦
        let is_slash : c ≡ slash = Char-path c slash (ground arith) in
        let begins = ap (λ d. String.◌∷◌ d s) is_slash ∙ sym (slash_append s) in
        let whole : String.◌∷◌ c s ≡ forwarded = ground arith in inr (s, begins, sym whole ∙ begins)
    | inr e ↦ absurd (ground arith)
  ],
  elim [
    | inl (e, _) ↦ absurd (cons≢nil e)
    | inr (r, e, f) ↦
        let test : nat_eq (code c) b'/' ≡ true =
          rw (head-eq_of_cons-eq (e ∙ slash_append r)) refl in
        rw test (ap {B = Option String} some (e ∙ sym f))
  ],
)

strip_prefix_segment_iff :
    (path prefix forwarded : String)
    → (strip_prefix_segment path prefix ≡ some forwarded) ↔ IsUnder prefix path forwarded
unfolding strip_prefix_segment
strip_prefix_segment_iff path prefix forwarded = (
  λ h. elim (Option-cases (strip_prefix path prefix)) [
    | inl e ↦ absurd (ground arith)
    | inr (rest, e) ↦
        let split = (strip_prefix-eq-some path prefix rest).0 e in
        elim ((segment_rest_iff rest forwarded).0 (ground arith)) [
          | inl (empty, f) ↦ inl (split ∙ ap (λ t. prefix ++ t) empty ∙ append-nil prefix, f)
          | inr (r, more, f) ↦ inr (r, split ∙ ap (λ t. prefix ++ t) more, f)
        ]
  ],
  elim [
    | inl (e, f) ↦
        let found = (strip_prefix-eq-some path prefix "").1 (e ∙ sym (append-nil prefix)) in
        rw (found) ((segment_rest_iff "" forwarded).1 (inl (refl, f)))
    | inr (r, e, f) ↦
        let found = (strip_prefix-eq-some path prefix ("/" ++ r)).1 e in
        rw found ((segment_rest_iff ("/" ++ r) forwarded).1 (inr (r, refl, f)))
  ],
)

-- The path is under no such prefix.
abbrev pub IsOutside : String → String → Type 0
IsOutside prefix path = (forwarded : String) → ¬ IsUnder prefix path forwarded

-- Where a path goes, and what is forwarded of it: under "/_admin" to the admin endpoint, else under
-- "/_status" to the status endpoint, each without the prefix, and any other path unchanged to the
-- management API. A prefix counts only as whole path segments.
pub data Routed (path : String) : UpstreamTarget → String → Type 0 where
  to_admin :
      {forwarded : String}
      → IsUnder admin_prefix path forwarded
      → Routed path UpstreamTarget.graph_node_admin forwarded
  to_status :
      {forwarded : String}
      → IsOutside admin_prefix path
      → IsUnder status_prefix path forwarded
      → Routed path UpstreamTarget.graph_node_status forwarded
  to_management :
      IsOutside admin_prefix path
      → IsOutside status_prefix path
      → Routed path UpstreamTarget.agent_management path

IsOutside-of_none :
    (path prefix : String) → strip_prefix_segment path prefix ≡ none → IsOutside prefix path
IsOutside-of_none path prefix e forwarded u =
    cc (e, (strip_prefix_segment_iff path prefix forwarded).1 u)

-- Every path goes where `Routed` says: under "/_admin", which is that path itself or one behind it
-- that begins with "/", to the admin endpoint; else under "/_status" to the status endpoint; each
-- without the prefix, and with "/" where nothing is left. Any other path goes unchanged to the
-- management API.
pub route-Routed : (path : String) → Routed path (route path).0 (route path).1
unfolding route
route-Routed path = elim (Option-cases (strip_prefix_segment path admin_prefix)) [
  | inr (rest, e) ↦ rw e (to_admin ((strip_prefix_segment_iff path admin_prefix rest).0 e))
  | inl e ↦ elim (Option-cases (strip_prefix_segment path status_prefix)) [
    | inr (rest, f) ↦
        rw (e, f)
          (to_status (IsOutside-of_none path admin_prefix e)
            ((strip_prefix_segment_iff path status_prefix rest).0 f))
    | inl f ↦
        rw (e, f)
          (to_management (IsOutside-of_none path admin_prefix e)
            (IsOutside-of_none path status_prefix f))
  ]
]
