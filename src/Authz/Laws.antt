-- ===== src/Authz/Laws.antt =====
-- The decision of `authorize`.
use indexer_gateway_auth.Prelude.{
  String, ◌≡◌, refl, ◌≢◌, ◌↔◌, inl, inr, true, false, not, List, Memᴰ, arith, eq_iff,
}
use indexer_gateway_auth.Prelude.{Result, ok, err, filter, is_empty, Bool-cases, Bool-ext}
use indexer_gateway_auth.Prelude.Sets.{◌∈◌, contains-filter, is_empty_iff}
use indexer_gateway_auth.Prelude.Sets.Increasing.{eq_of_same_elements}
use indexer_gateway_auth.Config.{Override, Policy}
use indexer_gateway_auth.Principal.{Principal, anonymous, satisfies}
use indexer_gateway_auth.Principal.Laws.{satisfies-anonymous_iff}
use indexer_gateway_auth.Classify.{write, Classification}
use indexer_gateway_auth.Authz.{Denied, required_scopes, authorize}
use indexer_gateway_auth.Authz.Required.{Demands, required_scopes_iff, required_scopes-IsIncreasing}

module _ (p : Principal) (c : Classification) (policy : Policy) where
  abbrev unmet : List String
  unmet = filter (λ scope. not (satisfies p scope)) (required_scopes c policy)

  unmet_iff :
      (scope : String) → (scope ∈ unmet) ↔ (Demands c policy scope × (satisfies p scope ≡ false))
  unmet_iff scope =
      let inside = contains-filter (λ s. not (satisfies p s)) (required_scopes c policy) scope in
      let (to, from) = required_scopes_iff c policy scope in
      (λ m. (to (ground arith), ground arith), λ (d, u). let m = from d in ground arith)

  -- The principal satisfies every scope that the request requires.
  abbrev pub Covered : Type 0
  Covered = (scope : String) → Demands c policy scope → satisfies p scope ≡ true

  empty-iff-Covered : (is_empty unmet ≡ true) ↔ Covered
  empty-iff-Covered =
      let (to, from) = is_empty_iff unmet in
      (
        λ e scope d. elim (Bool-cases (satisfies p scope)) [
          | inl h ↦ h
          | inr u ↦ absurd (to e scope ((unmet_iff scope).1 (d, u)))
        ],
        λ h. from (λ scope m. let (d, u) = (unmet_iff scope).0 m in cc (h scope d)),
      )

  authorize-empty : is_empty unmet ≡ true → authorize p c policy ≡ ok (required_scopes c policy)
  unfolding authorize
  authorize-empty e = rw e

  authorize-nonempty :
      is_empty unmet ≡ false
      → authorize p c policy ≡ err (record { required = required_scopes c policy; missing = unmet })
  unfolding authorize
  authorize-nonempty e = rw e

  -- A request is authorized exactly if the principal satisfies every scope that it requires: the
  -- base scope, and those of each override that applies to one of its operations. The result then
  -- lists the required scopes.
  pub authorize-ok_iff : (authorize p c policy ≡ ok (required_scopes c policy)) ↔ Covered
  authorize-ok_iff = elim (Bool-cases (is_empty unmet)) [
    | inl e ↦ (λ _. empty-iff-Covered.0 e, λ _. authorize-empty e)
    | inr e ↦ (λ h. cc (h, authorize-nonempty e), λ h. cc (empty-iff-Covered.1 h, e))
  ]

  pub Covered-authorize : (required : List String) → authorize p c policy ≡ ok required → Covered
  Covered-authorize required h = elim (Bool-cases (is_empty unmet)) [
    | inl e ↦ empty-iff-Covered.0 e
    | inr e ↦ cc (h, authorize-nonempty e)
  ]

  -- Whatever the decision, it is one of two. Either the principal covers the request and the result
  -- is the required scopes; or it is a denial that lists exactly the required scopes, and exactly
  -- those of them that the principal does not satisfy, of which there is at least one.
  pub data Decision : Result Denied (List String) → Type 0 where
    allowed :
        {required : List String}
        → Covered
        → ((scope : String) → (scope ∈ required) ↔ Demands c policy scope)
        → Decision (ok required)
    refused :
        {d : Denied}
        → ((scope : String) → (scope ∈ d.required) ↔ Demands c policy scope)
        → ((scope : String)
            → (scope ∈ d.missing) ↔ (Demands c policy scope × (satisfies p scope ≡ false)))
        → is_empty d.missing ≡ false
        → Decision (err d)

  -- On every branch: either the principal covers the request, and the result lists exactly the
  -- required scopes; or the request is denied, and the denial lists exactly the required scopes, and
  -- as missing exactly those of them that the principal does not satisfy, at least one.
  pub authorize-Decision : Decision (authorize p c policy)
  authorize-Decision = elim (Bool-cases (is_empty unmet)) [
    | inl e ↦
        rw (authorize-empty e) (allowed (empty-iff-Covered.0 e) (required_scopes_iff c policy))
    | inr e ↦ rw (authorize-nonempty e) (refused (required_scopes_iff c policy) unmet_iff e)
  ]

-- Two requests that require the same scopes get the same decision, with the same lists in the same
-- order: the order of operations and of overrides, and repetition, make no difference.
pub authorize_canonical :
    (p : Principal) (c c' : Classification) (policy policy' : Policy)
    → ((scope : String) → Demands c policy scope ↔ Demands c' policy' scope)
    → authorize p c policy ≡ authorize p c' policy'
unfolding authorize
authorize_canonical p c c' policy policy' same =
    let e =
      eq_of_same_elements (required_scopes c policy) (required_scopes c' policy')
        (required_scopes-IsIncreasing c policy) (required_scopes-IsIncreasing c' policy')
        (λ z.
          let (to, from) = required_scopes_iff c policy z in
          let (to', from') = required_scopes_iff c' policy' z in
          Bool-ext _ _ (λ m. from' ((same z).0 (to m))) (λ m. from ((same z).1 (to' m)))) in
    rw e

-- A policy that has every override of another, and any more, never turns a denial into an
-- authorization: what it authorizes, the other authorizes.
pub overrides_tighten :
    (p : Principal) (c : Classification) (policy stricter : Policy) (required : List String)
    → ((ov : Override) → Memᴰ ov policy.overrides → Memᴰ ov stricter.overrides)
    → authorize p c stricter ≡ ok required
    → authorize p c policy ≡ ok (required_scopes c policy)
overrides_tighten p c policy stricter required more h =
    let covered = Covered-authorize p c stricter required h in
    (authorize-ok_iff p c policy).1 (λ scope. elim [
      | inl base ↦ covered scope (inl base)
      | inr (op, ov, m, n, a, s) ↦ covered scope (inr (op, ov, m, more ov n, a, s))
    ])

-- A write is authorized only for a principal that was granted "write".
pub authorize-write :
    (p : Principal) (c : Classification) (policy : Policy) (required : List String)
    → c.scope ≡ write
    → authorize p c policy ≡ ok required
    → "write" ∈ p.scopes
unfolding satisfies
authorize-write p c policy required w h =
    let sat = Covered-authorize p c policy required h "write" (inl (rw w refl)) in
    ground (arith, eq_iff "write" "read")

-- The anonymous principal is authorized for no write, whatever the policy.
pub authorize-anonymous :
    (c : Classification) (policy : Policy) (required : List String)
    → c.scope ≡ write
    → authorize anonymous c policy ≢ ok required
authorize-anonymous c policy required w h =
    let sat = Covered-authorize anonymous c policy required h "write" (inl (rw w refl)) in
    cc ((eq_iff "write" "read").1 ((satisfies-anonymous_iff "write").0 sat))
