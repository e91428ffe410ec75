-- ===== src/Authz/Required.antt =====
-- The scopes that a request requires, as a predicate, and the set that the loops build.
use indexer_gateway_auth.Prelude.{
  String, ◌≡◌, refl, ◌≢◌, ◌↔◌, ◌⊎◌, inl, inr, Bool, true, false, Option, none, some, List, [], ◌∷◌,
  Memᴰ, arith, eq_iff, Bool-cases, or_cases, if◌then◌else◌,
}
use indexer_gateway_auth.Prelude.Text.{is_some_of_iff}
use indexer_gateway_auth.Prelude.Sets.{
  any-eq-contains, contains, ◌∈◌, tree_insert, tree_extend, ∈-tree_insert, ∈-tree_extend,
}
use indexer_gateway_auth.Prelude.Sets.Increasing.{
  IsIncreasing, tree_insert-IsIncreasing, tree_extend-IsIncreasing,
}
use indexer_gateway_auth.Config.{Override, Policy}
use indexer_gateway_auth.Classify.{OperationInfo, Classification}
use indexer_gateway_auth.Authz.{
  base_scope, field_ok, operation_ok, override_matches, require_for, require_all, required_scopes,
}

-- An override applies to an operation: it sets a constraint, and each that it sets holds.
pub record Applies (ov : Override) (op : OperationInfo) : Type 0 where
  pub constrains : (ov.field ≢ none) ⊎ (ov.operation ≢ none)
  pub field : (f : String) → ov.field ≡ some f → f ∈ op.top_level_fields
  pub operation : (o : String) → ov.operation ≡ some o → op.name ≡ some o

-- The request requires the scope: as its base scope, or by an override that applies to one of its
-- operations.
abbrev pub Demands : Classification → Policy → String → Type 0
Demands c policy scope =
    (scope ≡ base_scope c.scope)
    ⊎ ((op : OperationInfo) × (ov : Override) × Memᴰ op c.operations
        × Memᴰ ov policy.overrides
        × Applies ov op
        × (scope ∈ ov.require_scopes))

field_ok_iff :
    (field : Option String) (op : OperationInfo)
    → (field_ok field op ≡ true) ↔ ((f : String) → field ≡ some f → f ∈ op.top_level_fields)
field_ok_iff none op = (λ h f e. cc, λ h. refl)
field_ok_iff (some g) op = (
  λ h f e. ground (arith, any-eq-contains g op.top_level_fields),
  λ h. ground (arith, h g refl, any-eq-contains g op.top_level_fields),
)

operation_ok_iff :
    (operation : Option String) (op : OperationInfo)
    → (operation_ok operation op ≡ true) ↔ ((o : String) → operation ≡ some o → op.name ≡ some o)
operation_ok_iff none op = (λ h o e. cc, λ h. refl)
operation_ok_iff (some g) op = (
  λ h o e. ground (arith, is_some_of_iff op.name g),
  λ h. (is_some_of_iff op.name g).1 (h g refl),
)

pub override_matches_iff :
    (ov : Override) (op : OperationInfo) → (override_matches ov op ≡ true) ↔ Applies ov op
unfolding override_matches
override_matches_iff ov op = (
  λ h. record {
    constrains = ground arith;
    field = (field_ok_iff ov.field op).0 (ground arith);
    operation = (operation_ok_iff ov.operation op).0 (ground arith);
  },
  λ a. ground (
    arith,
    a.constrains,
    (field_ok_iff ov.field op).1 a.field,
    (operation_ok_iff ov.operation op).1 a.operation,
  ),
)

-- The scopes that the inner loop adds.
abbrev ByOverrides : List Override → OperationInfo → String → Type 0
ByOverrides overrides op scope =
    (ov : Override) × Memᴰ ov overrides × Applies ov op × (scope ∈ ov.require_scopes)

require_for_iff :
    (op : OperationInfo) (required : List String) (overrides : List Override) (scope : String)
    → (scope ∈ require_for op required overrides)
      ↔ ((scope ∈ required) ⊎ ByOverrides overrides op scope)
unfolding require_for
require_for_iff op required [] scope = (inl, elim [ inl h ↦ h | inr (_, m, _, _) ↦ elim m [ ] ])
require_for_iff op required (ov ∷ ovs) scope =
    let next =
      if override_matches ov op then tree_extend required ov.require_scopes else required in
    let (to, from) = require_for_iff op next ovs scope in
    (
      λ m. elim (to m) [
        | inr (o, mem, a, s) ↦ inr (o, Memᴰ.tail mem, a, s)
        | inl old ↦ added ov required (override_matches ov op) refl old
      ],
      elim [
        | inl old ↦ from (inl (kept ov required (override_matches ov op) old))
        | inr (o, Memᴰ.tail mem, a, s) ↦ from (inr (o, mem, a, s))
        | inr (o, Memᴰ.head e, a, s) ↦ from (inl (new ov o required e a s))
      ],
    )
  where
    added :
        (ov : Override) (required : List String) (b : Bool)
        → override_matches ov op ≡ b
        → scope ∈ (if b then tree_extend required ov.require_scopes else required)
        → (scope ∈ required) ⊎ ByOverrides (ov ∷ ovs) op scope
    added ov required true e m =
        elim (or_cases (contains required scope) (contains ov.require_scopes scope)
          (rw (← ∈-tree_extend scope required ov.require_scopes) m)) [
            | inl old ↦ inl old
            | inr s ↦ inr (ov, Memᴰ.head refl, (override_matches_iff ov op).0 e, s)
          ]
    added ov required false e m = inl m

    kept :
        (ov : Override) (required : List String) (b : Bool)
        → scope ∈ required
        → scope ∈ (if b then tree_extend required ov.require_scopes else required)
    kept ov required true m = ground (arith, ∈-tree_extend scope required ov.require_scopes)
    kept ov required false m = m

    new :
        (ov o : Override) (required : List String)
        → o ≡ ov
        → Applies o op
        → scope ∈ o.require_scopes
        → scope
          ∈ (if override_matches ov op then tree_extend required ov.require_scopes else required)
    new ov o required e a s =
        rw ((override_matches_iff ov op).1 (rw (← e) a))
          (ground (arith, ∈-tree_extend scope required ov.require_scopes, rw e at s))

require_all_iff :
    (overrides : List Override) (required : List String) (ops : List OperationInfo) (scope : String)
    → (scope ∈ require_all overrides required ops)
      ↔ ((scope ∈ required) ⊎ ((op : OperationInfo) × Memᴰ op ops × ByOverrides overrides op scope))
unfolding require_all
require_all_iff overrides required [] scope = (inl, elim [ inl h ↦ h | inr (_, m, _) ↦ elim m [ ] ])
require_all_iff overrides required (op ∷ ops) scope =
    let (to, from) = require_all_iff overrides (require_for op required overrides) ops scope in
    let (out, into) = require_for_iff op required overrides scope in
    (
      λ m. elim (to m) [
        | inr (o, mem, by) ↦ inr (o, Memᴰ.tail mem, by)
        | inl here ↦ elim (out here) [ inl old ↦ inl old | inr by ↦ inr (op, Memᴰ.head refl, by) ]
      ],
      elim [
        | inl old ↦ from (inl (into (inl old)))
        | inr (o, Memᴰ.tail mem, by) ↦ from (inr (o, mem, by))
        | inr (o, Memᴰ.head e, by) ↦ from (inl (into (inr (rw (← e) by))))
      ],
    )

base_iff : (scope base : String) → (scope ∈ tree_insert base []) ↔ (scope ≡ base)
base_iff scope base = ground (arith, ∈-tree_insert base scope [], eq_iff base scope)

-- The set that the loops build holds exactly the scopes that the request requires.
pub required_scopes_iff :
    (c : Classification) (policy : Policy) (scope : String)
    → (scope ∈ required_scopes c policy) ↔ Demands c policy scope
unfolding required_scopes
required_scopes_iff c policy scope =
    let start = tree_insert (base_scope c.scope) [] in
    let (to, from) = require_all_iff policy.overrides start c.operations scope in
    let (out, into) = base_iff scope (base_scope c.scope) in
    (
      λ m. elim (to m) [
        | inl b ↦ inl (out b)
        | inr (op, m', (ov, n, a, s)) ↦ inr (op, ov, m', n, a, s)
      ],
      elim [
        | inl b ↦ from (inl (into b))
        | inr (op, ov, m', n, a, s) ↦ from (inr (op, m', (ov, n, a, s)))
      ],
    )

require_for-IsIncreasing :
    (op : OperationInfo) (required : List String) (overrides : List Override)
    → IsIncreasing required
    → IsIncreasing (require_for op required overrides)
unfolding require_for
require_for-IsIncreasing op required [] h = h
require_for-IsIncreasing op required (ov ∷ ovs) h = elim (Bool-cases (override_matches ov op)) [
  | inl e ↦ rw e (
      require_for-IsIncreasing op (tree_extend required ov.require_scopes) ovs
        (tree_extend-IsIncreasing required ov.require_scopes h))
  | inr e ↦ rw e (require_for-IsIncreasing op required ovs h)
]

require_all-IsIncreasing :
    (overrides : List Override) (required : List String) (ops : List OperationInfo)
    → IsIncreasing required
    → IsIncreasing (require_all overrides required ops)
unfolding require_all
require_all-IsIncreasing overrides required [] h = h
require_all-IsIncreasing overrides required (op ∷ ops) h =
    require_all-IsIncreasing overrides (require_for op required overrides) ops
      (require_for-IsIncreasing op required overrides h)

pub required_scopes-IsIncreasing :
    (c : Classification) (policy : Policy) → IsIncreasing (required_scopes c policy)
unfolding required_scopes
required_scopes-IsIncreasing c policy =
    require_all-IsIncreasing policy.overrides (tree_insert (base_scope c.scope) []) c.operations
      (tree_insert-IsIncreasing (base_scope c.scope) [] tt)
