-- ===== src/Authz/Granted.antt =====
-- What the scopes that a principal was granted authorize.
use indexer_gateway_auth.Prelude.{String, ◌≡◌, refl, ◌↔◌, ◌⊎◌, inl, inr, List, Memᴰ}
use indexer_gateway_auth.Prelude.{ok}
use indexer_gateway_auth.Prelude.Sets.{◌∈◌}
use indexer_gateway_auth.Config.{Override, Policy}
use indexer_gateway_auth.Principal.{new}
use indexer_gateway_auth.Principal.Laws.{satisfies-new_iff}
use indexer_gateway_auth.Classify.{Scope, read, write, OperationInfo, Classification}
use indexer_gateway_auth.Authz.{base_scope, required_scopes, authorize}
use indexer_gateway_auth.Authz.Required.{Applies, Demands}
use indexer_gateway_auth.Authz.Laws.{Covered-authorize, authorize-ok_iff}

-- The scopes that a request needs.
abbrev pub Needed : Classification → Policy → String → Type 0
Needed c policy scope =
    ((c.scope ≡ read) × (scope ≡ "read"))
    ⊎ (((c.scope ≡ write) × (scope ≡ "write"))
        ⊎ ((op : OperationInfo) × (ov : Override) × Memᴰ op c.operations
            × Memᴰ ov policy.overrides
            × Applies ov op
            × (scope ∈ ov.require_scopes)))

-- The scopes that a grant holds.
abbrev pub Held : List String → String → Type 0
Held granted scope = (scope ∈ granted) ⊎ ((scope ≡ "read") × ("write" ∈ granted))

base_scope_iff :
    (s : Scope) (scope : String)
    → (scope ≡ base_scope s) ↔ (((s ≡ read) × (scope ≡ "read")) ⊎ ((s ≡ write) × (scope ≡ "write")))
base_scope_iff read scope = (λ e. inl (refl, e), elim [ inl (_, e) ↦ e | inr (e, _) ↦ cc ])
base_scope_iff write scope = (λ e. inr (refl, e), elim [ inl (e, _) ↦ cc | inr (_, e) ↦ e ])

Needed-Demands :
    (c : Classification) (policy : Policy) (scope : String)
    → Needed c policy scope
    → Demands c policy scope
Needed-Demands c policy scope (inl h) = inl ((base_scope_iff c.scope scope).1 (inl h))
Needed-Demands c policy scope (inr (inl h)) = inl ((base_scope_iff c.scope scope).1 (inr h))
Needed-Demands c policy scope (inr (inr h)) = inr h

Demands-Needed :
    (c : Classification) (policy : Policy) (scope : String)
    → Demands c policy scope
    → Needed c policy scope
Demands-Needed c policy scope (inr h) = inr (inr h)
Demands-Needed c policy scope (inl h) = elim ((base_scope_iff c.scope scope).0 h) [
  | inl a ↦ inl a
  | inr b ↦ inr (inl b)
]

-- A principal with granted scopes is authorized exactly if the grant holds every scope that the
-- request needs. A read needs "read", a write needs "write", and each override that applies to one
-- of the operations needs the scopes that it lists. A grant holds the scopes that it lists, and
-- "read" if it lists "write".
pub authorize-new_iff :
    (name : String) (granted : List String) (c : Classification) (policy : Policy)
    → ((required : List String) × (authorize (new name granted) c policy ≡ ok required))
      ↔ ((scope : String) → Needed c policy scope → Held granted scope)
authorize-new_iff name granted c policy = (
  λ (required, h) scope need. (satisfies-new_iff name granted scope).0 (
      Covered-authorize (new name granted) c policy required h scope
        (Needed-Demands c policy scope need)),
  λ held. (
    required_scopes c policy,
    (authorize-ok_iff (new name granted) c policy).1 (λ scope d.
        (satisfies-new_iff name granted scope).1 (held scope (Demands-Needed c policy scope d))),
  ),
)
