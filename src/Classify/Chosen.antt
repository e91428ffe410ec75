-- ===== src/Classify/Chosen.antt =====
-- Which operations of a request are classified, and the scope of several.
use indexer_gateway_auth.Prelude.{
  String, ◌≡◌, refl, ap, ◌≢◌, ◌↔◌, ◌⊎◌, inl, inr, Bool, true, false, Option, none, some, List, [],
  ◌∷◌, Memᴰ, arith, eq_iff,
}
use indexer_gateway_auth.Prelude.{filter, is_empty, Bool-cases}
use indexer_gateway_auth.Classify.{
  Scope, read, write, OperationKind, mutation, kind_scope, scope_max, OperationInfo, NamedOperation,
  is_selected, to_classify, max_scope,
}

module _ {ℓ} {A : Type ℓ} where
  pub Memᴰ-filter :
      (p : A → Bool) {a : A} (xs : List A) → Memᴰ a xs → p a ≡ true → Memᴰ a (filter p xs)
  Memᴰ-filter p [] m h = elim m [ ]
  Memᴰ-filter p (x ∷ xs) (Memᴰ.head e) h = rw (← e, h) (Memᴰ.head refl)
  Memᴰ-filter p (x ∷ xs) (Memᴰ.tail m) h = elim (Bool-cases (p x)) [
    | inl e ↦ rw e (Memᴰ.tail (Memᴰ-filter p xs m h))
    | inr e ↦ rw e (Memᴰ-filter p xs m h)
  ]

-- The operation that a request executes may be this one: it names none, or it names this one, or
-- it names one that the document does not have.
abbrev pub CouldRun : Option String → List NamedOperation → NamedOperation → Type 0
CouldRun none operations op = Unit
CouldRun (some sel) operations op =
    (op.0 ≡ some sel) ⊎ ((other : NamedOperation) → Memᴰ other operations → other.0 ≢ some sel)

is_selected-some_iff :
    (sel : String) (op : NamedOperation) → (is_selected (some sel) op ≡ true) ↔ (op.0 ≡ some sel)
is_selected-some_iff sel (none, def) = (λ h. cc, λ h. cc)
is_selected-some_iff sel (some s, def) = ground (arith, eq_iff s sel)

none_selected :
    (sel : String) (operations : List NamedOperation)
    → ((other : NamedOperation) → Memᴰ other operations → other.0 ≢ some sel)
    → filter (is_selected (some sel)) operations ≡ []
none_selected sel [] h = refl
none_selected sel (op ∷ ops) h =
    let later = none_selected sel ops (λ other m. h other (Memᴰ.tail m)) in
    ground (arith, later, is_selected-some_iff sel op, h op (Memᴰ.head refl))

filter_all : (operations : List NamedOperation) → filter (is_selected none) operations ≡ operations
filter_all [] = refl
filter_all (op ∷ ops) = ap (λ l. op ∷ l) (filter_all ops)

pub filter-nonempty :
    {op : NamedOperation} (l : List NamedOperation) → Memᴰ op l → is_empty l ≡ false
filter-nonempty [] m = elim m [ ]
filter-nonempty (x ∷ l) m = refl

-- Whatever could run is classified.
pub to_classify-mem :
    (selected : Option String) (operations : List NamedOperation) (op : NamedOperation)
    → Memᴰ op operations
    → CouldRun selected operations op
    → Memᴰ op (to_classify selected operations)
unfolding to_classify
to_classify-mem none operations op m could =
    rw (filter_all operations, filter-nonempty operations m) m
to_classify-mem (some sel) operations op m (inl named) =
    let chosen =
      Memᴰ-filter (is_selected (some sel)) operations m ((is_selected-some_iff sel op).1 named) in
    rw (filter-nonempty _ chosen) chosen
to_classify-mem (some sel) operations op m (inr absent) = rw (none_selected sel operations absent) m

kind_scope-write : (k : OperationKind) → kind_scope k ≡ write → k ≡ mutation
kind_scope-write OperationKind.query h = cc
kind_scope-write OperationKind.mutation h = refl
kind_scope-write OperationKind.subscription h = cc

pub max_scope-write :
    (ops : List OperationInfo)
    → max_scope ops ≡ write
    → (op : OperationInfo) × Memᴰ op ops × (op.kind ≡ mutation)
unfolding max_scope
max_scope-write [] h = cc
max_scope-write (op ∷ ops) h = elim (Scope-cases (kind_scope op.kind)) [
  | inl w ↦ (op, Memᴰ.head refl, kind_scope-write op.kind w)
  | inr r ↦ let (found, m, k) = max_scope-write ops (rw r at h) in (found, Memᴰ.tail m, k)
]
  where
    Scope-cases : (s : Scope) → (s ≡ write) ⊎ (s ≡ read)
    Scope-cases write = inl refl
    Scope-cases read = inr refl

scope_max-write : (s : Scope) → scope_max s write ≡ write
scope_max-write write = refl
scope_max-write read = refl

pub max_scope-mutation :
    (op : OperationInfo) (ops : List OperationInfo)
    → Memᴰ op ops
    → op.kind ≡ mutation
    → max_scope ops ≡ write
unfolding max_scope
max_scope-mutation op (x ∷ ops) (Memᴰ.head e) k = rw (← e, k) refl
max_scope-mutation op (x ∷ ops) (Memᴰ.tail m) k =
    rw (max_scope-mutation op ops m k) (scope_max-write (kind_scope x.kind))
max_scope-mutation op [] m k = elim m [ ]
