-- ===== src/Audit/Line/Laws.antt =====
-- The JSON of a record determines the record.
use mathlib.Core.Option
use indexer_gateway_auth.Prelude.{
  ℕ, String, ◌≡◌, refl, sym, ap, ◌∙◌, inl, inr, Bool, true, false, Option, none, some, List, [],
  ◌∷◌, map, ◌==◌, arith, eq_iff,
}
use indexer_gateway_auth.Prelude.{Bool-cases, if◌then◌else◌}
use indexer_gateway_auth.Prelude.Sets.{contains}
use indexer_gateway_auth.Json
use indexer_gateway_auth.Json.{Value, Members}
use indexer_gateway_auth.Classify.{Scope, OperationKind}
use indexer_gateway_auth.Audit.{
  Outcome, allowed, rate_limited, auth_failed, denied, rejected, AuditRecord,
}
use indexer_gateway_auth.Audit.Line.{
  Entries, members, entries, to_json, nonempty_json, scope_json, kind_json, outcome_name,
  outcome_reason,
}

-- The value of an entry.
abbrev entry : String → Entries → Option Value
entry key [] = none
entry key ((k, v) ∷ rest) = if k == key then v else entry key rest

-- No key is repeated.
abbrev distinct : List String → Bool
distinct [] = true
distinct (k ∷ ks) = if contains ks k then false else distinct ks

get_member-absent :
    (key : String) (es : Entries)
    → contains (map (λ e. e.0) es) key ≡ false
    → Json.get_member key (members es) ≡ none
unfolding Json.get_member members
get_member-absent key [] h = refl
get_member-absent key ((k, none) ∷ rest) h = ground (arith, get_member-absent key rest)
get_member-absent key ((k, some v) ∷ rest) h = ground (arith, get_member-absent key rest)

get_member-members :
    (key : String) (es : Entries)
    → distinct (map (λ e. e.0) es) ≡ true
    → Json.get_member key (members es) ≡ entry key es
unfolding Json.get_member members
get_member-members key [] h = refl
get_member-members key ((k, some v) ∷ rest) h = ground (arith, get_member-members key rest)
get_member-members key ((k, none) ∷ rest) h = elim (Bool-cases (k == key)) [
  | inl e ↦
      let same : k ≡ key = (eq_iff k key).0 e in
      let absent : contains (map (λ x. x.0) rest) k ≡ false = ground arith in
      rw e (get_member-absent key rest (rw (← same) absent))
  | inr e ↦ ground (arith, get_member-members key rest)
]

-- The list behind an array that is left out when it is empty.
abbrev values_of : Option Value → List Value
values_of (some (Value.array vs)) = Json.items vs
values_of _ = []

items-from_items : (vs : List Value) → Json.items (Json.from_items vs) ≡ vs
items-from_items [] = refl
items-from_items (v ∷ vs) = rw (items-from_items vs) refl

values_of-nonempty_json : (vs : List Value) → values_of (nonempty_json vs) ≡ vs
values_of-nonempty_json [] = refl
values_of-nonempty_json (v ∷ vs) = items-from_items (v ∷ vs)

module _ {A : Type 0} (f : A → Value) (injective : (a b : A) → f a ≡ f b → a ≡ b) where
  map-injective : (xs ys : List A) → map f xs ≡ map f ys → xs ≡ ys
  map-injective [] [] h = refl
  map-injective [] (y ∷ ys) h = cc
  map-injective (x ∷ xs) [] h = cc
  map-injective (x ∷ xs) (y ∷ ys) h =
      let first : f x ≡ f y = cc in
      let same = injective x y first in
      let rest = map-injective xs ys (let r : map f xs ≡ map f ys = cc in r) in cc

  nonempty-injective :
      (xs ys : List A) → nonempty_json (map f xs) ≡ nonempty_json (map f ys) → xs ≡ ys
  nonempty-injective xs ys h = map-injective xs ys (
      sym (values_of-nonempty_json (map f xs))
      ∙ ap values_of h
      ∙ values_of-nonempty_json (map f ys))

  Option-injective : (x y : Option A) → Option.map f x ≡ Option.map f y → x ≡ y
  Option-injective none none h = refl
  Option-injective none (some b) h = cc
  Option-injective (some a) none h = cc
  Option-injective (some a) (some b) h = let e : f a ≡ f b = cc in let same = injective a b e in cc

string-injective : (a b : String) → Value.string a ≡ Value.string b → a ≡ b
string-injective a b h = cc

-- What is read back of a scope, of a kind and of an outcome.
abbrev scope_from : Value → Scope
scope_from (Value.string s) = if s == "write" then Scope.write else Scope.read
scope_from _ = Scope.read

abbrev kind_from_json : Value → OperationKind
kind_from_json (Value.string s) =
    if s == "mutation"
    then OperationKind.mutation
    else if s == "query"
    then OperationKind.query
    else OperationKind.subscription
kind_from_json _ = OperationKind.query

abbrev outcome_from : String → Option String → Outcome
outcome_from name none = if name == "allowed" then allowed else rate_limited
outcome_from name (some reason) =
    if name == "denied"
    then denied reason
    else if name == "rejected"
    then rejected reason
    else auth_failed reason

scope_from-scope_json : (a : Scope) → scope_from (scope_json a) ≡ a
scope_from-scope_json Scope.read = refl
scope_from-scope_json Scope.write = refl

kind_from-kind_json : (a : OperationKind) → kind_from_json (kind_json a) ≡ a
kind_from-kind_json OperationKind.query = refl
kind_from-kind_json OperationKind.mutation = refl
kind_from-kind_json OperationKind.subscription = refl

outcome_from-name : (a : Outcome) → outcome_from (outcome_name a) (outcome_reason a) ≡ a
outcome_from-name allowed = refl
outcome_from-name rate_limited = refl
outcome_from-name (auth_failed r) = refl
outcome_from-name (denied r) = refl
outcome_from-name (rejected r) = refl

scope_json-injective : (a b : Scope) → scope_json a ≡ scope_json b → a ≡ b
scope_json-injective a b h =
    sym (scope_from-scope_json a) ∙ ap scope_from h ∙ scope_from-scope_json b

kind_json-injective : (a b : OperationKind) → kind_json a ≡ kind_json b → a ≡ b
kind_json-injective a b h =
    sym (kind_from-kind_json a) ∙ ap kind_from_json h ∙ kind_from-kind_json b

outcome-injective :
    (a b : Outcome) → outcome_name a ≡ outcome_name b → outcome_reason a ≡ outcome_reason b → a ≡ b
outcome-injective a b n r =
    let same : outcome_from (outcome_name a) (outcome_reason a)
        ≡ outcome_from (outcome_name b) (outcome_reason b) =
      rw (n, r) refl in
    sym (outcome_from-name a) ∙ same ∙ outcome_from-name b

module _ (decimal : ℕ → String) (decimal-injective : (m n : ℕ) → decimal m ≡ decimal n → m ≡ n)
    (a b : AuditRecord) (same : to_json decimal a ≡ to_json decimal b) where
  -- Each entry of one record is that of the other.
  same_entry : (key : String) → entry key (entries decimal a) ≡ entry key (entries decimal b)
  unfolding to_json Json.get
  same_entry key =
      sym (get_member-members key (entries decimal a) refl)
      ∙ ap (Json.get key) same
      ∙ get_member-members key (entries decimal b) refl

  number-injective : (m n : ℕ) → Value.number (decimal m) ≡ Value.number (decimal n) → m ≡ n
  number-injective m n h = let e : decimal m ≡ decimal n = cc in decimal-injective m n e

  some-injective : (x y : String) → some (Value.string x) ≡ some (Value.string y) → x ≡ y
  some-injective x y h = cc

  -- Two records with the same JSON are the same record: what is left out when it is empty, and the
  -- outcome among the other members, can be told. The texts of two numbers are taken to differ.
  pub to_json-injective : a ≡ b
  to_json-injective =
      let timestamp = some-injective _ _ (same_entry "timestamp") in
      let principal = some-injective _ _ (same_entry "principal") in
      let source_ip = Option-injective Value.string string-injective _ _ (same_entry "source_ip") in
      let scope = Option-injective scope_json scope_json-injective _ _ (same_entry "scope") in
      let name = Option-injective Value.string string-injective _ _ (same_entry "operation_name") in
      let kinds =
        nonempty-injective kind_json kind_json-injective _ _ (same_entry "operation_kinds") in
      let fields =
        nonempty-injective Value.string string-injective _ _ (same_entry "top_level_fields") in
      let hash = Option-injective Value.string string-injective _ _ (same_entry "variables_hash") in
      let variables = same_entry "variables" in
      let reason = Option-injective Value.string string-injective _ _ (same_entry "reason") in
      let outcome =
        outcome-injective a.outcome b.outcome (some-injective _ _ (same_entry "outcome")) reason in
      let status =
        Option-injective (λ n. Value.number (decimal n)) number-injective _ _
          (same_entry "upstream_status") in
      let latency =
        Option-injective (λ n. Value.number (decimal n)) number-injective _ _
          (same_entry "latency_ms") in
      λ i. record {
        timestamp = timestamp i;
        principal = principal i;
        source_ip = source_ip i;
        scope = scope i;
        operation_name = name i;
        operation_kinds = kinds i;
        top_level_fields = fields i;
        variables_hash = hash i;
        variables = variables i;
        outcome = outcome i;
        upstream_status = status i;
        latency_ms = latency i;
      }
