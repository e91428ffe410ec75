-- ===== src/Classify/Body/Laws.antt =====
-- Which JSON values are request bodies.
use mathlib.Core.List.{append-nil}
use indexer_gateway_auth.Prelude.{
  sym, ap, ◌∙◌, String, ◌≡◌, refl, ◌↔◌, ◌⊎◌, inl, inr, Option, none, some, List, [], ◌∷◌, ◌++◌,
  arith, true, false, ◌||◌, ◌==◌, eq_iff,
}
use indexer_gateway_auth.Prelude.{and_then, Bool-cases, Option-cases, if◌then◌else◌}
use indexer_gateway_auth.Json.{Value, string, object, Members, end, member}
use indexer_gateway_auth.Classify.{GraphQlRequest}
use indexer_gateway_auth.Classify.Body.{
  Field, query_field, name_field, ignored, field_of, Partial, put_query, put_name, put,
  read_members, finish, request_from,
}
use indexer_gateway_auth.Classify.Body.Values.{
  query_json, name_json, name_list, query_json-single, name_list-single, query_json-injective,
  name_list-injective, query_cases, name_cases,
}

abbrev cons_if_query : Field → Value → List Value → List Value
cons_if_query query_field v vs = v ∷ vs
cons_if_query _ v vs = vs

abbrev cons_if_name : Field → Value → List Value → List Value
cons_if_name name_field v vs = v ∷ vs
cons_if_name _ v vs = vs

-- The values that the code takes for the query, and for the operation name.
abbrev queries_taken : Members → List Value
queries_taken end = []
queries_taken (member key v rest) = cons_if_query (field_of key) v (queries_taken rest)

abbrev names_taken : Members → List Value
names_taken end = []
names_taken (member key v rest) = cons_if_name (field_of key) v (names_taken rest)

-- The values of all members with the key "query", and of all with the key "operationName" or
-- "operation_name".
abbrev pub query_values : Members → List Value
query_values end = []
query_values (member key v rest) =
    let values = query_values rest in if key == "query" then v ∷ values else values

abbrev pub name_values : Members → List Value
name_values end = []
name_values (member key v rest) =
    let values = name_values rest in
    if key == "operationName" || key == "operation_name" then v ∷ values else values

query_is_no_name :
    (key : String)
    → key == "query" ≡ true
    → (key == "operationName" || key == "operation_name") ≡ false
query_is_no_name key e = let same : key ≡ "query" = (eq_iff key "query").0 e in rw same refl

queries_taken_lem : (ms : Members) → queries_taken ms ≡ query_values ms
queries_taken_lem end = refl
queries_taken_lem (member key v rest) = elim (Bool-cases (key == "query")) [
  | inl e ↦ rw (e, queries_taken_lem rest) refl
  | inr e ↦ elim (Bool-cases (key == "operationName" || key == "operation_name")) [
    | inl n ↦ rw (e, n, queries_taken_lem rest) refl
    | inr n ↦ rw (e, n, queries_taken_lem rest) refl
  ]
]

names_taken_lem : (ms : Members) → names_taken ms ≡ name_values ms
names_taken_lem end = refl
names_taken_lem (member key v rest) = elim (Bool-cases (key == "query")) [
  | inl e ↦ rw (e, query_is_no_name key e, names_taken_lem rest) refl
  | inr e ↦ elim (Bool-cases (key == "operationName" || key == "operation_name")) [
    | inl n ↦ rw (e, n, names_taken_lem rest) refl
    | inr n ↦ rw (e, n, names_taken_lem rest) refl
  ]
]

-- The members hold exactly one query; and no operation name, or exactly one, which may be null.
pub record IsRequest (members : Members) (r : GraphQlRequest) : Type 0 where
  pub one_query : query_values members ≡ string r.query ∷ []
  pub one_name :
      ((name_values members ≡ []) × (r.operation_name ≡ none))
      ⊎ (name_values members ≡ name_json r.operation_name ∷ [])

-- The members bring what is read so far to that.
abbrev Reads : List Value → List Value → Partial → Partial → Type 0
Reads queries names p p' =
    (query_json p.query ++ queries ≡ query_json p'.query)
    × (name_list p.operation_name ++ names ≡ name_list p'.operation_name)

module _ (rest : Members) (p' : Partial)
    (ih : (q : Partial)
      → (read_members rest q ≡ some p') ↔ Reads (queries_taken rest) (names_taken rest) q p') where
  put_query_iff :
      (o : Option String) (v : Value) (p : Partial)
      → p.query ≡ o
      → (and_then (put_query o v p) (read_members rest) ≡ some p')
        ↔ Reads (v ∷ queries_taken rest) (names_taken rest) p p'
  put_query_iff (some s) v p e = (
    λ h. cc,
    λ (h, _). absurd (query_json-single p'.query (string s) v (queries_taken rest) (rw e at h)),
  )
  put_query_iff none v p e = elim (query_cases v) [
    | inl (s, f) ↦ rw (f, e) (ih (record p { query = some s }))
    | inr (bad, unlike) ↦ (
      λ h. cc (h, ap (λ (q : Option Partial). and_then q (read_members rest)) (bad p)),
      λ (h, _). absurd (unlike p'.query (queries_taken rest) (rw e at h)),
    )
  ]

  put_name_iff :
      (o : Option (Option String)) (v : Value) (p : Partial)
      → p.operation_name ≡ o
      → (and_then (put_name o v p) (read_members rest) ≡ some p')
        ↔ Reads (queries_taken rest) (v ∷ names_taken rest) p p'
  put_name_iff (some n) v p e = (
    λ h. cc,
    λ (_, h).
        absurd (name_list-single p'.operation_name (name_json n) v (names_taken rest) (rw e at h)),
  )
  put_name_iff none v p e = elim (name_cases v) [
    | inl (none, f) ↦ rw (f, e) (ih (record p { operation_name = some none }))
    | inl (some s, f) ↦ rw (f, e) (ih (record p { operation_name = some (some s) }))
    | inr (bad, unlike) ↦ (
      λ h. cc (h, ap (λ (q : Option Partial). and_then q (read_members rest)) (bad p)),
      λ (_, h). absurd (unlike p'.operation_name (names_taken rest) (rw e at h)),
    )
  ]

put_iff :
    (f : Field) (v : Value) (rest : Members) (p p' : Partial)
    → ((q : Partial)
        → (read_members rest q ≡ some p') ↔ Reads (queries_taken rest) (names_taken rest) q p')
    → (and_then (put f v p) (read_members rest) ≡ some p')
      ↔ Reads (cons_if_query f v (queries_taken rest)) (cons_if_name f v (names_taken rest)) p p'
put_iff ignored v rest p p' ih = ih p
put_iff query_field v rest p p' ih = put_query_iff rest p' ih p.query v p refl
put_iff name_field v rest p p' ih = put_name_iff rest p' ih p.operation_name v p refl

read_members-taken :
    (ms : Members) (p p' : Partial)
    → (read_members ms p ≡ some p') ↔ Reads (queries_taken ms) (names_taken ms) p p'
unfolding read_members
read_members-taken end p p' = (
  λ h.
      let same : p ≡ p' = cc in
      rw same (append-nil (query_json p'.query), append-nil (name_list p'.operation_name)),
  λ (h, k).
      let q : p.query ≡ p'.query = query_json-injective p.query p'.query (sym (append-nil _) ∙ h) in
      let n : p.operation_name ≡ p'.operation_name =
        name_list-injective p.operation_name p'.operation_name (sym (append-nil _) ∙ k) in
      ap (λ (x : Partial). some x) (λ i. record { query = q i; operation_name = n i }),
)
read_members-taken (member key v rest) p p' =
    put_iff (field_of key) v rest p p' (λ q. read_members-taken rest q p')

read_members_iff :
    (ms : Members) (p p' : Partial)
    → (read_members ms p ≡ some p') ↔ Reads (query_values ms) (name_values ms) p p'
read_members_iff ms p p' =
    let taken = read_members-taken ms p p' in rw (queries_taken_lem ms, names_taken_lem ms) at taken

start : Partial
start = record { query = none; operation_name = none }

finish_inv :
    (p : Partial) (r : GraphQlRequest)
    → finish p ≡ some r
    → (p.query ≡ some r.query)
      × (((p.operation_name ≡ none) × (r.operation_name ≡ none))
          ⊎ (p.operation_name ≡ some r.operation_name))
finish_inv p r h = elim (Option-cases p.query) [
  | inl e ↦ absurd (ground arith)
  | inr (q, e) ↦ elim (Option-cases p.operation_name) [
    | inl f ↦ (ground arith, inl (f, ground arith))
    | inr (n, f) ↦ (ground arith, inr (ground arith))
  ]
]

-- An object is a request exactly if it has one member "query", which is a text; and no member
-- "operationName" or "operation_name", or one of either spelling, which is null or a text. So a
-- repeated key is refused, and no reader that takes the first or the last of them can differ.
pub request_from_iff :
    (ms : Members) (r : GraphQlRequest) → (request_from (object ms) ≡ some r) ↔ IsRequest ms r
unfolding request_from start
request_from_iff ms r = (
  λ h. elim (Option-cases (read_members ms (record { query = none; operation_name = none }))) [
    | inl e ↦ absurd (ground arith)
    | inr (p, e) ↦
        let (queries, names) = (read_members_iff ms start p).0 e in
        let (q, n) = finish_inv p r (ground arith) in
        record {
          one_query = rw (queries, q) refl;
          one_name = elim n [
            | inl (absent, default) ↦ inl (rw (names, absent) refl, default)
            | inr given ↦ inr (rw (names, given) refl)
          ];
        }
  ],
  λ h. elim h.one_name [
    | inl (absent, default) ↦
        let made =
          (read_members_iff ms start (record { query = some r.query; operation_name = none })).1
            (h.one_query, absent) in
        rw (made, default) refl
    | inr given ↦
        let made =
          (read_members_iff ms start
              (record { query = some r.query; operation_name = some r.operation_name })).1
            (h.one_query, given) in
        rw made refl
  ],
)
