-- ===== src/Classify/Fields/Laws.antt =====
-- What the state of the collection covers, and how it grows.
use indexer_gateway_auth.Prelude.{
  ℕ, suc, ◌≤◌, ◌<◌, String, ◌≡◌, false, Option, none, some, List, [], ◌∷◌, arith, eq_iff,
  if◌then◌else◌,
}
use indexer_gateway_auth.Prelude.Sets.{contains, ◌∈◌, hash_insert, ∈-hash_insert}
use indexer_gateway_auth.Prelude.Sets.{contains-append}
use indexer_gateway_auth.Classify.Syntax.{
  Selection, field, fragment_spread, inline_fragment, SelectionSet, nil, cons, Fragments,
  get_fragment,
}
use indexer_gateway_auth.Classify.Fields.{Found, add_field}

-- A result is there, and it satisfies `P`.
abbrev pub Returns : (Found → Type 0) → Option Found → Type 0
Returns P none = ⊥
Returns P (some st) = P st

pub Returns-mono :
    (P Q : Found → Type 0) (o : Option Found)
    → ((st : Found) → P st → Q st)
    → Returns P o
    → Returns Q o
Returns-mono P Q none f h = h
Returns-mono P Q (some st) f h = f st h

-- The fragments that were not entered.
abbrev pub unvisited : List String → Fragments → ℕ
unvisited visited [] = 0
unvisited visited ((name, _) ∷ rest) =
    if contains visited name then unvisited visited rest else suc (unvisited visited rest)

-- The set's own fields are found, and its spreads visited, through inline fragments too.
abbrev mutual
  pub Covers : Found → SelectionSet → Type 0
  Covers st nil = Unit
  Covers st (cons item items) = CoversItem st item × Covers st items

  pub CoversItem : Found → Selection → Type 0
  CoversItem st (field name) = name ∈ st.out
  CoversItem st (fragment_spread name) = name ∈ st.visited
  CoversItem st (inline_fragment set) = Covers st set

pub record Grows (st st' : Found) : Type 0 where
  pub out : (x : String) → x ∈ st.out → x ∈ st'.out
  pub visited : (x : String) → x ∈ st.visited → x ∈ st'.visited

mutual
  pub Covers-Grows :
      {st st' : Found} (set : SelectionSet) → Grows st st' → Covers st set → Covers st' set
  Covers-Grows nil g h = tt
  Covers-Grows (cons item items) g (h, hs) = (CoversItem-Grows item g h, Covers-Grows items g hs)

  pub CoversItem-Grows :
      {st st' : Found} (item : Selection) → Grows st st' → CoversItem st item → CoversItem st' item
  CoversItem-Grows (field name) g h = g.out name h
  CoversItem-Grows (fragment_spread name) g h = g.visited name h
  CoversItem-Grows (inline_fragment set) g h = Covers-Grows set g h

pub unvisited_mono :
    (v w : List String) (fragments : Fragments)
    → ((x : String) → x ∈ v → x ∈ w)
    → unvisited w fragments ≤ unvisited v fragments
unvisited_mono v w [] h = omega arith
unvisited_mono v w ((name, _) ∷ rest) h = ground (arith, unvisited_mono v w rest h, h name)

-- To enter a fragment that was not entered leaves one less.
pub unvisited-enter :
    (v : List String) (name : String) (body : SelectionSet) (fragments : Fragments)
    → contains v name ≡ false
    → get_fragment name fragments ≡ some body
    → unvisited (hash_insert name v) fragments < unvisited v fragments
unfolding get_fragment
unvisited-enter v name body [] new found = cc
unvisited-enter v name body ((key, set) ∷ rest) new found = ground (
  arith,
  eq_iff key name,
  eq_iff name key,
  ∈-hash_insert name key v,
  unvisited-enter v name body rest new,
  unvisited_mono v (hash_insert name v) rest (λ x m. ground (arith, ∈-hash_insert name x v, m)),
)

pub Grows-refl : (st : Found) → Grows st st
Grows-refl st = record { out = λ x m. m; visited = λ x m. m }

pub Grows-trans : {a b c : Found} → Grows a b → Grows b c → Grows a c
Grows-trans g h = record {
  out = λ x m. h.out x (g.out x m);
  visited = λ x m. h.visited x (g.visited x m);
}

pub Grows-add_field : (name : String) (st : Found) → Grows st (add_field name st)
Grows-add_field name st = record {
  out = λ x m. ground (arith, contains-append st.out (name ∷ []) x, m);
  visited = λ x m. m;
}
