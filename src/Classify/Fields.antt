-- ===== src/Classify/Fields.antt =====
-- `collect_top_fields` of src/classify.rs: the fields selected at the root of an operation, through
-- fragment spreads and inline fragments.
pub mod Selects
pub mod Laws
pub mod Passes
pub mod Correct
use indexer_gateway_auth.Prelude.{
  ℕ, zero, suc, String, Option, none, some, List, [], ◌∷◌, ◌++◌, length, and_then, if◌then◌else◌,
}
use indexer_gateway_auth.Prelude.Sets.{contains, hash_insert}
use indexer_gateway_auth.Classify.Syntax.{
  Selection, field, fragment_spread, inline_fragment, SelectionSet, nil, cons, Fragments,
  get_fragment,
}

-- The two arguments that the function mutates.
pub record Found : Type 0 where
  pub out : List String
  pub visited : List String

abbrev pub add_field : String → Found → Found
add_field name st = record st { out = if contains st.out name then st.out else st.out ++ name ∷ [] }

-- The work on a fragment's body; `none` means that the fuel ran out.
abbrev pub Expand : Type 0
Expand = SelectionSet → Found → Option Found

abbrev pub expand_found : Expand → Option SelectionSet → Found → Option Found
expand_found expand none st = some st
expand_found expand (some body) st = expand body st

module _ (fragments : Fragments) where
  -- `visited.insert(name)` answers whether the name is new.
  pub spread : Expand → String → Found → Option Found
  unfolding get_fragment hash_insert
  spread expand name st =
      if contains st.visited name
      then some st
      else expand_found expand (get_fragment name fragments)
          (record st { visited = hash_insert name st.visited })

  -- The loop over the items of a selection set.
  unfoldable mutual
    pub walk : Expand → SelectionSet → Found → Option Found
    walk expand nil st = some st
    walk expand (cons item items) st = and_then (visit expand item st) (walk expand items)

    pub visit : Expand → Selection → Found → Option Found
    visit expand (field name) st = some (add_field name st)
    visit expand (fragment_spread name) st = spread expand name st
    visit expand (inline_fragment set) st = walk expand set st

  -- The fuel is spent where a fragment is entered.
  pub collect : ℕ → Expand
  unfolding walk visit spread
  collect zero set st = walk (λ _ _. none) set st
  collect (suc fuel) set st = walk (collect fuel) set st

  abbrev pub fields_of : Option Found → List String
  fields_of none = []
  fields_of (some st) = st.out

  -- Called with `fields` and `visited` empty; no fragment is entered twice.
  unfoldable pub collect_top_fields : SelectionSet → List String
  unfolding collect
  collect_top_fields set =
      fields_of (collect (length fragments) set (record { out = []; visited = [] }))
