-- ===== src/Classify/Syntax.antt =====
-- What src/classify.rs reads of a parsed GraphQL document: the types of async-graphql-parser, less
-- what the classification never looks at.
use indexer_gateway_auth.Prelude.{String, Option, none, some, List, [], ◌∷◌, ◌==◌, if◌then◌else◌}

pub data OperationType : Type 0 where
  query mutation subscription : OperationType

mutual
  -- A field stands under its real name: an alias is not read.
  pub data Selection : Type 0 where
    field : String → Selection
    fragment_spread : String → Selection
    inline_fragment : SelectionSet → Selection

  pub data SelectionSet : Type 0 where
    nil : SelectionSet
    cons : Selection → SelectionSet → SelectionSet

pub record OperationDefinition : Type 0 where
  pub ty : OperationType
  pub selection_set : SelectionSet

abbrev pub Fragments : Type 0
Fragments = List (String × SelectionSet)

-- The operations stand in the order in which the document's iterator gives them; an operation
-- that has no name is alone.
pub record Document : Type 0 where
  pub operations : List (Option String × OperationDefinition)
  pub fragments : Fragments

-- `fragments.get(name)`
unfoldable pub get_fragment : String → Fragments → Option SelectionSet
get_fragment name [] = none
get_fragment name ((key, set) ∷ rest) = if key == name then some set else get_fragment name rest
