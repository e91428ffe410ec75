-- ===== src/Classify/Fields/Selects.antt =====
-- Which fields an operation selects at its root, as a relation: no fuel, no visited set.
use indexer_gateway_auth.Prelude.{String, ◌≡◌, some}
use indexer_gateway_auth.Classify.Syntax.{
  Selection, field, fragment_spread, inline_fragment, SelectionSet, cons, Fragments, get_fragment,
}

pub data Selects (fragments : Fragments) : SelectionSet → String → Type 0 where
  here : {name : String} {items : SelectionSet} → Selects fragments (cons (field name) items) name
  later :
      {item : Selection} {items : SelectionSet} {name : String}
      → Selects fragments items name
      → Selects fragments (cons item items) name
  through_spread :
      {spread : String} {body items : SelectionSet} {name : String}
      → get_fragment spread fragments ≡ some body
      → Selects fragments body name
      → Selects fragments (cons (fragment_spread spread) items) name
  through_inline :
      {set items : SelectionSet} {name : String}
      → Selects fragments set name
      → Selects fragments (cons (inline_fragment set) items) name
