-- ===== src/Classify/Fields/Correct.antt =====
-- The collection ends within its fuel, finds the selected fields, all of them and no others.
use indexer_gateway_auth.Prelude.{
  ℕ, zero, suc, ◌≤◌, String, ◌≡◌, refl, inl, inr, Option, none, some, List, [], ◌∷◌, arith, length,
  ◌↔◌,
}
use indexer_gateway_auth.Prelude.Sets.{◌∈◌}
use indexer_gateway_auth.Classify.Syntax.{
  Selection, field, fragment_spread, inline_fragment, SelectionSet, nil, cons, Fragments,
}
use indexer_gateway_auth.Classify.Fields.{Found, Expand, walk, visit, collect, collect_top_fields}
use indexer_gateway_auth.Classify.Fields.Selects.{
  Selects, here, later, through_spread, through_inline,
}
use indexer_gateway_auth.Classify.Fields.Laws.{
  Returns, Returns-mono, unvisited, Covers, unvisited_mono,
}
use indexer_gateway_auth.Classify.Fields.Passes.{
  Entered, PassSet, PassItem, IsRight, Pass-nil, Pass-field, spread-IsRight, Pass-inline, Pass-cons,
}

module _ (fragments : Fragments) where
  module _ (m : ℕ) (expand : Expand) (right : IsRight fragments m expand) where
    walk-cons :
        (item : Selection) (items : SelectionSet) (st : Found) (o : Option Found)
        → visit fragments expand item st ≡ o
        → unvisited st.visited fragments ≤ m
        → Returns (PassItem fragments item st) o
        → ((st' : Found)
            → unvisited st'.visited fragments ≤ m
            → Returns (PassSet fragments items st') (walk fragments expand items st'))
        → Returns
            (PassSet fragments (cons item items) st)
            (walk fragments expand (cons item items) st)
    unfolding walk
    walk-cons item items st none e bound h next = absurd h
    walk-cons item items st (some st') e bound p next =
        let less = unvisited_mono st.visited st'.visited fragments p.grows.visited in
        rw e (
          Returns-mono (PassSet fragments items st') (PassSet fragments (cons item items) st)
            (walk fragments expand items st')
            (λ last q. Pass-cons fragments item items st st' last p q) (next st' (omega arith)))

    mutual
      unfolding walk visit

      walk-IsRight :
          (set : SelectionSet) (st : Found)
          → unvisited st.visited fragments ≤ m
          → Returns (PassSet fragments set st) (walk fragments expand set st)
      walk-IsRight nil st bound = Pass-nil fragments st
      walk-IsRight (cons item items) st bound =
          walk-cons item items st _ refl bound (visit-IsRight item st bound)
            (λ st' less. walk-IsRight items st' less)

      visit-IsRight :
          (item : Selection) (st : Found)
          → unvisited st.visited fragments ≤ m
          → Returns (PassItem fragments item st) (visit fragments expand item st)
      visit-IsRight (field name) st bound = Pass-field fragments name st
      visit-IsRight (fragment_spread name) st bound =
          spread-IsRight fragments m expand name st right bound
      visit-IsRight (inline_fragment set) st bound =
          Returns-mono (PassSet fragments set st) (PassItem fragments (inline_fragment set) st)
            (walk fragments expand set st) (λ st' p. Pass-inline fragments set st st' p)
            (walk-IsRight set st bound)

  collect-IsRight :
      (fuel : ℕ) (set : SelectionSet) (st : Found)
      → unvisited st.visited fragments ≤ fuel
      → Returns (PassSet fragments set st) (collect fragments fuel set st)
  unfolding collect
  collect-IsRight zero set st bound =
      walk-IsRight zero (λ _ _. none) (λ body st' less. absurd (omega arith)) set st bound
  collect-IsRight (suc fuel) set st bound =
      walk-IsRight (suc fuel) (collect fragments fuel)
        (λ body st' less. collect-IsRight fuel body st' (omega arith)) set st bound

  -- In a state that covers what it visited, a covered set has all that it selects found.
  complete :
      (st : Found)
      → ((name : String) → name ∈ st.visited → Entered fragments st name)
      → {set : SelectionSet} {x : String} → Selects fragments set x
      → Covers st set
      → x ∈ st.out
  complete st closed here (h, _) = h
  complete st closed (later s) (_, hs) = complete st closed s hs
  complete st closed (through_spread {spread} {body} found s) (h, _) =
      complete st closed s (closed spread h body found)
  complete st closed (through_inline s) (h, _) = complete st closed s h

unvisited-le-length :
    (v : List String) (fragments : Fragments) → unvisited v fragments ≤ length fragments
unvisited-le-length v [] = omega arith
unvisited-le-length v (entry ∷ rest) = ground (arith, unvisited-le-length v rest)

result-of_Returns :
    (P : Found → Type 0) (o : Option Found) → Returns P o → (st : Found) × (o ≡ some st)
result-of_Returns P none h = absurd h
result-of_Returns P (some st) h = (st, refl)

-- As much fuel as there are fragments is enough: whatever the fragments, cyclic or missing ones
-- included, and whatever was visited before, the collection returns.
pub collect_terminates :
    (fragments : Fragments) (set : SelectionSet) (st : Found)
    → (st' : Found) × (collect fragments (length fragments) set st ≡ some st')
collect_terminates fragments set st =
    result-of_Returns (PassSet fragments set st) _ (
      collect-IsRight fragments (length fragments) set st
        (unvisited-le-length st.visited fragments))

-- The fields collected for an operation are exactly those that its root selects, directly or
-- through any chain of fragment spreads and inline fragments.
pub collect_top_fields_iff :
    (fragments : Fragments) (set : SelectionSet) (name : String)
    → (name ∈ collect_top_fields fragments set) ↔ Selects fragments set name
unfolding collect_top_fields
collect_top_fields_iff fragments set name =
    go _ refl
      (collect-IsRight fragments (length fragments) set start (unvisited-le-length [] fragments))
  where
    start : Found
    start = record { out = []; visited = [] }

    go :
        (o : Option Found)
        → collect fragments (length fragments) set start ≡ o
        → Returns (PassSet fragments set start) o
        → (name ∈ collect_top_fields fragments set) ↔ Selects fragments set name
    go none e h = absurd h
    go (some st) e p = (
      λ m. elim (p.selected name (rw e at m)) [ inl no_field ↦ cc | inr s ↦ s ],
      λ s. rw e (
          complete fragments st (λ n m. elim (p.entered n m) [ inl no_name ↦ cc | inr h ↦ h ]) s
            p.covered),
    )
