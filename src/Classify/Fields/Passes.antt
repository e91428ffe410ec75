-- ===== src/Classify/Fields/Passes.antt =====
-- What the visit of an item leaves, by the kind of the item.
use indexer_gateway_auth.Prelude.{
  ℕ, ◌≤◌, ◌<◌, String, ◌≡◌, ◌⊎◌, inl, inr, false, none, some, [], ◌∷◌, arith, eq_iff, eq_refl,
  Option-cases, Bool-cases,
}
use indexer_gateway_auth.Prelude.Sets.{contains, ◌∈◌, hash_insert, ∈-hash_insert}
use indexer_gateway_auth.Prelude.Sets.{contains-append}
use indexer_gateway_auth.Classify.Syntax.{
  Selection, field, fragment_spread, inline_fragment, SelectionSet, nil, cons, Fragments,
  get_fragment,
}
use indexer_gateway_auth.Classify.Fields.{Found, add_field, Expand, expand_found, spread}
use indexer_gateway_auth.Classify.Fields.Selects.{
  Selects, here, later, through_spread, through_inline,
}
use indexer_gateway_auth.Classify.Fields.Laws.{
  Returns, Returns-mono, unvisited, Covers, CoversItem, Grows, Covers-Grows, CoversItem-Grows,
  unvisited-enter, Grows-refl, Grows-trans, Grows-add_field,
}

module _ (fragments : Fragments) where
  -- Every fragment of that name is covered.
  abbrev pub Entered : Found → String → Type 0
  Entered st name = (body : SelectionSet) → get_fragment name fragments ≡ some body → Covers st body

  -- What a pass over something leaves: `Done` says that the thing itself is covered, and `From`
  -- that a field is selected by it.
  pub record Pass (st st' : Found) (Done : Type 0) (From : String → Type 0) : Type 0 where
    pub grows : Grows st st'
    pub covered : Done
    pub entered : (name : String) → name ∈ st'.visited → (name ∈ st.visited) ⊎ Entered st' name
    pub selected : (x : String) → x ∈ st'.out → (x ∈ st.out) ⊎ From x

  abbrev pub PassSet : SelectionSet → Found → Found → Type 0
  PassSet set st st' = Pass st st' (Covers st' set) (Selects fragments set)

  abbrev pub PassItem : Selection → Found → Found → Type 0
  PassItem item st st' = Pass st st' (CoversItem st' item) (Selects fragments (cons item nil))

  -- The work on bodies is right wherever fewer than `m` fragments are left.
  abbrev pub IsRight : ℕ → Expand → Type 0
  IsRight m expand =
      (body : SelectionSet) (st : Found)
      → unvisited st.visited fragments < m
      → Returns (PassSet body st) (expand body st)

  Entered-Grows :
      {st st' : Found} (name : String) → Grows st st' → Entered st name → Entered st' name
  Entered-Grows name g h body e = Covers-Grows body g (h body e)

  pub Pass-field : (name : String) (st : Found) → PassItem (field name) st (add_field name st)
  Pass-field name st = record {
    grows = Grows-add_field name st;
    covered = ground (arith, contains-append st.out (name ∷ []) name, eq_refl name);
    entered = λ n m. inl m;
    selected = λ x m. elim (Bool-cases (contains st.out x)) [
      | inl old ↦ inl old
      | inr new ↦
          let e : x ≡ name = ground (arith, contains-append st.out (name ∷ []) x, eq_iff name x) in
          inr (rw e here)
    ];
  }

  Pass-visited :
      (name : String) (st : Found) → name ∈ st.visited → PassItem (fragment_spread name) st st
  Pass-visited name st old = record {
    grows = Grows-refl st;
    covered = old;
    entered = λ n m. inl m;
    selected = λ x m. inl m;
  }

  abbrev enter : String → Found → Found
  enter name st = record st { visited = hash_insert name st.visited }

  Grows-enter : (name : String) (st : Found) → Grows st (enter name st)
  Grows-enter name st = record {
    out = λ x m. m;
    visited = λ x m. ground (arith, ∈-hash_insert name x st.visited, m);
  }

  -- What was visited after `enter name` is `name`, or was visited before.
  visited-enter :
      (name n : String) (st : Found) → n ∈ (enter name st).visited → (n ∈ st.visited) ⊎ (n ≡ name)
  visited-enter name n st m = elim (Bool-cases (contains st.visited n)) [
    | inl old ↦ inl old
    | inr new ↦ inr (ground (arith, ∈-hash_insert name n st.visited, eq_iff name n))
  ]

  Pass-unknown :
      (name : String) (st : Found)
      → get_fragment name fragments ≡ none
      → PassItem (fragment_spread name) st (enter name st)
  Pass-unknown name st missing = record {
    grows = Grows-enter name st;
    covered = ground (arith, ∈-hash_insert name name st.visited, eq_refl name);
    entered = λ n m. elim (visited-enter name n st m) [
      | inl old ↦ inl old
      | inr e ↦ inr (λ body found. cc)
    ];
    selected = λ x m. inl m;
  }

  Pass-body :
      (name : String) (body : SelectionSet) (st st' : Found)
      → get_fragment name fragments ≡ some body
      → PassSet body (enter name st) st'
      → PassItem (fragment_spread name) st st'
  Pass-body name body st st' found p = record {
    grows = Grows-trans (Grows-enter name st) p.grows;
    covered =
        p.grows.visited name (ground (arith, ∈-hash_insert name name st.visited, eq_refl name));
    entered = λ n m. elim (p.entered n m) [
      | inr done ↦ inr done
      | inl before ↦ elim (visited-enter name n st before) [
        | inl old ↦ inl old
        | inr e ↦
            inr (λ other found'. let same : body ≡ other = ground arith in rw (← same) p.covered)
      ]
    ];
    selected = λ x m. elim (p.selected x m) [
      | inl old ↦ inl old
      | inr sel ↦ inr (through_spread found sel)
    ];
  }

  spread-old :
      (expand : Expand) (name : String) (st : Found)
      → name ∈ st.visited
      → spread fragments expand name st ≡ some st
  unfolding spread
  spread-old expand name st old = rw old

  spread-new :
      (expand : Expand) (name : String) (st : Found)
      → contains st.visited name ≡ false
      → spread fragments expand name st
        ≡ expand_found expand (get_fragment name fragments) (enter name st)
  unfolding spread
  spread-new expand name st new = rw new

  pub spread-IsRight :
      (m : ℕ) (expand : Expand) (name : String) (st : Found)
      → IsRight m expand
      → unvisited st.visited fragments ≤ m
      → Returns (PassItem (fragment_spread name) st) (spread fragments expand name st)
  spread-IsRight m expand name st right bound = elim (Bool-cases (contains st.visited name)) [
    | inl old ↦ rw (spread-old expand name st old) (Pass-visited name st old)
    | inr new ↦ elim (Option-cases (get_fragment name fragments)) [
      | inl missing ↦ rw (spread-new expand name st new, missing) (Pass-unknown name st missing)
      | inr (body, found) ↦
          let less = unvisited-enter st.visited name body fragments new found in
          rw (spread-new expand name st new, found)
            (Returns-mono (PassSet body (enter name st)) (PassItem (fragment_spread name) st)
              (expand body (enter name st)) (λ st' p. Pass-body name body st st' found p)
              (right body (enter name st) (omega arith)))
    ]
  ]

  pub Pass-nil : (st : Found) → PassSet nil st st
  Pass-nil st = record {
    grows = Grows-refl st;
    covered = tt;
    entered = λ n m. inl m;
    selected = λ x m. inl m;
  }

  pub Pass-inline :
      (set : SelectionSet) (st st' : Found)
      → PassSet set st st'
      → PassItem (inline_fragment set) st st'
  Pass-inline set st st' p = record {
    grows = p.grows;
    covered = p.covered;
    entered = p.entered;
    selected =
        λ x m. elim (p.selected x m) [ inl old ↦ inl old | inr sel ↦ inr (through_inline sel) ];
  }

  -- What an item alone selects, it selects in front of others.
  Selects-weaken :
      {item : Selection} {x : String} (items : SelectionSet)
      → Selects fragments (cons item nil) x
      → Selects fragments (cons item items) x
  Selects-weaken items here = here
  Selects-weaken items (later none_left) = elim none_left [ ]
  Selects-weaken items (through_spread found s) = through_spread found s
  Selects-weaken items (through_inline s) = through_inline s

  pub Pass-cons :
      (item : Selection) (items : SelectionSet) (a b c : Found)
      → PassItem item a b
      → PassSet items b c
      → PassSet (cons item items) a c
  Pass-cons item items a b c p q = record {
    grows = Grows-trans p.grows q.grows;
    covered = (CoversItem-Grows item q.grows p.covered, q.covered);
    entered = λ n m. elim (q.entered n m) [
      | inr done ↦ inr done
      | inl before ↦ elim (p.entered n before) [
        | inr done ↦ inr (Entered-Grows n q.grows done)
        | inl old ↦ inl old
      ]
    ];
    selected = λ x m. elim (q.selected x m) [
      | inr sel ↦ inr (later sel)
      | inl before ↦ elim (p.selected x before) [
        | inr sel ↦ inr (Selects-weaken items sel)
        | inl old ↦ inl old
      ]
    ];
  }
