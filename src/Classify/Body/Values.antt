-- ===== src/Classify/Body/Values.antt =====
-- Which JSON values give a query, and which an operation name.
use indexer_gateway_auth.Prelude.{
  String, ◌≡◌, refl, ◌⊎◌, inl, inr, Option, none, some, List, [], ◌∷◌,
}
use indexer_gateway_auth.Json.{Value, null, bool, number, string, array, object}
use indexer_gateway_auth.Classify.Body.{Partial, put_query, put_name}

abbrev pub query_json : Option String → List Value
query_json none = []
query_json (some s) = string s ∷ []

abbrev pub name_json : Option String → Value
name_json none = null
name_json (some s) = string s

abbrev pub name_list : Option (Option String) → List Value
name_list none = []
name_list (some n) = name_json n ∷ []

pub query_json-single :
    (o : Option String) (v w : Value) (vs : List Value) → ¬ (v ∷ w ∷ vs ≡ query_json o)
query_json-single none v w vs h = cc
query_json-single (some s) v w vs h = cc

no_query :
    (o : Option String) (v : Value) (vs : List Value)
    → v ∷ vs ≡ query_json o
    → ¬ ((s : String) → ¬ (v ≡ string s))
no_query none v vs h k = cc
no_query (some s) v vs h k = k s (cc)

no_name :
    (o : Option (Option String)) (v : Value) (vs : List Value)
    → v ∷ vs ≡ name_list o
    → ¬ (v ≡ null)
    → ¬ ((s : String) → ¬ (v ≡ string s))
no_name none v vs h k l = cc
no_name (some none) v vs h k l = k (cc)
no_name (some (some s)) v vs h k l = l s (cc)

pub name_list-single :
    (o : Option (Option String)) (v w : Value) (vs : List Value) → ¬ (v ∷ w ∷ vs ≡ name_list o)
name_list-single none v w vs h = cc
name_list-single (some n) v w vs h = cc

pub query_json-injective : (o u : Option String) → query_json o ≡ query_json u → o ≡ u
query_json-injective none none h = refl
query_json-injective none (some t) h = cc
query_json-injective (some s) none h = cc
query_json-injective (some s) (some t) h = let e : s ≡ t = cc in cc

pub name_list-injective : (o u : Option (Option String)) → name_list o ≡ name_list u → o ≡ u
name_list-injective none none h = refl
name_list-injective none (some t) h = cc
name_list-injective (some s) none h = cc
name_list-injective (some none) (some none) h = refl
name_list-injective (some none) (some (some t)) h = cc
name_list-injective (some (some s)) (some none) h = cc
name_list-injective (some (some s)) (some (some t)) h = let e : s ≡ t = cc in cc

-- A query is a text, and an operation name is null or a text.
pub query_cases :
    (v : Value)
    → ((s : String) × (v ≡ string s))
      ⊎ (((p : Partial) → put_query none v p ≡ none)
          × ((o : Option String) (vs : List Value) → ¬ (v ∷ vs ≡ query_json o)))
query_cases (string s) = inl (s, refl)
query_cases null = inr (λ p. refl, λ o vs h. no_query o null vs h (λ s e. cc))
query_cases (bool b) = inr (λ p. refl, λ o vs h. no_query o (bool b) vs h (λ s e. cc))
query_cases (number n) = inr (λ p. refl, λ o vs h. no_query o (number n) vs h (λ s e. cc))
query_cases (array is) = inr (λ p. refl, λ o vs h. no_query o (array is) vs h (λ s e. cc))
query_cases (object ms) = inr (λ p. refl, λ o vs h. no_query o (object ms) vs h (λ s e. cc))

pub name_cases :
    (v : Value)
    → ((n : Option String) × (v ≡ name_json n))
      ⊎ (((p : Partial) → put_name none v p ≡ none)
          × ((o : Option (Option String)) (vs : List Value) → ¬ (v ∷ vs ≡ name_list o)))
name_cases (string s) = inl (some s, refl)
name_cases null = inl (none, refl)
name_cases (bool b) = inr (λ p. refl, λ o vs h. no_name o (bool b) vs h (λ e. cc) (λ s e. cc))
name_cases (number n) = inr (λ p. refl, λ o vs h. no_name o (number n) vs h (λ e. cc) (λ s e. cc))
name_cases (array is) = inr (λ p. refl, λ o vs h. no_name o (array is) vs h (λ e. cc) (λ s e. cc))
name_cases (object ms) = inr (λ p. refl, λ o vs h. no_name o (object ms) vs h (λ e. cc) (λ s e. cc))
