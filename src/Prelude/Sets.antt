-- ===== src/Prelude/Sets.antt =====
-- `HashSet<String>` and `BTreeSet<String>` of Rust's standard library.
-- A hash set is the list of its elements, without repetition; the program reads it by `contains`
-- alone. A B-tree set is the list of its elements in increasing order.
pub mod Order
pub mod Increasing
use Prim.Native.Nat.{Ordering}
use Prim.Native.String.{String, compare}
use mathlib.Core.Path.{◌≡◌, refl}
use mathlib.Core.Logic.{◌↔◌, ◌⊎◌, inl, inr}
use mathlib.Core.Bool.{Bool, true, false, ◌||◌, ◌&&◌}
use mathlib.Core.List.{List, [], ◌∷◌, ◌++◌, foldl}
use native.Mathlib.Omega.{arith}
use text.Mathlib.Text.{◌==◌}
use text.Mathlib.TextEquality.{eq_iff, path_by_compare}
use text.Mathlib.TextPositions.{eq_refl}
use indexer_gateway_auth.Prelude.Basics.{filter, any, is_empty, if◌then◌else◌}

-- `set.contains(x)`, and `list.contains(&x)`
abbrev pub contains : List String → String → Bool
contains [] x = false
contains (y ∷ ys) x = (y == x) || contains ys x

-- `x` is an element.
infix 50 ◌∈◌
abbrev pub ◌∈◌ : String → List String → Type 0
x ∈ xs = contains xs x ≡ true

-- The set that `HashSet::insert` leaves; it answers whether the element was new.
unfoldable pub hash_insert : String → List String → List String
hash_insert x xs = if contains xs x then xs else x ∷ xs

-- `iter.collect::<HashSet<_>>()`
unfoldable pub hash_collect : List String → List String
unfolding hash_insert
hash_collect [] = []
hash_collect (x ∷ xs) = hash_insert x (hash_collect xs)

-- The set that `BTreeSet::insert` leaves.
unfoldable pub tree_insert : String → List String → List String
tree_insert x [] = x ∷ []
tree_insert x (y ∷ ys) =
    let rest = tree_insert x ys in
    elim (compare x y) [ Ordering.lt ↦ x ∷ y ∷ ys | Ordering.eq ↦ y ∷ ys | Ordering.gt ↦ y ∷ rest ]

-- `set.extend(xs)`
unfoldable pub tree_extend : List String → List String → List String
unfolding tree_insert
tree_extend set [] = set
tree_extend set (x ∷ xs) = tree_extend (tree_insert x set) xs

pub ∈-hash_insert :
    (x y : String) (xs : List String) → contains (hash_insert x xs) y ≡ ((x == y) || contains xs y)
unfolding hash_insert
∈-hash_insert x y xs = ground (arith, ∈_of_eq x y xs, eq_iff x y)
  where
    ∈_of_eq : (x y : String) (xs : List String) → x ≡ y → contains xs y ≡ contains xs x
    ∈_of_eq x y xs e = rw e

pub ∈-hash_collect : (y : String) (xs : List String) → contains (hash_collect xs) y ≡ contains xs y
unfolding hash_collect
∈-hash_collect y [] = refl
∈-hash_collect y (x ∷ xs) = rw (∈-hash_insert, ∈-hash_collect y xs)

pub ∈-tree_insert :
    (x y : String) (xs : List String) → contains (tree_insert x xs) y ≡ ((x == y) || contains xs y)
unfolding tree_insert
∈-tree_insert x y [] = refl
∈-tree_insert x y (z ∷ zs) = ground (arith, ∈-tree_insert x y zs, path_by_compare x z)

pub ∈-tree_extend :
    (y : String) (set xs : List String)
    → contains (tree_extend set xs) y ≡ (contains set y || contains xs y)
unfolding tree_extend
∈-tree_extend y set [] = ground arith
∈-tree_extend y set (x ∷ xs) =
    ground (arith, ∈-tree_extend y (tree_insert x set) xs, ∈-tree_insert x y set)

pub contains-filter :
    (p : String → Bool) (xs : List String) (x : String)
    → contains (filter p xs) x ≡ (contains xs x && p x)
contains-filter p [] x = refl
contains-filter p (y ∷ ys) x = ground (arith, contains-filter p ys x, eq_iff y x)

pub is_empty_iff : (xs : List String) → (is_empty xs ≡ true) ↔ ((x : String) → ¬ (x ∈ xs))
is_empty_iff [] = (λ _ x h. cc, λ _. refl)
is_empty_iff (x ∷ xs) = (λ h. cc, λ h. absurd (h x (ground (arith, eq_refl x))))

pub any-eq-contains : (f : String) (xs : List String) → any (λ x. x == f) xs ≡ contains xs f
any-eq-contains f [] = refl
any-eq-contains f (x ∷ xs) = ground (arith, any-eq-contains f xs)

pub contains-append :
    (xs ys : List String) (z : String) → contains (xs ++ ys) z ≡ (contains xs z || contains ys z)
contains-append [] ys z = refl
contains-append (x ∷ xs) ys z = ground (arith, contains-append xs ys z)
