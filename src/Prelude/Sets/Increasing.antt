-- ===== src/Prelude/Sets/Increasing.antt =====
-- A B-tree set stands in increasing order, so its elements determine it.
use Prim.Native.Nat.{Ordering}
use Prim.Native.String.{String, compare}
use mathlib.Core.Path.{◌≡◌, refl, sym, ◌∙◌, ap₂}
use mathlib.Core.Logic.{inl, inr}
use mathlib.Core.Bool.{false}
use mathlib.Core.List.{List, [], ◌∷◌}
use native.Mathlib.Omega.{arith}
use text.Mathlib.Text.{◌==◌}
use text.Mathlib.TextEquality.{eq_iff}
use text.Mathlib.TextPositions.{eq_refl, compare_refl}
use indexer_gateway_auth.Prelude.Basics.{All, Bool-cases}
use indexer_gateway_auth.Prelude.Sets.{contains, ◌∈◌, tree_insert, tree_extend}
use indexer_gateway_auth.Prelude.Sets.Order.{lt_of_gt, gt_of_lt, lt_trans}

abbrev pub IsBelow : String → List String → Type 0
IsBelow x xs = All (λ y. compare x y ≡ Ordering.lt) xs

abbrev pub IsIncreasing : List String → Type 0
IsIncreasing [] = Unit
IsIncreasing (x ∷ xs) = IsBelow x xs × IsIncreasing xs

IsBelow-insert :
    (w x : String) (xs : List String)
    → compare w x ≡ Ordering.lt
    → IsBelow w xs
    → IsBelow w (tree_insert x xs)
unfolding tree_insert
IsBelow-insert w x [] h k = (h, tt)
IsBelow-insert w x (y ∷ ys) h (k, ks) = ground (arith, IsBelow-insert w x ys h ks)

IsBelow-trans :
    (w x : String) (xs : List String) → compare w x ≡ Ordering.lt → IsBelow x xs → IsBelow w xs
IsBelow-trans w x [] h k = tt
IsBelow-trans w x (y ∷ ys) h (k, ks) = (lt_trans w x y h k, IsBelow-trans w x ys h ks)

pub tree_insert-IsIncreasing :
    (x : String) (xs : List String) → IsIncreasing xs → IsIncreasing (tree_insert x xs)
unfolding tree_insert
tree_insert-IsIncreasing x [] h = (tt, tt)
tree_insert-IsIncreasing x (y ∷ ys) (b, h) = ground (
  arith,
  tree_insert-IsIncreasing x ys h,
  IsBelow-insert y x ys,
  IsBelow-trans x y ys,
  lt_of_gt x y,
)

pub tree_extend-IsIncreasing :
    (set xs : List String) → IsIncreasing set → IsIncreasing (tree_extend set xs)
unfolding tree_extend
tree_extend-IsIncreasing set [] h = h
tree_extend-IsIncreasing set (x ∷ xs) h =
    tree_extend-IsIncreasing (tree_insert x set) xs (tree_insert-IsIncreasing x set h)

-- What stands above every element is none.
not-mem-of_IsBelow : (x : String) (xs : List String) → IsBelow x xs → contains xs x ≡ false
not-mem-of_IsBelow x [] h = refl
not-mem-of_IsBelow x (y ∷ ys) (h, hs) =
    ground (arith, not-mem-of_IsBelow x ys hs, eq_iff y x, compare_refl x)

lt_of_mem : (x y : String) (ys : List String) → IsBelow x ys → y ∈ ys → compare x y ≡ Ordering.lt
lt_of_mem x y [] h m = cc
lt_of_mem x y (z ∷ zs) (h, hs) m = ground (arith, lt_of_mem x y zs hs, eq_iff z y)

-- The least elements of two such lists with the same elements are one.
heads-eq :
    (x y : String) (xs ys : List String)
    → IsIncreasing (x ∷ xs)
    → IsIncreasing (y ∷ ys)
    → x ∈ (y ∷ ys)
    → y ∈ (x ∷ xs)
    → x ≡ y
heads-eq x y xs ys (h, _) (k, _) m n =
    ground (arith, eq_iff x y, eq_iff y x, lt_of_mem x y xs h, lt_of_mem y x ys k, gt_of_lt x y)

tails-same :
    (x : String) (xs ys : List String)
    → IsBelow x xs
    → IsBelow x ys
    → ((z : String) → contains (x ∷ xs) z ≡ contains (x ∷ ys) z)
    → (z : String) → contains xs z ≡ contains ys z
tails-same x xs ys h k same z = elim (Bool-cases (x == z)) [
  | inl e ↦
      let p = (eq_iff x z).0 e in
      rw (← p) (not-mem-of_IsBelow x xs h ∙ sym (not-mem-of_IsBelow x ys k))
  | inr e ↦ ground (arith, same z)
]

-- Two increasing lists with the same elements are equal.
pub eq_of_same_elements :
    (xs ys : List String)
    → IsIncreasing xs
    → IsIncreasing ys
    → ((z : String) → contains xs z ≡ contains ys z)
    → xs ≡ ys
eq_of_same_elements [] [] h k same = refl
eq_of_same_elements [] (y ∷ ys) h k same = ground (arith, same y, eq_refl y)
eq_of_same_elements (x ∷ xs) [] h k same = ground (arith, same x, eq_refl x)
eq_of_same_elements (x ∷ xs) (y ∷ ys) h k same =
    let e =
      heads-eq x y xs ys h k (ground (arith, same x, eq_refl x))
        (ground (arith, same y, eq_refl y)) in
    ap₂ {C = List String} (λ a l. a ∷ l) e
      (eq_of_same_elements xs ys h.1 k.1
        (tails-same x xs ys h.0 (rw e k.0) (λ z. rw (← e) at (same z))))
