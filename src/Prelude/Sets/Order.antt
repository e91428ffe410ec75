-- ===== src/Prelude/Sets/Order.antt =====
-- The order of texts: Rust's `Ord` on strings.
use Prim.Native.Nat.{Ordering}
use Prim.Native.String.compare
use Prim.Native.String.{String, [], ◌∷◌, compare}
use mathlib.Core.Path.{◌≡◌, sym, ◌∙◌}
use native.Mathlib.Omega.{arith}

-- Of two texts, one is below the other exactly if the other is above the one.
pub gt_of_lt : (s t : String) → compare s t ≡ Ordering.lt → compare t s ≡ Ordering.gt
gt_of_lt [] [] h = cc (sym compare.nil-nil ∙ h)
gt_of_lt [] (d ∷ t) h = compare.cons-nil d t
gt_of_lt (c ∷ s) [] h = cc (sym (compare.cons-nil c s) ∙ h)
gt_of_lt (c ∷ s) (d ∷ t) h =
    ground (arith, compare.cons-cons c d s t, compare.cons-cons d c t s, gt_of_lt s t)

pub lt_of_gt : (s t : String) → compare s t ≡ Ordering.gt → compare t s ≡ Ordering.lt
lt_of_gt [] [] h = cc (sym compare.nil-nil ∙ h)
lt_of_gt [] (d ∷ t) h = cc (sym (compare.nil-cons d t) ∙ h)
lt_of_gt (c ∷ s) [] h = compare.nil-cons c s
lt_of_gt (c ∷ s) (d ∷ t) h =
    ground (arith, compare.cons-cons c d s t, compare.cons-cons d c t s, lt_of_gt s t)

pub lt_trans :
    (s t u : String)
    → compare s t ≡ Ordering.lt
    → compare t u ≡ Ordering.lt
    → compare s u ≡ Ordering.lt
lt_trans [] [] u h k = k
lt_trans (c ∷ s) [] u h k = cc (sym (compare.cons-nil c s) ∙ h)
lt_trans [] (d ∷ t) [] h k = cc (sym (compare.cons-nil d t) ∙ k)
lt_trans [] (d ∷ t) (e ∷ u) h k = compare.nil-cons e u
lt_trans (c ∷ s) (d ∷ t) [] h k = cc (sym (compare.cons-nil d t) ∙ k)
lt_trans (c ∷ s) (d ∷ t) (e ∷ u) h k = ground (
  arith,
  compare.cons-cons c d s t,
  compare.cons-cons d e t u,
  compare.cons-cons c e s u,
  lt_trans s t u,
)
