-- ===== src/Common/Texts.antt =====
-- The order of Python's texts, by code points.
use Prim.Native.Nat.{ℕ, Ordering, compare as compare_nat}
use Prim.Native.Char.{Char, code}
use Prim.Native.String.{String, [], ◌∷◌, then, compare}
use Prim.Native.String.compare
use mathlib.Core.Path.{◌≡◌, ◌∙◌}
use mathlib.Core.Bool.{Bool, true, false, ◌&&◌, ◌||◌}
use native.Mathlib.Omega.{arith}
use flood_monitoring_and_man.Common.Tests.{ltb, nat_eq}

abbrev is_gt : Ordering → Bool
is_gt Ordering.gt = true
is_gt Ordering.eq = false
is_gt Ordering.lt = false

-- Python's `a > b` on texts.
abbrev pub text_gt : String → String → Bool
text_gt a b = is_gt (compare a b)

is_gt-then :
    (m n : ℕ) (o : Ordering) → is_gt (then (compare_nat m n) o) ≡ ltb n m || (nat_eq m n && is_gt o)
is_gt-then m n o = ground arith

nil-text_gt : (b : String) → text_gt [] b ≡ false
nil-text_gt [] = λ i. is_gt (compare.nil-nil i)
nil-text_gt (y ∷ b) = λ i. is_gt (compare.nil-cons y b i)

text_gt-cons :
    (c d : Char) (s t : String)
    → text_gt (c ∷ s) (d ∷ t) ≡ ltb (code d) (code c) || (nat_eq (code c) (code d) && text_gt s t)
text_gt-cons c d s t =
    (λ i. is_gt (compare.cons-cons c d s t i)) ∙ is_gt-then (code c) (code d) (compare s t)

pub text_gt_trans : (a b c : String) → text_gt a b ≡ true → text_gt b c ≡ true → text_gt a c ≡ true
text_gt_trans [] b c h k = ground (arith, nil-text_gt b)
text_gt_trans (x ∷ a) [] c h k = ground (arith, nil-text_gt c)
text_gt_trans (x ∷ a) (y ∷ b) [] h k = λ i. is_gt (compare.cons-nil x a i)
text_gt_trans (x ∷ a) (y ∷ b) (z ∷ c) h k =
    ground
      (arith, text_gt-cons x y a b, text_gt-cons y z b c, text_gt-cons x z a c, text_gt_trans a b c)

pub text_gt_irrefl : (a : String) → text_gt a a ≡ false
text_gt_irrefl [] = nil-text_gt []
text_gt_irrefl (x ∷ a) = ground (arith, text_gt-cons x x a a, text_gt_irrefl a)
