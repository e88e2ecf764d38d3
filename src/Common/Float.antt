-- ===== src/Common/Float.antt =====
-- Python's `float`, as far as the services use it. The language has it built in, so its operations
-- are a parameter; the laws that a theorem needs are named in `FloatLaws`.
use mathlib.Core.Bool.{Bool, true, false}
use mathlib.Core.Path.{◌≡◌}
use Prim.Native.Nat.{ℕ}

pub record Float (F : Type 0) : Type 0 where
  -- `a < b`, which `b > a` means too; `a <= b`, which `b >= a` means too.
  pub lt : F → F → Bool
  pub le : F → F → Bool
  pub eq : F → F → Bool
  -- An integer literal such as `50.0`.
  pub num : ℕ → F
  -- The literals 0.01 and -0.01, 0.70 and 359.99.
  pub one_pct : F
  pub minus_one_pct : F
  pub seventy_pct : F
  pub max_degrees : F
  pub add : F → F → F
  pub sub : F → F → F
  pub mul : F → F → F
  pub div : F → F → F
  pub abs : F → F

-- What holds of the order of Python's floats that are not NaN.
pub record FloatLaws (F : Type 0) ⦃f : Float F⦄ : Type 0 where
  pub lt_irrefl : (a : F) → f.lt a a ≡ false
  pub lt_trans : (a b c : F) → f.lt a b ≡ true → f.lt b c ≡ true → f.lt a c ≡ true
  -- Of two floats one is the smaller, or `<=` holds the other way.
  pub le-of-not-lt : (a b : F) → f.lt a b ≡ false → f.le b a ≡ true
  pub lt-of-lt-le : (a b c : F) → f.lt a b ≡ true → f.le b c ≡ true → f.lt a c ≡ true
  pub lt-of-le-lt : (a b c : F) → f.le a b ≡ true → f.lt b c ≡ true → f.lt a c ≡ true
  pub le_refl : (a : F) → f.le a a ≡ true
