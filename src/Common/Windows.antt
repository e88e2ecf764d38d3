-- ===== src/Common/Windows.antt =====
-- Laws of the sliding windows `l[-n:]` and `l[:-1]`.
use flood_monitoring_and_man.Common.Lists.{length, last_n, init, drop, length-append}
use Prim.Native.Nat.{ℕ, zero, suc, ◌+◌, ◌-◌, ◌≤◌}
use mathlib.Core.Path.{◌≡◌, refl, ap, ◌∙◌, sym}
use mathlib.Core.List.{List, [], ◌∷◌, ◌++◌}
use native.Mathlib.Omega.{arith}
use native.Mathlib.Decide.{dec_le}

module _ {ℓ} {A : Type ℓ} where
  last_n-cons : (n : ℕ) (x : A) (xs : List A) → n ≤ length xs → last_n n (x ∷ xs) ≡ last_n n xs
  last_n-cons n x xs h =
      let e : suc (length xs) - n ≡ suc (length xs - n) = omega arith in ap (λ k. drop k (x ∷ xs)) e

  pub last_n-short : (n : ℕ) (xs : List A) → length xs ≤ n → last_n n xs ≡ xs
  last_n-short n xs h = let e : length xs - n ≡ 0 = omega arith in ap (λ k. drop k xs) e

  -- A window of `n` forgets nothing that a later window of `m` needs.
  pub last_n-append :
      (m n : ℕ) (xs ys : List A)
      → m ≤ n + length ys
      → last_n m (last_n n xs ++ ys) ≡ last_n m (xs ++ ys)
  last_n-append m n [] ys h = ap (λ zs. last_n m (zs ++ ys)) (last_n-short n [] (omega arith))
  last_n-append m n (x ∷ xs) ys h = elim (dec_le (suc (length xs)) n) [
    | yes short ↦ ap (λ zs. last_n m (zs ++ ys)) (last_n-short n (x ∷ xs) short)
    | no long ↦
        ap (λ zs. last_n m (zs ++ ys)) (last_n-cons n x xs (omega arith))
        ∙ last_n-append m n xs ys h
        ∙ sym (last_n-cons m x (xs ++ ys) (omega (arith, length-append xs ys)))
  ]

  pub init-append : (xs : List A) (y : A) → init (xs ++ y ∷ []) ≡ xs
  init-append [] y = refl
  init-append (x ∷ []) y = refl
  init-append (x ∷ x' ∷ xs) y = ap (λ zs. x ∷ zs) (init-append (x' ∷ xs) y)

  drop-append : (k : ℕ) (xs ys : List A) → k ≤ length xs → drop k (xs ++ ys) ≡ drop k xs ++ ys
  drop-append zero xs ys h = refl
  drop-append (suc k) [] ys h = elim h [ ]
  drop-append (suc k) (x ∷ xs) ys h = drop-append k xs ys (omega arith)

  -- A window of n + 1 that ends in `y`, without `y`, is the window of n before it.
  pub init-last_n :
      (n : ℕ) (xs : List A) (y : A) → init (last_n (suc n) (xs ++ y ∷ [])) ≡ last_n n xs
  init-last_n n xs y =
      let e : length (xs ++ y ∷ []) - suc n ≡ length xs - n =
        omega (arith, length-append xs (y ∷ [])) in
      ap (λ k. init (drop k (xs ++ y ∷ []))) e
      ∙ ap init (drop-append (length xs - n) xs (y ∷ []) (omega arith))
      ∙ init-append (drop (length xs - n) xs) y
