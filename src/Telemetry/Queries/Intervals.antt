-- ===== src/Telemetry/Queries/Intervals.antt =====
-- Windows of the history that meet.
use flood_monitoring_and_man.Common.{
  count_if, ℕ, zero, suc, ap, ◌≤◌, ◌+◌, String, List, [], ◌∷◌, Bool, true, false, ◌&&◌, ◌≡◌, refl,
  arith, string_eq, leb, take, keep_if, length,
}
use flood_monitoring_and_man.Auth.Api.{Reply, ok, http_error}
use flood_monitoring_and_man.Telemetry.Rows.{Row}
use flood_monitoring_and_man.Telemetry.Queries.{in_window, get_area_telemetry}

take-all {ℓ} : {A : Type ℓ} (n : ℕ) (xs : List A) → length xs ≤ n → take n xs ≡ xs
take-all zero [] h = refl
take-all zero (x ∷ xs) h = absurd (omega (arith, h))
take-all (suc n) [] h = refl
take-all (suc n) (x ∷ xs) h = ap (λ ys. x ∷ ys) (take-all n xs (omega (arith, h)))

count_if-keep_if {ℓ} :
    {A : Type ℓ} (p q : A → Bool) (xs : List A)
    → count_if p (keep_if q xs) ≡ count_if (λ x. q x && p x) xs
count_if-keep_if p q [] = refl
count_if-keep_if p q (x ∷ xs) = ground (arith, count_if-keep_if p q xs)

length-keep_if_count {ℓ} :
    {A : Type ℓ} (q : A → Bool) (xs : List A) → length (keep_if q xs) ≡ count_if q xs
length-keep_if_count q [] = refl
length-keep_if_count q (x ∷ xs) = ground (arith, length-keep_if_count q xs)

count_if-true {ℓ} : {A : Type ℓ} (xs : List A) → count_if (λ x. true) xs ≡ length xs
count_if-true [] = refl
count_if-true (x ∷ xs) = ap suc (count_if-true xs)

abbrev pub rows_in : {A : Type 0} → Reply (List A) → List A
rows_in (ok rows) = rows
rows_in (http_error n) = []

module _ {F D : Type 0} (le : D → D → Bool)
    (le-trans : (a b c : D) → le a b ≡ true → le b c ≡ true → le a c ≡ true)
    (order_by : List (Row F D) → List (Row F D))
    (same_counts : (p : Row F D → Bool) (rs : List (Row F D))
      → count_if p (order_by rs) ≡ count_if p rs) where
  count_if-split :
      (p : Row F D → Bool) (area : String) (start middle end : D) (rows : List (Row F D))
      → le start middle ≡ true
      → le middle end ≡ true
      → count_if (λ r. in_window le area start end r && p r) rows
        ≡ count_if (λ r. in_window le area start middle r && p r) rows
          + count_if (λ r. in_window le area middle end r && p r) rows
  count_if-split p area start middle end [] before after = refl
  count_if-split p area start middle end (r ∷ rows) before after = ground (
    arith,
    count_if-split p area start middle end rows before after,
    le-trans start middle r.ts before,
    le-trans middle end r.ts after,
  )

  length-order_by : (rs : List (Row F D)) → length (order_by rs) ≡ length rs
  length-order_by rs =
      omega (arith, count_if-true rs, count_if-true (order_by rs), same_counts (λ r. true) rs)

  count_if-window :
      (p : Row F D → Bool) (area : String) (start end : D) (limit : ℕ) (rows : List (Row F D))
      → leb 1 limit ≡ true
      → leb limit 10000 ≡ true
      → count_if (in_window le area start end) rows ≤ limit
      → le end start ≡ false
      → count_if p (rows_in (get_area_telemetry le order_by area start end limit rows))
        ≡ count_if (λ r. in_window le area start end r && p r) rows
  unfolding get_area_telemetry
  count_if-window p area start end limit rows low high fits proper =
      let kept = keep_if (in_window le area start end) rows in
      rw
        (
          low,
          high,
          proper,
          take-all limit (order_by kept) (
              omega (
                arith,
                fits,
                length-order_by kept,
                length-keep_if_count (in_window le area start end) rows,
              )),
          same_counts p kept,
          count_if-keep_if p (in_window le area start end) rows,
        )
        refl

  windows-fit :
      (area : String) (start middle end : D) (rows : List (Row F D))
      → le start middle ≡ true
      → le middle end ≡ true
      → count_if (in_window le area start middle) rows
          + count_if (in_window le area middle end) rows
        ≡ count_if (in_window le area start end) rows
  windows-fit area start middle end [] before after = refl
  windows-fit area start middle end (r ∷ rows) before after = ground (
    arith,
    windows-fit area start middle end rows before after,
    le-trans start middle r.ts before,
    le-trans middle end r.ts after,
  )

  -- Two windows that meet share no row and leave none out: of the rows of any kind, the window from the
  -- start of the first to the end of the second has as many as the two together. This is where the
  -- instants compare transitively, ORDER BY neither drops nor doubles rows, the limit is in its bounds,
  -- and the rows of the whole window are no more than the limit.
  pub get_area_telemetry-split :
      (p : Row F D → Bool) (area : String) (start middle end : D) (limit : ℕ)
      (rows : List (Row F D))
      → leb 1 limit ≡ true
      → leb limit 10000 ≡ true
      → count_if (in_window le area start end) rows ≤ limit
      → le start middle ≡ true
      → le middle end ≡ true
      → le middle start ≡ false
      → le end middle ≡ false
      → count_if p (rows_in (get_area_telemetry le order_by area start end limit rows))
        ≡ count_if p (rows_in (get_area_telemetry le order_by area start middle limit rows))
          + count_if p (rows_in (get_area_telemetry le order_by area middle end limit rows))
  get_area_telemetry-split p area start middle end limit rows low high fits before after first
        second =
      let parts = windows-fit area start middle end rows before after in
      rw
        (
          count_if-window p area start end limit rows low high fits
              (ground (arith, le-trans end start middle, before, second)),
          count_if-window p area start middle limit rows low high (omega (arith, parts, fits))
              first,
          count_if-window p area middle end limit rows low high (omega (arith, parts, fits)) second,
        )
        (count_if-split p area start middle end rows before after)
