-- ===== src/Alerts/Table/Filter.antt =====
-- What `get_alerts` lists.
use flood_monitoring_and_man.Common.{
  ℕ, zero, suc, ◌≤◌, String, List, [], ◌∷◌, Option, Bool, true, ◌≡◌, arith, All, take, drop,
  keep_if, length, Bool-cases, inl, inr,
}
use flood_monitoring_and_man.RuleEngine.Models.{Severity}
use flood_monitoring_and_man.Alerts.Table.{AlertRow, Table, matches, get_alerts}

module _ {A : Type 0} (p : A → Bool) where
  abbrev pub Holds : A → Type 0
  Holds x = p x ≡ true

  pub All-keep_if : (xs : List A) → All Holds (keep_if p xs)
  All-keep_if [] = tt
  All-keep_if (x ∷ xs) = elim (Bool-cases (p x)) [
    | inl holds ↦ rw holds (holds, All-keep_if xs)
    | inr fails ↦ rw fails (All-keep_if xs)
  ]

  pub All-drop : (n : ℕ) (xs : List A) → All Holds xs → All Holds (drop n xs)
  All-drop zero xs h = h
  All-drop (suc n) [] h = h
  All-drop (suc n) (x ∷ xs) h = All-drop n xs h.1

  pub All-take : (n : ℕ) (xs : List A) → All Holds xs → All Holds (take n xs)
  All-take zero xs h = tt
  All-take (suc n) [] h = h
  All-take (suc n) (x ∷ xs) h = (h.0, All-take n xs h.1)

pub length-take : {A : Type 0} (n : ℕ) (xs : List A) → length (take n xs) ≤ n
length-take zero xs = omega arith
length-take (suc n) [] = omega arith
length-take (suc n) (x ∷ xs) = omega (arith, length-take n xs)

module _ {F : Type 0} where
  -- If the sort brings in no row that was not there, then every alert listed is in one of the areas, of
  -- the severity and in the state of acknowledgement asked for, and there are at most `limit` of them.
  pub get_alerts-matches :
      (order_by : Table F → Table F) (areas : Option (List String)) (severity : Option Severity)
      (acknowledged : Option Bool) (limit offset : ℕ) (t : Table F)
      → ((p : AlertRow F → Bool) (u : Table F) → All (Holds p) u → All (Holds p) (order_by u))
      → All
          (Holds (matches areas severity acknowledged))
          (get_alerts order_by areas severity acknowledged limit offset t)
        × (length (get_alerts order_by areas severity acknowledged limit offset t) ≤ limit)
  unfolding get_alerts
  get_alerts-matches order_by areas severity acknowledged limit offset t sorts =
      let p = matches areas severity acknowledged in
      (All-take p limit _ (All-drop p offset _ (sorts p _ (All-keep_if p t))), length-take limit _)
