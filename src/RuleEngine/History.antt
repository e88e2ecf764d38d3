-- ===== src/RuleEngine/History.antt =====
-- `_update_history` of services/rule-engine/src/rule_engine/consumer.py: the sliding window of recent
-- values for each (sensor, parameter), and what the trend is computed from.
use flood_monitoring_and_man.Common.{
  ℕ, String, List, [], ◌∷◌, ◌++◌, Option, none, some, ◌≡◌, refl, ap, ◌∙◌, last_n, init, ◌==◌,
  string_eq, pair_eq, arith, ==-refl, append_assoc, append-nil, sym, ◌&&◌, false,
}
use flood_monitoring_and_man.Common.Dict.{Dict, lookup, insert, lookup-insert}
use flood_monitoring_and_man.Common.Windows.{last_n-append, init-last_n}
use flood_monitoring_and_man.Common.Float.{Float}
use flood_monitoring_and_man.RuleEngine.Trend.{trend_of, compute_trend}

-- `_HISTORY_MAX`
abbrev pub history_max : ℕ
history_max = 5

-- `_sensor_history`, keyed by (sensor_id, parameter)
abbrev pub History : Type 0 → Type 0
History F = Dict (String × String) (List F)

-- `d.get(k, [])`
abbrev pub or_empty : {F : Type 0} → Option (List F) → List F
or_empty none = []
or_empty (some l) = l

module _ {F : Type 0} where
  unfoldable pub readings : History F → String → String → List F
  readings h sensor param = or_empty (lookup (sensor, param) h)

  -- The new dictionary, and the history before the current value.
  unfoldable pub update_history : String → String → F → History F → History F × List F
  unfolding readings
  update_history sensor param value h =
      let history = last_n history_max (readings h sensor param ++ value ∷ []) in
      (insert (sensor, param) history h, init history)

  -- Every value of one sensor and parameter in turn.
  unfoldable pub update_all : String → String → List F → History F → History F
  update_all sensor param [] h = h
  update_all sensor param (v ∷ vs) h =
      update_all sensor param vs (update_history sensor param v h).0

  readings-update_self :
      (s p : String) (v : F) (h : History F)
      → readings (update_history s p v h).0 s p ≡ last_n history_max (readings h s p ++ v ∷ [])
  unfolding readings update_history
  readings-update_self s p v h = simp (lookup-insert, ==-refl)

  -- A reading of one sensor and parameter leaves the windows of all others alone.
  pub readings-update_ne :
      (s p t q : String) (v : F) (h : History F)
      → ((s == t) && (p == q)) ≡ false
      → readings (update_history s p v h).0 t q ≡ readings h t q
  unfolding readings update_history
  readings-update_ne s p t q v h e = rw (lookup-insert, e)

  last_n-last_n : (n : ℕ) (xs : List F) → last_n n (last_n n xs) ≡ last_n n xs
  last_n-last_n n xs =
      ap (last_n n) (sym (append-nil (last_n n xs)))
      ∙ last_n-append n n xs [] (omega arith)
      ∙ ap (last_n n) (append-nil xs)

  readings-update_from :
      (s p : String) (vs : List F) (h : History F)
      → last_n history_max (readings h s p) ≡ readings h s p
      → readings (update_all s p vs h) s p ≡ last_n history_max (readings h s p ++ vs)
  unfolding update_all
  readings-update_from s p [] h e = rw append-nil (sym e)
  readings-update_from s p (v ∷ vs) h e =
      let h' = (update_history s p v h).0 in
      let stored : readings h' s p ≡ last_n history_max (readings h s p ++ v ∷ []) =
        readings-update_self s p v h in
      readings-update_from s p vs h' (
        ap (last_n history_max) stored
        ∙ last_n-last_n history_max (readings h s p ++ v ∷ [])
        ∙ sym stored)
      ∙ ap (λ l. last_n history_max (l ++ vs)) stored
      ∙ last_n-append history_max history_max (readings h s p ++ v ∷ []) vs (omega arith)
      ∙ ap (last_n history_max) (append_assoc (readings h s p) (v ∷ []) vs)

  -- After any values of one sensor and parameter, from an empty dictionary, exactly the last five
  -- are stored.
  pub readings-update_all :
      (s p : String) (vs : List F) → readings (update_all s p vs []) s p ≡ last_n history_max vs
  unfolding readings lookup
  readings-update_all s p vs = readings-update_from s p vs [] refl

  -- What is handed to the evaluator is at most four values, the most recent before the current one.
  update_history-returns :
      (s p : String) (v : F) (h : History F)
      → (update_history s p v h).1 ≡ last_n 4 (readings h s p)
  unfolding update_history
  update_history-returns s p v h = init-last_n 4 (readings h s p) v

module _ {F : Type 0} ⦃f : Float F⦄ where
  -- After any values `vs` and then `v` of one sensor and parameter, from an empty dictionary, the
  -- trend that is reported is that of the last five values received, `v` included.
  pub compute_trend-history :
      (s p : String) (vs : List F) (v : F)
      → compute_trend (update_history s p v (update_all s p vs [])).1 v
        ≡ trend_of (last_n 5 (vs ++ v ∷ []))
  unfolding compute_trend
  compute_trend-history s p vs v =
      let returned : (update_history s p v (update_all s p vs [])).1 ≡ last_n 4 (last_n 5 vs) =
        update_history-returns s p v (update_all s p vs [])
        ∙ ap (last_n 4) (readings-update_all s p vs) in
      ap (λ l. trend_of (last_n 5 (l ++ v ∷ []))) returned
      ∙ ap trend_of (
          last_n-append 5 4 (last_n 5 vs) (v ∷ []) (omega arith)
          ∙ last_n-append 5 5 vs (v ∷ []) (omega arith))
