-- ===== src/Geo/References.antt =====
-- What a statement of services/geo-service/src/geo_service/api.py does to the rows' keys and references:
-- an insertion, the UPDATE of a sensor, and the upsert of a threshold.
use flood_monitoring_and_man.Common.{
  String, List, [], ◌∷◌, ◌++◌, true, false, ◌≡◌, refl, arith, inl, inr, ◌==◌, string_eq, any,
  any-append_left, map, All, All-append, All-weaken, Distinct, Bool-cases, eq_iff,
}
use flood_monitoring_and_man.RuleEngine.Models.{AreaThreshold}
use flood_monitoring_and_man.Geo.Tables.{Area, Sensor, same_sensor, same_threshold}
use flood_monitoring_and_man.Geo.Api.{decommission_row, upsert}
use Prim.Native.Nat.{ℕ}

-- Every child's reference is the id of a parent.
module _ {P C : Type 0} (id : P → String) (key : C → String) where
  abbrev pub Refers : List P → List C → Type 0
  Refers ps cs = All (λ c. any (λ p. id p == key c) ps ≡ true) cs

  pub Refers-parent :
      (ps : List P) (new : P) (cs : List C) → Refers ps cs → Refers (ps ++ new ∷ []) cs
  Refers-parent ps new cs h = All-weaken _ _ cs (λ c e. any-append_left _ ps _ e) h

  pub Refers-child :
      (ps : List P) (cs : List C) (new : C)
      → any (λ p. id p == key new) ps ≡ true
      → Refers ps cs
      → Refers ps (cs ++ new ∷ [])
  Refers-child ps cs new found h = All-append _ cs (new ∷ []) h (found, tt)

module _ (id : String) (now : ℕ) where
  pub decommission_row-key : (s : Sensor) → (decommission_row id now s).sensor_id ≡ s.sensor_id
  unfolding decommission_row
  decommission_row-key s = ground arith

  pub decommission_row-area : (s : Sensor) → (decommission_row id now s).area_id ≡ s.area_id
  unfolding decommission_row
  decommission_row-area s = ground arith

  any-decommissioned :
      (x : Sensor) (ss : List Sensor)
      → any (same_sensor (decommission_row id now x)) (map (decommission_row id now) ss)
        ≡ any (same_sensor x) ss
  any-decommissioned x [] = refl
  any-decommissioned x (s ∷ ss) =
      rw (any-decommissioned x ss, decommission_row-key x, decommission_row-key s) refl

  pub Distinct-decommissioned :
      (ss : List Sensor)
      → Distinct same_sensor ss
      → Distinct same_sensor (map (decommission_row id now) ss)
  Distinct-decommissioned [] h = tt
  Distinct-decommissioned (s ∷ ss) h =
      (rw (any-decommissioned s ss) h.0, Distinct-decommissioned ss h.1)

  pub Refers-decommissioned :
      (areas : List Area) (ss : List Sensor)
      → Refers (λ a. a.area_id) (λ s. s.area_id) areas ss
      → Refers (λ a. a.area_id) (λ s. s.area_id) areas (map (decommission_row id now) ss)
  Refers-decommissioned areas [] h = tt
  Refers-decommissioned areas (s ∷ ss) h =
      (rw (decommission_row-area s) h.0, Refers-decommissioned areas ss h.1)

module _ {F : Type 0} where
  same_threshold-left :
      (t new : AreaThreshold F) (us : List (AreaThreshold F))
      → same_threshold t new ≡ true
      → any (same_threshold new) us ≡ any (same_threshold t) us
  same_threshold-left t new [] same = refl
  same_threshold-left t new (u ∷ us) same = ground (
    arith,
    eq_iff t.area_id new.area_id,
    eq_iff t.parameter new.parameter,
    same_threshold-left t new us same,
  )

  same_threshold-right :
      (t u new : AreaThreshold F)
      → same_threshold u new ≡ true
      → same_threshold t u ≡ same_threshold t new
  same_threshold-right t u new same =
      ground (arith, eq_iff u.area_id new.area_id, eq_iff u.parameter new.parameter)

  any-upsert :
      (t new : AreaThreshold F) (ts : List (AreaThreshold F))
      → same_threshold t new ≡ false
      → any (same_threshold t) (upsert new ts) ≡ any (same_threshold t) ts
  unfolding upsert
  any-upsert t new [] differs = ground (arith, differs)
  any-upsert t new (u ∷ ts) differs = elim (Bool-cases (same_threshold u new)) [
    | inl same ↦ rw (same, same_threshold-right t u new same) refl
    | inr other ↦ rw (other, any-upsert t new ts differs) refl
  ]

  pub Distinct-upsert :
      (new : AreaThreshold F) (ts : List (AreaThreshold F))
      → Distinct same_threshold ts
      → Distinct same_threshold (upsert new ts)
  unfolding upsert
  Distinct-upsert new [] h = (refl, tt)
  Distinct-upsert new (t ∷ ts) h = elim (Bool-cases (same_threshold t new)) [
    | inl same ↦ rw (same, same_threshold-left t new ts same) (h.0, h.1)
    | inr differs ↦ rw differs (rw (any-upsert t new ts differs) h.0, Distinct-upsert new ts h.1)
  ]

  pub Refers-upsert :
      (areas : List Area) (new : AreaThreshold F) (ts : List (AreaThreshold F))
      → any (λ a. a.area_id == new.area_id) areas ≡ true
      → Refers (λ a. a.area_id) (λ t. t.area_id) areas ts
      → Refers (λ a. a.area_id) (λ t. t.area_id) areas (upsert new ts)
  unfolding upsert
  Refers-upsert areas new [] found h = (found, tt)
  Refers-upsert areas new (t ∷ ts) found h = elim (Bool-cases (same_threshold t new)) [
    | inl same ↦ rw same (found, h.1)
    | inr differs ↦ rw differs (h.0, Refers-upsert areas new ts found h.1)
  ]
