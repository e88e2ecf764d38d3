-- ===== src/Alerts/Table/Once.antt =====
-- An alert is stored once and acknowledged once.
use flood_monitoring_and_man.Common.{
  String, [], ◌∷◌, ◌++◌, Option, none, some, Bool, true, false, ◌≡◌, refl, arith, ◌⊎◌, ◌==◌,
  string_eq, eq_iff, Option-cases, inl, inr,
}
use flood_monitoring_and_man.RuleEngine.Models.{Alert}
use flood_monitoring_and_man.Alerts.Table.{
  AlertRow, Table, is_none, get_alert_by_id, new_row, insert_alert, acknowledge_row,
  acknowledge_alert,
}

abbrev map_option : {A B : Type 0} → (A → B) → Option A → Option B
map_option g none = none
map_option g (some a) = some (g a)

module _ {F : Type 0} where
  pub get_alert_by_id-append :
      (id : String) (t u : Table F)
      → get_alert_by_id id (t ++ u)
        ≡ elim (get_alert_by_id id t) [ some r ↦ some r | none ↦ get_alert_by_id id u ]
  unfolding get_alert_by_id
  get_alert_by_id-append id [] u = refl
  get_alert_by_id-append id (r ∷ t) u = ground (arith, get_alert_by_id-append id t u)

  -- No two rows have the same alert id.
  abbrev pub HasUniqueIds : Table F → Type 0
  HasUniqueIds [] = Unit
  HasUniqueIds (r ∷ t) = (get_alert_by_id r.alert.alert_id t ≡ none) × HasUniqueIds t

  HasUniqueIds-append :
      (t : Table F) (r : AlertRow F)
      → get_alert_by_id r.alert.alert_id t ≡ none
      → HasUniqueIds t
      → HasUniqueIds (t ++ r ∷ [])
  unfolding get_alert_by_id
  HasUniqueIds-append [] r new h = (refl, tt)
  HasUniqueIds-append (q ∷ t) r new h = (
    ground (
      arith,
      new,
      h.0,
      eq_iff q.alert.alert_id r.alert.alert_id,
      eq_iff r.alert.alert_id q.alert.alert_id,
      get_alert_by_id-append q.alert.alert_id t (r ∷ []),
    ),
    HasUniqueIds-append t r (ground arith) h.1,
  )

  pub insert_alert-cases :
      (area_exists : Bool) (now : String) (a : Alert F) (t u : Table F) (new : Bool)
      → insert_alert area_exists now a t ≡ some (u, new)
      → ((u ≡ t) × (new ≡ false))
        ⊎ ((u ≡ t ++ new_row now a ∷ []) × (new ≡ true) × (get_alert_by_id a.alert_id t ≡ none))
  unfolding insert_alert
  insert_alert-cases area_exists now a t u new i =
      elim (Option-cases (get_alert_by_id a.alert_id t)) [
        | inl fresh ↦ inr (ground arith)
        | inr (r, found) ↦ inl (ground arith)
      ]

  pub insert_alert-HasUniqueIds :
      (area_exists : Bool) (now : String) (a : Alert F) (t u : Table F) (new : Bool)
      → HasUniqueIds t
      → insert_alert area_exists now a t ≡ some (u, new)
      → HasUniqueIds u
  insert_alert-HasUniqueIds area_exists now a t u new h i =
      elim (insert_alert-cases area_exists now a t u new i) [
        | inl (same, _) ↦ rw same h
        | inr (grown, _, fresh) ↦ rw grown (HasUniqueIds-append t (new_row now a) fresh h)
      ]

  acknowledge_row-id :
      (now user reason : String) (r : AlertRow F)
      → (acknowledge_row now user reason r).alert.alert_id ≡ r.alert.alert_id
  unfolding acknowledge_row
  acknowledge_row-id now user reason r = ground arith

  pub get_alert_by_id-acknowledge :
      (id now user reason : String) (t : Table F)
      → get_alert_by_id id (acknowledge_alert id now user reason t).0
        ≡ map_option (acknowledge_row now user reason) (get_alert_by_id id t)
  unfolding get_alert_by_id acknowledge_alert
  get_alert_by_id-acknowledge id now user reason [] = refl
  get_alert_by_id-acknowledge id now user reason (r ∷ t) = ground (
    arith,
    acknowledge_row-id now user reason r,
    get_alert_by_id-acknowledge id now user reason t,
  )

  get_alert_by_id-acknowledge_other :
      (id now user reason j : String) (t : Table F)
      → (j == id) ≡ false
      → get_alert_by_id j (acknowledge_alert id now user reason t).0 ≡ get_alert_by_id j t
  unfolding get_alert_by_id acknowledge_alert
  get_alert_by_id-acknowledge_other id now user reason j [] h = refl
  get_alert_by_id-acknowledge_other id now user reason j (r ∷ t) h = ground (
    arith,
    acknowledge_row-id now user reason r,
    eq_iff r.alert.alert_id id,
    eq_iff r.alert.alert_id j,
    eq_iff j id,
    get_alert_by_id-acknowledge_other id now user reason j t,
  )

  acknowledge_alert-updated :
      (id now user reason : String) (t : Table F)
      → (acknowledge_alert id now user reason t).1
        ≡ elim (get_alert_by_id id t) [ none ↦ false | some r ↦ is_none r.acknowledged_at ]
  unfolding get_alert_by_id acknowledge_alert
  acknowledge_alert-updated id now user reason [] = refl
  acknowledge_alert-updated id now user reason (r ∷ t) =
      ground (arith, acknowledge_alert-updated id now user reason t)

  acknowledge_alert-unchanged :
      (id now user reason : String) (t : Table F)
      → (acknowledge_alert id now user reason t).1 ≡ false
      → (acknowledge_alert id now user reason t).0 ≡ t
  unfolding acknowledge_alert
  acknowledge_alert-unchanged id now user reason [] h = refl
  acknowledge_alert-unchanged id now user reason (r ∷ t) h =
      ground (arith, acknowledge_alert-unchanged id now user reason t)

  -- An alert that is stored and not acknowledged is acknowledged by the first call, which sets the time,
  -- the user and the reason; any later call for it, by anyone, says that nothing was updated and changes
  -- nothing.
  pub acknowledge_alert-again :
      (id now user reason now' user' reason' : String) (t : Table F) (r : AlertRow F)
      → get_alert_by_id id t ≡ some r
      → r.acknowledged_at ≡ none
      → let t' = (acknowledge_alert id now user reason t).0 in
        ((acknowledge_alert id now user reason t).1 ≡ true)
        × (get_alert_by_id id t'
            ≡ some (record r {
              acknowledged_at = some now;
              acknowledged_by = some user;
              ack_reason = some reason;
            }))
        × ((acknowledge_alert id now' user' reason' t').1 ≡ false)
        × ((acknowledge_alert id now' user' reason' t').0 ≡ t')
  unfolding acknowledge_row
  acknowledge_alert-again id now user reason now' user' reason' t r found fresh =
      let t' = (acknowledge_alert id now user reason t).0 in
      let row = get_alert_by_id-acknowledge id now user reason t in
      let second : (acknowledge_alert id now' user' reason' t').1 ≡ false =
        ground (arith, row, acknowledge_alert-updated id now' user' reason' t') in
      (
        ground (arith, acknowledge_alert-updated id now user reason t),
        ground (arith, row),
        second,
        acknowledge_alert-unchanged id now' user' reason' t' second,
      )
