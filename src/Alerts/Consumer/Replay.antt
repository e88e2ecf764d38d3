-- ===== src/Alerts/Consumer/Replay.antt =====
-- A replayed alert.
use flood_monitoring_and_man.Common.{
  suc, String, [], ◌∷◌, ◌++◌, some, Bool, true, ◌≡◌, arith, string_eq, eq_iff, Option-cases, inl,
  inr, ap, ◌∙◌,
}
use flood_monitoring_and_man.RuleEngine.Models.{Alert}
use flood_monitoring_and_man.Alerts.Table.{AlertRow, get_alert_by_id, new_row, insert_alert}
use flood_monitoring_and_man.Alerts.Table.Once.{get_alert_by_id-append}
use flood_monitoring_and_man.Alerts.Consumer.{
  Delivery, Service, valid, publish_to, publish, handle_raw, handle,
}

module _ {F : Type 0} where
  get_alert_by_id-new :
      (now : String) (a : Alert F)
      → get_alert_by_id a.alert_id (new_row now a ∷ []) ≡ some (new_row now a)
  unfolding get_alert_by_id
  get_alert_by_id-new now a = ground (arith, eq_iff a.alert_id a.alert_id)

  pub publish-table :
      (a : Alert F) (area_published high_published : Bool) (s : Service F)
      → (publish a area_published high_published s).table ≡ s.table
  unfolding publish publish_to
  publish-table a area_published high_published s = ground arith

  handle-stored :
      (d : Delivery F) (a : Alert F) (s : Service F) (r : AlertRow F)
      → d.raw ≡ valid a
      → get_alert_by_id a.alert_id s.table ≡ some r
      → handle d s ≡ record s { deduped = suc s.deduped }
  unfolding handle handle_raw insert_alert
  handle-stored d a s r given found = ground arith

  pub stored-handle :
      (d : Delivery F) (a : Alert F) (s : Service F)
      → d.raw ≡ valid a
      → d.area_exists ≡ true
      → (r : AlertRow F) × (get_alert_by_id a.alert_id (handle d s).table ≡ some r)
  unfolding handle handle_raw insert_alert
  stored-handle d a s given exists = elim (Option-cases (get_alert_by_id a.alert_id s.table)) [
    | inl fresh ↦ (
      new_row d.now a,
      ground (
        arith,
        fresh,
        publish-table a d.area_published d.high_published
            (record s { table = s.table ++ new_row d.now a ∷ []; persisted = suc s.persisted }),
        get_alert_by_id-append a.alert_id s.table (new_row d.now a ∷ []),
        get_alert_by_id-new d.now a,
      ),
    )
    | inr (r, found) ↦ (r, ground arith)
  ]

  -- An alert of a known area that has been handled, whether its publication failed or not, is not
  -- stored or published again by any later record with its id: such a record is counted as a
  -- duplicate, and nothing else changes.
  pub handle-handle :
      (d d' : Delivery F) (a a' : Alert F) (s : Service F)
      → d.raw ≡ valid a
      → d'.raw ≡ valid a'
      → a'.alert_id ≡ a.alert_id
      → d.area_exists ≡ true
      → handle d' (handle d s) ≡ record (handle d s) { deduped = suc (handle d s).deduped }
  handle-handle d d' a a' s given given' same exists =
      let (r, found) = stored-handle d a s given exists in
      handle-stored d' a' (handle d s) r given'
        (ap (λ i. get_alert_by_id i (handle d s).table) same ∙ found)
