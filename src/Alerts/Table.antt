-- ===== src/Alerts/Table.antt =====
-- services/alert-service/src/alert_service/db.py and the endpoints of api.py: the statements on
-- opdb.alert (infra/postgres/init.sql). Ids are UUIDs in one spelling, so they are equal as strings.
pub mod Once
pub mod Filter
use flood_monitoring_and_man.Common.{
  ℕ, String, List, [], ◌∷◌, ◌++◌, Option, none, some, Bool, true, false, not, ◌&&◌, ◌||◌, ◌==◌,
  string_eq, if◌then◌else◌, take, drop, keep_if, leb,
}
use flood_monitoring_and_man.Auth.Api.{Reply, ok, http_error}
use flood_monitoring_and_man.RuleEngine.Models.{Alert, Severity, low, medium, high}

pub record AlertRow (F : Type 0) : Type 0 where
  pub alert : Alert F
  pub ts_persisted : String
  pub acknowledged_at : Option String
  pub acknowledged_by : Option String
  pub ack_reason : Option String

abbrev pub Table : Type 0 → Type 0
Table F = List (AlertRow F)

abbrev pub is_none : {A : Type 0} → Option A → Bool
is_none none = true
is_none (some a) = false

abbrev pub severity_eq : Severity → Severity → Bool
severity_eq low low = true
severity_eq medium medium = true
severity_eq high high = true
severity_eq _ _ = false

abbrev pub in_areas : List String → String → Bool
in_areas [] area = false
in_areas (a ∷ areas) area = (a == area) || in_areas areas area

-- `[area_id] if area_id else None`
abbrev pub areas_of : Option String → Option (List String)
areas_of none = none
areas_of (some area) = if area == "" then none else some (area ∷ [])

module _ {F : Type 0} where
  unfoldable pub get_alert_by_id : String → Table F → Option (AlertRow F)
  get_alert_by_id id [] = none
  get_alert_by_id id (r ∷ t) = if r.alert.alert_id == id then some r else get_alert_by_id id t

  abbrev pub new_row : String → Alert F → AlertRow F
  new_row now a = record {
    alert = a;
    ts_persisted = now;
    acknowledged_at = none;
    acknowledged_by = none;
    ack_reason = none;
  }

  abbrev insert_unless :
      Bool → String → Alert F → Table F → Option (AlertRow F) → Option (Table F × Bool)
  insert_unless area_exists now a t (some r) = some (t, false)
  insert_unless area_exists now a t none =
      if area_exists then some (t ++ new_row now a ∷ [], true) else none

  -- `insert_alert`: ON CONFLICT (alert_id) DO NOTHING. `none` is the exception for an area that
  -- opdb.area does not have.
  unfoldable pub insert_alert : Bool → String → Alert F → Table F → Option (Table F × Bool)
  insert_alert area_exists now a t =
      insert_unless area_exists now a t (get_alert_by_id a.alert_id t)

  -- The WHERE clause of `get_alerts`; a list of areas that is empty is no condition.
  abbrev pub area_matches : Option (List String) → AlertRow F → Bool
  area_matches none r = true
  area_matches (some []) r = true
  area_matches (some (a ∷ areas)) r = in_areas (a ∷ areas) r.alert.area_id

  abbrev pub severity_matches : Option Severity → AlertRow F → Bool
  severity_matches none r = true
  severity_matches (some s) r = severity_eq r.alert.severity s

  abbrev pub acknowledged_matches : Option Bool → AlertRow F → Bool
  acknowledged_matches none r = true
  acknowledged_matches (some true) r = not (is_none r.acknowledged_at)
  acknowledged_matches (some false) r = is_none r.acknowledged_at

  abbrev pub matches : Option (List String) → Option Severity → Option Bool → AlertRow F → Bool
  matches areas severity acknowledged r =
      area_matches areas r && severity_matches severity r && acknowledged_matches acknowledged r

  -- `order_by` is what ORDER BY ts_emitted DESC makes of the rows.
  unfoldable pub get_alerts :
      (Table F → Table F)
      → Option (List String)
      → Option Severity
      → Option Bool
      → ℕ
      → ℕ
      → Table F
      → Table F
  get_alerts order_by areas severity acknowledged limit offset t =
      take limit (drop offset (order_by (keep_if (matches areas severity acknowledged) t)))

  -- The endpoint `list_alerts`; the framework answers 422 for a limit that is out of bounds.
  unfoldable pub list_alerts :
      (Table F → Table F)
      → Option String
      → Option Severity
      → Option Bool
      → ℕ
      → ℕ
      → Table F
      → Reply (Table F)
  unfolding get_alerts
  list_alerts order_by area severity acknowledged limit offset t =
      if not (leb 1 limit && leb limit 1000)
      then http_error 422
      else ok (get_alerts order_by (areas_of area) severity acknowledged limit offset t)

  -- UPDATE … WHERE alert_id = $1 AND acknowledged_at IS NULL
  unfoldable pub acknowledge_row : String → String → String → AlertRow F → AlertRow F
  acknowledge_row now user reason r =
      if is_none r.acknowledged_at
      then record r {
        acknowledged_at = some now;
        acknowledged_by = some user;
        ack_reason = some reason;
      }
      else r

  -- The table, and whether a row was updated; alert_id is the primary key, so the first row found is
  -- the only one.
  unfoldable pub acknowledge_alert : String → String → String → String → Table F → Table F × Bool
  unfolding acknowledge_row
  acknowledge_alert id now user reason [] = ([], false)
  acknowledge_alert id now user reason (r ∷ t) =
      let (rest, updated) = acknowledge_alert id now user reason t in
      if r.alert.alert_id == id
      then (acknowledge_row now user reason r ∷ t, is_none r.acknowledged_at)
      else (r ∷ rest, updated)
