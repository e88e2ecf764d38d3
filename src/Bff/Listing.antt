-- ===== src/Bff/Listing.antt =====
-- What `list_alerts` shows a user, and what `ws_alerts` subscribes to.
use flood_monitoring_and_man.Common.{
  List, String, ◌≡◌, [], ◌∷◌, ◌++◌, some, true, arith, map, ◌==◌, string_eq, eq_iff, if◌then◌else◌,
  Bool-cases, inl, inr, All-append, none, subst, ℕ, ◌≤◌, Option, Bool, All, length,
}
use flood_monitoring_and_man.RuleEngine.Models.{Severity}
use flood_monitoring_and_man.Alerts.Table.{AlertRow, Table}
use flood_monitoring_and_man.Alerts.Table.Filter.{
  Holds, All-keep_if, All-drop, All-take, length-take,
}
use flood_monitoring_and_man.Alerts.Consumer.{Channel, area_channel, high_severity}
use flood_monitoring_and_man.Bff.Scope.{elem, UserContext}
use flood_monitoring_and_man.Bff.Views.{visible, select_alerts, ws_channels}

module _ {F : Type 0} where
  -- If the sort brings in no row that was not there, every alert that is selected for a user is of one of the
  -- user's areas, of the severity and in the state of acknowledgement asked for, and there are at most
  -- `limit` of them.
  pub select_alerts-visible :
      (order_by : Table F → Table F) (severity : Option Severity) (acknowledged : Option Bool)
      (limit offset : ℕ) (t : Table F) (user : UserContext)
      → ((p : AlertRow F → Bool) (u : Table F) → All (Holds p) u → All (Holds p) (order_by u))
      → All
          (Holds (visible user.area_ids severity acknowledged))
          (select_alerts order_by user.area_ids severity acknowledged limit offset t)
        × (length (select_alerts order_by user.area_ids severity acknowledged limit offset t)
            ≤ limit)
  unfolding select_alerts
  select_alerts-visible order_by severity acknowledged limit offset t user sorts =
      let p = visible user.area_ids severity acknowledged in
      (All-take p limit _ (All-drop p offset _ (sorts p _ (All-keep_if p t))), length-take limit _)

-- An area's channel is for those who have the area, the global one for regional managers.
abbrev pub is_allowed : UserContext → Channel → Bool
is_allowed user (area_channel a) = elem a user.area_ids
is_allowed user high_severity = user.role == "regional_manager"

area_channels-allowed :
    (user : UserContext) (xs : List String)
    → ((x : String) → elem x xs ≡ true → elem x user.area_ids ≡ true)
    → All (Holds (is_allowed user)) (map area_channel xs)
area_channels-allowed user [] within = tt
area_channels-allowed user (x ∷ xs) within = (
  within x (ground (arith, eq_iff x x)),
  area_channels-allowed user xs (λ y h. within y (ground (arith, h))),
)

-- The channels before the test for an empty list.
abbrev pub channels_of : UserContext → List Channel
channels_of user =
    let areas = map area_channel user.area_ids in
    if user.role == "regional_manager" then areas ++ high_severity ∷ [] else areas

channels_of-allowed : (user : UserContext) → All (Holds (is_allowed user)) (channels_of user)
channels_of-allowed user =
    let areas = area_channels-allowed user user.area_ids (λ x h. h) in
    elim (Bool-cases (user.role == "regional_manager")) [
      | inl regional ↦ rw regional (
          All-append (Holds (is_allowed user)) (map area_channel user.area_ids) (high_severity ∷ [])
            areas (regional, tt))
      | inr other ↦ rw other areas
    ]

pub nonempty-some :
    (cs channels : List Channel)
    → elim cs [ [] ↦ none | c ∷ rest ↦ some (c ∷ rest) ] ≡ some channels
    → cs ≡ channels
nonempty-some cs channels h = ground arith

-- A connection is subscribed to channels of the user's areas only, and to the channel of all alerts of
-- high severity only for a regional manager.
pub ws_channels-allowed :
    (user : UserContext) (channels : List Channel)
    → ws_channels user ≡ some channels
    → All (Holds (is_allowed user)) channels
unfolding ws_channels
ws_channels-allowed user channels h =
    let same : channels_of user ≡ channels = nonempty-some (channels_of user) channels h in
    subst (All (Holds (is_allowed user))) same (channels_of-allowed user)
