-- ===== src/Bff/Feed.antt =====
-- What a WebSocket of the alerts receives: the loop of `ws_alerts` of services/dashboard-bff/src/
-- dashboard_bff/api.py over what services/alert-service publishes. A client that stays subscribed to a
-- set of channels gets each message of each of them once.
use flood_monitoring_and_man.Common.{
  ℕ, ◌+◌, String, List, [], ◌∷◌, ◌++◌, Option, none, some, Bool, true, false, ◌&&◌, ◌||◌, ◌==◌,
  string_eq, eq_iff, if◌then◌else◌, ◌≡◌, refl, arith, map, count_if, All, subst,
}
use flood_monitoring_and_man.RuleEngine.Models.{Alert, high}
use flood_monitoring_and_man.Alerts.Table.{AlertRow, Table, severity_eq, get_alert_by_id}
use flood_monitoring_and_man.Alerts.Table.Once.{HasUniqueIds}
use flood_monitoring_and_man.Alerts.Consumer.{
  Channel, area_channel, high_severity, Delivery, new_service, consume,
}
use flood_monitoring_and_man.Alerts.Consumer.Channels.{
  announcement, announcements, IsPublished, consume-IsAnnounced_from_start,
}
use flood_monitoring_and_man.Bff.Scope.{elem, UserContext}
use flood_monitoring_and_man.Bff.Views.{ws_channels}
use flood_monitoring_and_man.Bff.Listing.{channels_of, nonempty-some}

abbrev pub beq_channel : Channel → Channel → Bool
beq_channel (area_channel a) (area_channel b) = a == b
beq_channel high_severity high_severity = true
beq_channel (area_channel a) high_severity = false
beq_channel high_severity (area_channel b) = false

abbrev pub is_subscribed : Channel → List Channel → Bool
is_subscribed c [] = false
is_subscribed c (d ∷ channels) = beq_channel d c || is_subscribed c channels

module _ {F : Type 0} where
  -- `await websocket.send_text(message["data"])`, message by message.
  unfoldable pub received : List Channel → List (Channel × Alert F) → List (Alert F)
  received channels [] = []
  received channels ((c, a) ∷ messages) =
      let rest = received channels messages in if is_subscribed c channels then a ∷ rest else rest

  -- How often an alert comes: once for its area, and once more as one of high severity.
  abbrev pub copies : UserContext → Alert F → ℕ
  copies user a =
      (if elem a.area_id user.area_ids then 1 else 0)
      + (if severity_eq a.severity high && (user.role == "regional_manager") then 1 else 0)

  abbrev pub has_id : String → Alert F → Bool
  has_id id a = a.alert_id == id

is_subscribed-areas :
    (a : String) (xs : List String)
    → is_subscribed (area_channel a) (map area_channel xs) ≡ elem a xs
is_subscribed-areas a [] = refl
is_subscribed-areas a (x ∷ xs) = ground (arith, is_subscribed-areas a xs)

is_subscribed-high : (xs : List String) → is_subscribed high_severity (map area_channel xs) ≡ false
is_subscribed-high [] = refl
is_subscribed-high (x ∷ xs) = is_subscribed-high xs

is_subscribed-append :
    (c : Channel) (xs ys : List Channel)
    → is_subscribed c (xs ++ ys) ≡ is_subscribed c xs || is_subscribed c ys
is_subscribed-append c [] ys = refl
is_subscribed-append c (x ∷ xs) ys = ground (arith, is_subscribed-append c xs ys)

is_subscribed-channels_of :
    (user : UserContext) (a : String)
    → (is_subscribed (area_channel a) (channels_of user) ≡ elem a user.area_ids)
      × (is_subscribed high_severity (channels_of user) ≡ (user.role == "regional_manager"))
is_subscribed-channels_of user a = ground (
  arith,
  is_subscribed-areas a user.area_ids,
  is_subscribed-high user.area_ids,
  is_subscribed-append (area_channel a) (map area_channel user.area_ids) (high_severity ∷ []),
  is_subscribed-append high_severity (map area_channel user.area_ids) (high_severity ∷ []),
)

module _ {F : Type 0} where
  received-append :
      (id : String) (channels : List Channel) (xs ys : List (Channel × Alert F))
      → count_if (has_id id) (received channels (xs ++ ys))
        ≡ count_if (has_id id) (received channels xs) + count_if (has_id id) (received channels ys)
  unfolding received
  received-append id channels [] ys = omega arith
  received-append id channels ((c, a) ∷ xs) ys = ground (arith, received-append id channels xs ys)

  received-pair :
      (id : String) (channels : List Channel) (a : Alert F) (in_scope urgent regional : Bool)
      → is_subscribed (area_channel a.area_id) channels ≡ in_scope
      → is_subscribed high_severity channels ≡ regional
      → count_if (has_id id) (
          received channels
            ((area_channel a.area_id, a) ∷ (if urgent then (high_severity, a) ∷ [] else [])))
        ≡ (if has_id id a
            then (if in_scope then 1 else 0) + (if urgent && regional then 1 else 0)
            else 0)
  unfolding received
  received-pair id channels a in_scope true regional area global = ground (arith, area, global)
  received-pair id channels a in_scope false regional area global = ground (arith, area, global)

  received-announcement :
      (id : String) (user : UserContext) (a : Alert F)
      → count_if (has_id id) (received (channels_of user) (announcement a))
        ≡ (if has_id id a then copies user a else 0)
  received-announcement id user a =
      let facts = is_subscribed-channels_of user a.area_id in
      received-pair id (channels_of user) a (elem a.area_id user.area_ids)
        (severity_eq a.severity high) (user.role == "regional_manager") facts.0 facts.1

  abbrev pub copies_of : UserContext → Option (AlertRow F) → ℕ
  copies_of user none = 0
  copies_of user (some r) = copies user r.alert

  received-announcements :
      (id : String) (user : UserContext) (t : Table F)
      → HasUniqueIds t
      → count_if (has_id id) (received (channels_of user) (announcements t))
        ≡ copies_of user (get_alert_by_id id t)
  unfolding received get_alert_by_id
  received-announcements id user [] unique = refl
  received-announcements id user (r ∷ t) unique = ground (
    arith,
    received-append id (channels_of user) (announcement r.alert) (announcements t),
    received-announcement id user r.alert,
    received-announcements id user t unique.1,
    eq_iff r.alert.alert_id id,
    unique.0,
  )

  -- From an empty table on, whatever records arrive, replayed or not, while Redis takes every
  -- publication: a user who is subscribed all the time receives a stored alert once if it is in one of
  -- the user's areas, and once more if its severity is high and the user is a regional manager, whichever
  -- area it is in; an alert that is not stored does not come.
  pub received-consume :
      (ds : List (Delivery F)) (user : UserContext) (channels : List Channel) (id : String)
      → All IsPublished ds
      → ws_channels user ≡ some channels
      → count_if (has_id id) (received channels (consume ds new_service).published)
        ≡ copies_of user (get_alert_by_id id (consume ds new_service).table)
  unfolding ws_channels
  received-consume ds user channels id answers h =
      let same : channels_of user ≡ channels = nonempty-some (channels_of user) channels h in
      let service = consume-IsAnnounced_from_start ds answers in
      subst
        (λ cs.
          count_if (has_id id) (received cs (consume ds new_service).published)
          ≡ copies_of user (get_alert_by_id id (consume ds new_service).table))
        same
        (rw service.announced
          (received-announcements id user (consume ds new_service).table service.unique))
