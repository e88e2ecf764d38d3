-- ===== src/Bff/Sockets.antt =====
-- The WebSocket of the alerts: `ws_alerts` of services/dashboard-bff/src/dashboard_bff/api.py up to its
-- subscription, and `get_current_user_ws` of auth.py.
use flood_monitoring_and_man.Common.{
  ℕ, String, List, Option, none, some, ◌||◌, ◌==◌, string_eq, if◌then◌else◌, ◌≡◌, refl, inl, inr,
  Bool-cases,
}
use flood_monitoring_and_man.Auth.Api.{Reply, ok, http_error, is_valid_role}
use flood_monitoring_and_man.Alerts.Consumer.{Channel}
use flood_monitoring_and_man.Bff.Scope.{
  Geography, ScopeCache, UserClaims, UserContext, scope_of, get_current_user,
}
use flood_monitoring_and_man.Bff.Views.{ws_channels}

-- The socket is closed with a code, or subscribed to channels.
pub data Socket : Type 0 where
  closed : ℕ → Socket
  subscribed : List Channel → Socket

module _ (sorted : List String → List String) (ttl_s : ℕ) where
  -- `none` is a ValueError; the claims are `none` where the token is refused.
  unfoldable pub get_current_user_ws :
      Option UserClaims → ℕ → ℕ → Geography → ScopeCache → ScopeCache × Option UserContext
  unfolding scope_of is_valid_role
  get_current_user_ws none now set_at g cache = (cache, none)
  get_current_user_ws (some c) now set_at g cache =
      let (cache', area_ids) = scope_of sorted ttl_s c now set_at g cache in
      if (c.sub == "") || (c.role == "")
      then (cache, none)
      else if is_valid_role c.role
      then (
        cache',
        some (record {
          user_id = c.sub;
          email = c.email;
          role = c.role;
          jurisdiction = c.jurisdiction;
          area_ids = area_ids;
        }),
      )
      else (cache, none)

  abbrev pub socket_of : Option UserContext → Socket
  socket_of none = closed 4001
  socket_of (some user) = elim (ws_channels user) [
    | none ↦ closed 4003
    | some channels ↦ subscribed channels
  ]

  unfoldable pub ws_alerts :
      Option UserClaims → ℕ → ℕ → Geography → ScopeCache → ScopeCache × Socket
  unfolding get_current_user_ws
  ws_alerts claims now set_at g cache =
      let (cache', user) = get_current_user_ws claims now set_at g cache in (cache', socket_of user)

  abbrev pub accepted : Reply UserContext → Option UserContext
  accepted (ok user) = some user
  accepted (http_error n) = none

  -- For the same claims, instants, areas and cache, a WebSocket gets the user that a request gets, and
  -- leaves the same cache: it is closed with 4001 exactly where a request is refused, and otherwise
  -- has the channels of that user, or is closed with 4003.
  pub ws_alerts-same_user :
      (claims : Option UserClaims) (now set_at : ℕ) (g : Geography) (cache : ScopeCache)
      → ws_alerts claims now set_at g cache ≡ (
        (get_current_user sorted ttl_s claims now set_at g cache).0,
        socket_of (accepted (get_current_user sorted ttl_s claims now set_at g cache).1),
      )
  unfolding ws_alerts get_current_user get_current_user_ws
  ws_alerts-same_user none now set_at g cache = refl
  ws_alerts-same_user (some c) now set_at g cache =
      elim (Bool-cases ((c.sub == "") || (c.role == ""))) [
        | inl absent ↦ rw absent refl
        | inr present ↦ elim (Bool-cases (is_valid_role c.role)) [
          | inl valid ↦ rw (present, valid) refl
          | inr invalid ↦ rw (present, invalid) refl
        ]
      ]
