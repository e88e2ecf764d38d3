-- ===== src/Bff/Token.antt =====
-- Steps 1 and 2 of `get_current_user` of services/dashboard-bff/src/dashboard_bff/auth.py, and the
-- endpoints `proxy_login` and `me` of api.py. The dashboard reads tokens with the public key of the
-- auth service, so `decode` of its libraries is the one of the auth service. The clock of the tokens
-- is not the one of the cache of scopes.
pub mod Login
use flood_monitoring_and_man.Common.{
  ℕ, String, List, Option, none, some, Bool, ◌==◌, string_eq, if◌then◌else◌,
}
use flood_monitoring_and_man.Auth.Security.{Claims, Libraries}
use flood_monitoring_and_man.Auth.Api.{Reply, ok, http_error}
use flood_monitoring_and_man.Bff.Scope.{
  Geography, ScopeCache, UserClaims, UserContext, get_current_user,
}

-- `claims.get("sub", "")` and the other three.
unfoldable pub user_claims : Claims → UserClaims
user_claims c = record {
  sub = elim c.sub [ none ↦ "" | some sub ↦ sub ];
  email = c.email;
  role = c.role;
  jurisdiction = c.jurisdiction;
}

-- `H` is what the Authorization header can be, `partition` splits it at its first blank, `none` being
-- no token behind it, and `lower` is Python's.
module _ {T H : Type 0} (l : Libraries T) (partition : H → String × Option T)
    (lower : String → String) where
  unfoldable pub bearer_token : H → Option T
  bearer_token header =
      let (scheme, token) = partition header in if lower scheme == "bearer" then token else none

  abbrev pub claims_of_token : ℕ → Option T → Option UserClaims
  claims_of_token wall none = none
  claims_of_token wall (some token) = elim (l.decode wall token) [
    | none ↦ none
    | some c ↦ some (user_claims c)
  ]

  -- `none` is one of the three 401 before the claims are read.
  unfoldable pub claims_of_header : ℕ → H → Option UserClaims
  unfolding bearer_token user_claims
  claims_of_header wall header = claims_of_token wall (bearer_token header)

  -- The whole of `get_current_user`.
  unfoldable pub authorize :
      (List String → List String)
      → ℕ
      → ℕ
      → H
      → ℕ
      → ℕ
      → Geography
      → ScopeCache
      → ScopeCache × Reply UserContext
  unfolding claims_of_header get_current_user
  authorize sorted ttl_s wall header now set_at g cache =
      get_current_user sorted ttl_s (claims_of_header wall header) now set_at g cache

-- The answer of the auth service is passed on; `none` is an exception of the HTTP client.
unfoldable pub proxy_login : {A : Type 0} → Option (Reply A) → Reply A
proxy_login none = http_error 500
proxy_login (some reply) = reply

-- The fields of the user, as they are.
unfoldable pub me : UserContext → Reply UserContext
me user = ok user
