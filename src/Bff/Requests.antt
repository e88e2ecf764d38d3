-- ===== src/Bff/Requests.antt =====
-- Requests, one after another, over one cache of scopes.
use flood_monitoring_and_man.Common.{
  ℕ, ◌+◌, String, List, [], ◌∷◌, Option, none, some, Bool, true, false, not, ◌&&◌, ◌||◌, ◌==◌,
  string_eq, pair_eq, ltb, leb, if◌then◌else◌, ◌≡◌, refl, arith, Bool-cases, inl, inr, ap, sym, ◌∙◌,
  eq_iff,
}
use flood_monitoring_and_man.Common.Dict.{lookup, remove, lookup-insert, lookup-remove}
use flood_monitoring_and_man.Auth.Api.{ok, http_error, is_valid_role}
use flood_monitoring_and_man.Telemetry.Rows.{Row}
use flood_monitoring_and_man.Bff.Scope.{
  list_eq, beq_list_iff, elem, Geography, resolve_area_ids, ScopeKey, ScopeCache, UserClaims,
  cache_key, fresh_entry, get_cached_scope, set_cached_scope, serve_scope, scope_of,
  get_current_user,
}
use flood_monitoring_and_man.Bff.Authority.{in_scope, elem-resolve_area_ids, in_scope-same}
use flood_monitoring_and_man.Bff.Views.{with_user, get_telemetry, area_telemetry}

-- A request of any kind: what the token says, and the clock before and after the resolution.
pub record Visit : Type 0 where
  pub claims : Option UserClaims
  pub now : ℕ
  pub set_at : ℕ

module _ (sorted : List String → List String) (ttl_s : ℕ) (g : Geography) where
  abbrev pub cache_after : List Visit → ScopeCache → ScopeCache
  cache_after [] cache = cache
  cache_after (v ∷ vs) cache =
      cache_after vs (get_current_user sorted ttl_s v.claims v.now v.set_at g cache).0

module _ (sorted : List String → List String) (ttl_s : ℕ) (g : Geography)
    (members : (x : String) (xs : List String) → elem x (sorted xs) ≡ elem x xs) where
  -- Every entry has the areas that its key's role and jurisdiction mean.
  pub IsSound : ScopeCache → Type 0
  IsSound cache =
      (user role : String) (jurisdiction area_ids : List String) (expires_at : ℕ) (area : String)
      → lookup (user, (role, jurisdiction)) cache ≡ some (area_ids, expires_at)
      → elem area area_ids ≡ in_scope g role jurisdiction area

  key_scope :
      (c : UserClaims) (area : String)
      → in_scope g c.role (sorted c.jurisdiction) area ≡ in_scope g c.role c.jurisdiction area
  key_scope c area =
      in_scope-same (sorted c.jurisdiction) c.jurisdiction (λ x. members x c.jurisdiction) g c.role
        area

  remove-IsSound :
      (key : ScopeKey) (cache : ScopeCache) → IsSound cache → IsSound (remove key cache)
  unfolding IsSound
  remove-IsSound key cache h user role jurisdiction area_ids expires_at area found = ground (
    arith,
    lookup-remove key (user, (role, jurisdiction)) cache,
    h user role jurisdiction area_ids expires_at area,
  )

  set_cached_scope-IsSound :
      (c : UserClaims) (now : ℕ) (cache : ScopeCache)
      → IsSound cache
      → IsSound
          (set_cached_scope sorted ttl_s c now (resolve_area_ids c.role c.jurisdiction g) cache)
  unfolding set_cached_scope cache_key IsSound
  set_cached_scope-IsSound c now cache h user role jurisdiction area_ids expires_at area found =
      ground (
        arith,
        lookup-insert (cache_key sorted ttl_s c) (user, (role, jurisdiction))
            (resolve_area_ids c.role c.jurisdiction g, now + ttl_s) cache,
        eq_iff c.role role,
        beq_list_iff (sorted c.jurisdiction) jurisdiction,
        elem-resolve_area_ids c.role c.jurisdiction g area,
        key_scope c area,
        h user role jurisdiction area_ids expires_at area,
      )

  IsRight : UserClaims → ScopeCache × List String → Type 0
  IsRight c (cache, area_ids) =
      IsSound cache × ((area : String) → elem area area_ids ≡ in_scope g c.role c.jurisdiction area)

  entry-IsRight :
      (c : UserClaims) (now set_at : ℕ) (cache : ScopeCache) (entry : Option (List String × ℕ))
      → lookup (cache_key sorted ttl_s c) cache ≡ entry
      → IsSound cache
      → IsRight c (
          serve_scope sorted ttl_s c set_at g
            (fresh_entry sorted ttl_s (cache_key sorted ttl_s c) now cache entry))
  unfolding cache_key IsSound IsRight
  entry-IsRight c now set_at cache none miss h = (
    set_cached_scope-IsSound c set_at cache h,
    λ area. elem-resolve_area_ids c.role c.jurisdiction g area,
  )
  entry-IsRight c now set_at cache (some (area_ids, expires_at)) hit h =
      elim (Bool-cases (ltb expires_at now)) [
        | inl old ↦ rw old (
          set_cached_scope-IsSound c set_at _ (remove-IsSound _ cache h),
          λ area. elem-resolve_area_ids c.role c.jurisdiction g area,
        )
        | inr young ↦ rw young (
          h,
          λ area.
              h c.sub c.role (sorted c.jurisdiction) area_ids expires_at area hit
              ∙ key_scope c area,
        )
      ]

  scope_of-IsRight :
      (c : UserClaims) (now set_at : ℕ) (cache : ScopeCache)
      → IsSound cache
      → IsRight c (scope_of sorted ttl_s c now set_at g cache)
  unfolding scope_of get_cached_scope
  scope_of-IsRight c now set_at cache h = entry-IsRight c now set_at cache _ refl h

  get_current_user-IsSound :
      (claims : Option UserClaims) (now set_at : ℕ) (cache : ScopeCache)
      → IsSound cache
      → IsSound (get_current_user sorted ttl_s claims now set_at g cache).0
  unfolding get_current_user IsRight
  get_current_user-IsSound none now set_at cache h = h
  get_current_user-IsSound (some c) now set_at cache h =
      elim (Bool-cases ((c.sub == "") || (c.role == ""))) [
        | inl absent ↦ rw absent h
        | inr present ↦ elim (Bool-cases (is_valid_role c.role)) [
          | inl valid ↦ rw (present, valid) (scope_of-IsRight c now set_at cache h).0
          | inr invalid ↦ rw (present, invalid) h
        ]
      ]

  cache_after-IsSound :
      (vs : List Visit) (cache : ScopeCache)
      → IsSound cache
      → IsSound (cache_after sorted ttl_s g vs cache)
  cache_after-IsSound [] cache h = h
  cache_after-IsSound (v ∷ vs) cache h =
      cache_after-IsSound vs _ (get_current_user-IsSound v.claims v.now v.set_at cache h)

  empty-IsSound : IsSound []
  unfolding IsSound lookup
  empty-IsSound user role jurisdiction area_ids expires_at area found = ground arith

  valid_user :
      (c : UserClaims)
      → (c.sub == "") ≡ false
      → is_valid_role c.role ≡ true
      → ((c.sub == "") || (c.role == "")) ≡ false
  unfolding is_valid_role
  valid_user c named valid = elim (Bool-cases (c.role == "")) [
    | inl empty ↦
        let role : c.role ≡ "" = (eq_iff c.role "").0 empty in
        let contrary : true ≡ false = sym valid ∙ ap is_valid_role role in absurd (ground arith)
    | inr present ↦ ground (arith, named, present)
  ]

  module _ {F D : Type 0} (le : D → D → Bool) (str_of : F → String)
      (order_by : List (Row F D) → List (Row F D)) where
    -- Whatever requests filled the cache of scopes, while the areas and cities stay as they are and
    -- `sorted` keeps the members of a list: a request for the telemetry of an area, with a token that
    -- names a user and one of the three roles, is refused with 422 if the limit is not from 1 to
    -- 5000, gets the telemetry, its numbers as texts, if the area is in the scope that the role and
    -- the jurisdiction mean, and is refused with 403 otherwise.
    pub area_telemetry-in_scope :
        (vs : List Visit) (c : UserClaims) (now set_at : ℕ) (area : String) (start end : Option D)
        (limit : ℕ) (rows : List (Row F D))
        → (c.sub == "") ≡ false
        → is_valid_role c.role ≡ true
        → with_user
            (get_current_user sorted ttl_s
              (some c)
              now
              set_at
              g
              (cache_after sorted ttl_s g vs [])).1
            (area_telemetry le str_of order_by area start end limit rows)
          ≡ (if not (leb 1 limit && leb limit 5000)
              then http_error 422
              else if in_scope g c.role c.jurisdiction area
              then ok (get_telemetry le str_of order_by (area ∷ []) start end limit rows)
              else http_error 403)
    unfolding get_current_user area_telemetry IsRight
    area_telemetry-in_scope vs c now set_at area start end limit rows named valid =
        let cache = cache_after sorted ttl_s g vs [] in
        let right =
          (scope_of-IsRight c now set_at cache (cache_after-IsSound vs [] empty-IsSound)).1 in
        rw (valid_user c named valid, valid, right area) refl
