-- ===== src/Auth/Api.antt =====
-- The endpoints of services/auth-service/src/auth_service/api.py. The clock, new UUIDs and salts are
-- arguments.
use flood_monitoring_and_man.Common.{
  ℕ, String, List, [], ◌∷◌, ◌++◌, Option, none, some, Bool, true, false, ◌||◌, ◌==◌, string_eq,
  if◌then◌else◌,
}
use flood_monitoring_and_man.Auth.Tables.{
  User, RefreshToken, Database, fetch_user_by_email, fetch_user_by_id, fetch_refresh_token,
  store_refresh_token, revoke_refresh_token,
}
use flood_monitoring_and_man.Auth.Security.{
  Claims, Libraries, UserInfo, row_to_user_info, build_claims,
}

-- A response, or an HTTPException with its status.
pub data Reply (A : Type 0) : Type 0 where
  ok : A → Reply A
  http_error : ℕ → Reply A

pub record TokenResponse (T : Type 0) : Type 0 where
  pub access_token : T
  pub refresh_token : T

pub record CreateUser : Type 0 where
  pub email : String
  pub password : String
  pub role : String
  pub jurisdiction : List String

-- `role_must_be_valid`
unfoldable pub is_valid_role : String → Bool
is_valid_role r = (r == "area_manager") || (r == "city_manager") || (r == "regional_manager")

-- What a request brings along: the time, new UUIDs for a row and for an access token, and a salt.
pub record Fresh : Type 0 where
  pub now : ℕ
  pub uuid : String
  pub access_jti : String
  pub salt : String

abbrev pub is_live : Option RefreshToken → Bool
is_live none = false
is_live (some t) = elim t.revoked_at [ none ↦ true | some at ↦ false ]

pub data Request (T : Type 0) : Type 0 where
  log_in : String → String → Fresh → Request T
  log_out : T → Fresh → Request T
  add_user : CreateUser → Fresh → Request T

module _ {T : Type 0} (l : Libraries T) where
  -- The jti of a token's claims as a UUID: `none` is one of the three 401 before the table is asked.
  unfoldable pub jti_of : ℕ → T → Option (Claims × String)
  jti_of now token = elim (l.decode now token) [
    | none ↦ none
    | some claims ↦ elim claims.jti [
      | none ↦ none
      | some text ↦ elim (l.parse_uuid text) [ none ↦ none | some jti ↦ some (claims, jti) ]
    ]
  ]

  -- `claims.get("sub")`, `uuid.UUID` of it, and the row: `none` is a 401.
  unfoldable pub user_of : Claims → Database → Option User
  user_of claims db = elim claims.sub [
    | none ↦ none
    | some sub ↦ elim (l.parse_uuid sub) [ none ↦ none | some id ↦ fetch_user_by_id id db.users ]
  ]

  abbrev pub revoke_claimed : Fresh → Database → Option (Claims × String) → Database × Reply Unit
  revoke_claimed f db none = (db, http_error 401)
  revoke_claimed f db (some (claims, jti)) =
      (record db { refresh_tokens = revoke_refresh_token jti f.now db.refresh_tokens }, ok tt)

  unfoldable pub logout : T → Fresh → Database → Database × Reply Unit
  unfolding jti_of revoke_refresh_token
  logout token f db = revoke_claimed f db (jti_of f.now token)

  unfoldable pub me : T → Fresh → Database → Reply UserInfo
  unfolding user_of row_to_user_info
  me token f db = elim (l.decode f.now token) [
    | none ↦ http_error 401
    | some claims ↦ elim (user_of claims db) [
      | none ↦ http_error 401
      | some row ↦ ok (row_to_user_info row)
    ]
  ]

  abbrev pub user_row : CreateUser → Fresh → User
  user_row body f = record {
    user_id = f.uuid;
    email = body.email;
    password_hash = l.hash f.salt body.password;
    role = body.role;
    jurisdiction = body.jurisdiction;
  }

  abbrev pub insert_user : User → Database → Option User → Database × Reply UserInfo
  insert_user row db (some taken) = (db, http_error 409)
  insert_user row db none = (record db { users = db.users ++ row ∷ [] }, ok (row_to_user_info row))

  -- A role that is not valid is a 422 of the framework; an email that is taken violates UNIQUE.
  unfoldable pub create_user : CreateUser → Fresh → Database → Database × Reply UserInfo
  unfolding is_valid_role row_to_user_info
  create_user body f db =
      let created = insert_user (user_row body f) db (fetch_user_by_email body.email db.users) in
      if is_valid_role body.role then created else (db, http_error 422)

module _ {T : Type 0} (l : Libraries T) (access_ttl_s refresh_ttl_s : ℕ) where
  unfoldable pub create_access_token : UserInfo → Fresh → T
  unfolding build_claims
  create_access_token user f = l.encode (build_claims user f.access_jti access_ttl_s f.now)

  unfoldable pub create_refresh_token : UserInfo → String → ℕ → T
  unfolding build_claims
  create_refresh_token user jti now = l.encode (build_claims user jti refresh_ttl_s now)

  abbrev pub tokens_of : User → Fresh → TokenResponse T
  tokens_of row f = record {
    access_token = create_access_token (row_to_user_info row) f;
    refresh_token = create_refresh_token (row_to_user_info row) f.uuid f.now;
  }

  abbrev pub login_row :
      String → Fresh → Database → Option User → Database × Reply (TokenResponse T)
  login_row password f db none = (db, http_error 401)
  login_row password f db (some row) =
      if l.verify password row.password_hash
      then (store_refresh_token f.uuid row.user_id refresh_ttl_s f.now db, ok (tokens_of row f))
      else (db, http_error 401)

  unfoldable pub login : String → String → Fresh → Database → Database × Reply (TokenResponse T)
  unfolding store_refresh_token create_access_token create_refresh_token row_to_user_info
  login email password f db = login_row password f db (fetch_user_by_email email db.users)

  unfoldable pub refresh : T → Fresh → Database → Reply (TokenResponse T)
  unfolding jti_of user_of create_access_token row_to_user_info
  refresh token f db = elim (jti_of l f.now token) [
    | none ↦ http_error 401
    | some (claims, jti) ↦
        if is_live (fetch_refresh_token jti db.refresh_tokens)
        then elim (user_of l claims db) [
          | none ↦ http_error 401
          | some row ↦ ok (record {
            access_token = create_access_token (row_to_user_info row) f;
            refresh_token = token;
          })
        ]
        else http_error 401
  ]

  -- The requests that change the tables.
  unfoldable pub serve : Request T → Database → Database
  unfolding login logout create_user
  serve (log_in email password f) db = (login email password f db).0
  serve (log_out token f) db = (logout l token f db).0
  serve (add_user body f) db = (create_user l body f db).0

  unfoldable pub serve_all : List (Request T) → Database → Database
  serve_all [] db = db
  serve_all (q ∷ qs) db = serve_all qs (serve q db)
