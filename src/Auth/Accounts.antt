-- ===== src/Auth/Accounts.antt =====
-- What holds of the table of users.
use flood_monitoring_and_man.Common.{
  ℕ, String, List, [], ◌∷◌, ◌++◌, Option, none, some, true, ◌≡◌, refl, arith, string_eq, eq_iff,
  Bool-cases, inl, inr,
}
use flood_monitoring_and_man.Auth.Tables.{User, Database, fetch_user_by_email, store_refresh_token}
use flood_monitoring_and_man.Auth.Security.{Libraries}
use flood_monitoring_and_man.Auth.Api.{
  Fresh, CreateUser, is_valid_role, login, logout, create_user, insert_user, user_row, Request,
  log_in, log_out, add_user, serve, serve_all,
}

-- No two users share an email, and every role is one of the three.
abbrev pub AreAccounts : List User → Type 0
AreAccounts [] = Unit
AreAccounts (u ∷ us) =
    (fetch_user_by_email u.email us ≡ none) × ((is_valid_role u.role ≡ true) × AreAccounts us)

fetch_user_by_email-append :
    (email : String) (us vs : List User)
    → fetch_user_by_email email us ≡ none
    → fetch_user_by_email email (us ++ vs) ≡ fetch_user_by_email email vs
unfolding fetch_user_by_email
fetch_user_by_email-append email [] vs h = refl
fetch_user_by_email-append email (u ∷ us) vs h =
    ground (arith, fetch_user_by_email-append email us vs)

append-AreAccounts :
    (us : List User) (v : User)
    → fetch_user_by_email v.email us ≡ none
    → is_valid_role v.role ≡ true
    → AreAccounts us
    → AreAccounts (us ++ v ∷ [])
unfolding fetch_user_by_email
append-AreAccounts [] v new valid h = (refl, (valid, tt))
append-AreAccounts (u ∷ us) v new valid h = (
  ground (
    arith,
    new,
    h.0,
    eq_iff u.email v.email,
    eq_iff v.email u.email,
    fetch_user_by_email-append u.email us (v ∷ []),
  ),
  (h.1.0, append-AreAccounts us v (ground arith) valid h.1.1),
)

module _ {T : Type 0} (l : Libraries T) where
  insert_user-AreAccounts :
      (v : User) (db : Database) (taken : Option User)
      → fetch_user_by_email v.email db.users ≡ taken
      → is_valid_role v.role ≡ true
      → AreAccounts db.users
      → AreAccounts (insert_user l v db taken).0.users
  insert_user-AreAccounts v db none new valid h = append-AreAccounts db.users v new valid h
  insert_user-AreAccounts v db (some u) new valid h = h

  create_user-AreAccounts :
      (body : CreateUser) (f : Fresh) (db : Database)
      → AreAccounts db.users
      → AreAccounts (create_user l body f db).0.users
  unfolding create_user
  create_user-AreAccounts body f db h = elim (Bool-cases (is_valid_role body.role)) [
    | inl valid ↦ rw valid (insert_user-AreAccounts (user_row l body f) db _ refl valid h)
    | inr invalid ↦ rw invalid h
  ]

  logout-users : (token : T) (f : Fresh) (db : Database) → (logout l token f db).0.users ≡ db.users
  unfolding logout
  logout-users token f db = ground arith

module _ {T : Type 0} (l : Libraries T) (access_ttl_s refresh_ttl_s : ℕ) where
  login-users :
      (email password : String) (f : Fresh) (db : Database)
      → (login l access_ttl_s refresh_ttl_s email password f db).0.users ≡ db.users
  unfolding login store_refresh_token
  login-users email password f db = ground arith

  serve-AreAccounts :
      (q : Request T) (db : Database)
      → AreAccounts db.users
      → AreAccounts (serve l access_ttl_s refresh_ttl_s q db).users
  unfolding serve
  serve-AreAccounts (log_in email password f) db h = rw (login-users email password f db) h
  serve-AreAccounts (log_out token f) db h = rw (logout-users l token f db) h
  serve-AreAccounts (add_user body f) db h = create_user-AreAccounts l body f db h

  -- Any requests keep the emails of the users distinct and their roles valid.
  pub serve_all-AreAccounts :
      (qs : List (Request T)) (db : Database)
      → AreAccounts db.users
      → AreAccounts (serve_all l access_ttl_s refresh_ttl_s qs db).users
  unfolding serve_all
  serve_all-AreAccounts [] db h = h
  serve_all-AreAccounts (q ∷ qs) db h = serve_all-AreAccounts qs _ (serve-AreAccounts q db h)
