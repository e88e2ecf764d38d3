-- ===== src/Auth/Revocation.antt =====
-- A refresh token that was logged out stays revoked.
use flood_monitoring_and_man.Common.{
  ℕ, String, List, [], ◌∷◌, ◌++◌, Option, none, some, ◌≡◌, refl, arith, string_eq, Option-cases,
  Bool-cases, inl, inr, ◌∙◌, ap,
}
use flood_monitoring_and_man.Auth.Tables.{
  User, RefreshToken, Database, fetch_user_by_email, fetch_refresh_token, store_refresh_token,
  revoke_row, revoke_refresh_token,
}
use flood_monitoring_and_man.Auth.Security.{Claims, Libraries, LibrariesLaws}
use flood_monitoring_and_man.Auth.Api.{
  http_error, Fresh, CreateUser, login, login_row, logout, refresh, create_user, jti_of,
  revoke_claimed, Request, log_in, log_out, add_user, serve, serve_all,
}

pub fetch_refresh_token-append :
    (jti : String) (ts us : List RefreshToken)
    → fetch_refresh_token jti (ts ++ us)
      ≡ elim (fetch_refresh_token jti ts) [ some t ↦ some t | none ↦ fetch_refresh_token jti us ]
unfolding fetch_refresh_token
fetch_refresh_token-append jti [] us = refl
fetch_refresh_token-append jti (t ∷ ts) us = ground (arith, fetch_refresh_token-append jti ts us)

-- The first row of a jti is revoked.
pub record IsRevoked (jti : String) (ts : List RefreshToken) : Type 0 where
  pub row : RefreshToken
  pub at : ℕ
  pub found : fetch_refresh_token jti ts ≡ some row
  pub revoked : row.revoked_at ≡ some at

revoke_row-revoked : (now at : ℕ) (t : RefreshToken) → t.revoked_at ≡ some at → revoke_row now t ≡ t
unfolding revoke_row
revoke_row-revoked now at t h = ground arith

revoke_row-jti : (now : ℕ) (t : RefreshToken) → (revoke_row now t).jti ≡ t.jti
unfolding revoke_row
revoke_row-jti now t = ground arith

fetch_refresh_token-revoke :
    (jti : String) (now : ℕ) (ts : List RefreshToken) (t : RefreshToken)
    → fetch_refresh_token jti ts ≡ some t
    → fetch_refresh_token jti (revoke_refresh_token jti now ts) ≡ some (revoke_row now t)
unfolding fetch_refresh_token revoke_refresh_token
fetch_refresh_token-revoke jti now [] t h = ground arith
fetch_refresh_token-revoke jti now (r ∷ ts) t h =
    ground (arith, revoke_row-jti now r, fetch_refresh_token-revoke jti now ts t)

fetch_refresh_token-revoke_any :
    (jti j : String) (now at : ℕ) (ts : List RefreshToken) (t : RefreshToken)
    → fetch_refresh_token jti ts ≡ some t
    → t.revoked_at ≡ some at
    → fetch_refresh_token jti (revoke_refresh_token j now ts) ≡ some t
unfolding fetch_refresh_token revoke_refresh_token
fetch_refresh_token-revoke_any jti j now at [] t h k = ground arith
fetch_refresh_token-revoke_any jti j now at (r ∷ ts) t h k = ground (
  arith,
  revoke_row-jti now r,
  revoke_row-revoked now at r,
  fetch_refresh_token-revoke_any jti j now at ts t,
)

revoke_row-IsRevoked :
    (now : ℕ) (t : RefreshToken) → (at : ℕ) × ((revoke_row now t).revoked_at ≡ some at)
unfolding revoke_row
revoke_row-IsRevoked now t = elim (Option-cases t.revoked_at) [
  | inl live ↦ (now, ground arith)
  | inr (at, dead) ↦ (at, ground arith)
]

append-IsRevoked :
    (jti : String) (ts us : List RefreshToken) → IsRevoked jti ts → IsRevoked jti (ts ++ us)
append-IsRevoked jti ts us h = record {
  row = h.row;
  at = h.at;
  found = ground (arith, h.found, fetch_refresh_token-append jti ts us);
  revoked = h.revoked;
}

revoke-IsRevoked :
    (jti j : String) (now : ℕ) (ts : List RefreshToken)
    → IsRevoked jti ts
    → IsRevoked jti (revoke_refresh_token j now ts)
revoke-IsRevoked jti j now ts h = record {
  row = h.row;
  at = h.at;
  found = fetch_refresh_token-revoke_any jti j now h.at ts h.row h.found h.revoked;
  revoked = h.revoked;
}

revoke_claimed-IsRevoked :
    {T : Type 0} (l : Libraries T) (jti : String) (f : Fresh) (db : Database)
    (claimed : Option (Claims × String))
    → IsRevoked jti db.refresh_tokens
    → IsRevoked jti (revoke_claimed l f db claimed).0.refresh_tokens
revoke_claimed-IsRevoked l jti f db none h = h
revoke_claimed-IsRevoked l jti f db (some (claims, j)) h =
    revoke-IsRevoked jti j f.now db.refresh_tokens h

module _ {T : Type 0} (l : Libraries T) (access_ttl_s refresh_ttl_s : ℕ) where
  login_row-IsRevoked :
      (jti password : String) (f : Fresh) (db : Database) (row : Option User)
      → IsRevoked jti db.refresh_tokens
      → IsRevoked jti (login_row l access_ttl_s refresh_ttl_s password f db row).0.refresh_tokens
  unfolding store_refresh_token
  login_row-IsRevoked jti password f db none h = h
  login_row-IsRevoked jti password f db (some row) h =
      elim (Bool-cases (l.verify password row.password_hash)) [
        | inl right ↦ rw right (append-IsRevoked jti db.refresh_tokens _ h)
        | inr wrong ↦ rw wrong h
      ]

  create_user-refresh_tokens :
      (body : CreateUser) (f : Fresh) (db : Database)
      → (create_user l body f db).0.refresh_tokens ≡ db.refresh_tokens
  unfolding create_user
  create_user-refresh_tokens body f db = ground arith

  logout-IsRevoked :
      (jti : String) (token : T) (f : Fresh) (db : Database)
      → IsRevoked jti db.refresh_tokens
      → IsRevoked jti (logout l token f db).0.refresh_tokens
  unfolding logout
  logout-IsRevoked jti token f db h = revoke_claimed-IsRevoked l jti f db (jti_of l f.now token) h

  serve-IsRevoked :
      (jti : String) (q : Request T) (db : Database)
      → IsRevoked jti db.refresh_tokens
      → IsRevoked jti (serve l access_ttl_s refresh_ttl_s q db).refresh_tokens
  unfolding serve login
  serve-IsRevoked jti (log_in email password f) db h =
      login_row-IsRevoked jti password f db (fetch_user_by_email email db.users) h
  serve-IsRevoked jti (log_out token f) db h = logout-IsRevoked jti token f db h
  serve-IsRevoked jti (add_user body f) db h = rw (create_user-refresh_tokens body f db) h

  serve_all-IsRevoked :
      (jti : String) (qs : List (Request T)) (db : Database)
      → IsRevoked jti db.refresh_tokens
      → IsRevoked jti (serve_all l access_ttl_s refresh_ttl_s qs db).refresh_tokens
  unfolding serve_all
  serve_all-IsRevoked jti [] db h = h
  serve_all-IsRevoked jti (q ∷ qs) db h = serve_all-IsRevoked jti qs _ (serve-IsRevoked jti q db h)

  refresh-IsRevoked :
      (token : T) (jti : String) (f : Fresh) (db : Database) (claims : Claims)
      → jti_of l f.now token ≡ some (claims, jti)
      → IsRevoked jti db.refresh_tokens
      → refresh l access_ttl_s refresh_ttl_s token f db ≡ http_error 401
  unfolding refresh
  refresh-IsRevoked token jti f db claims named h = ground (arith, h.found, h.revoked)

  jti_of-same :
      (laws : LibrariesLaws l) (token : T) (jti jti' : String) (now now' : ℕ) (c c' : Claims)
      → jti_of l now token ≡ some (c, jti)
      → jti_of l now' token ≡ some (c', jti')
      → jti' ≡ jti
  unfolding jti_of
  jti_of-same laws token jti jti' now now' c c' h h' = elim (Option-cases (l.decode now token)) [
    | inl none_now ↦ absurd (ground arith)
    | inr (d, now_is) ↦ elim (Option-cases (l.decode now' token)) [
      | inl none_then ↦ absurd (ground arith)
      | inr (d', then_is) ↦
          let same = laws.decode_same token now now' d d' now_is then_is in ground (arith, same)
    ]
  ]

  refresh-unreadable :
      (token : T) (f : Fresh) (db : Database)
      → jti_of l f.now token ≡ none
      → refresh l access_ttl_s refresh_ttl_s token f db ≡ http_error 401
  unfolding refresh
  refresh-unreadable token f db unreadable = ground (arith, unreadable)

  IsRevoked-logout :
      (token : T) (jti : String) (f : Fresh) (db : Database) (claims : Claims) (row : RefreshToken)
      → jti_of l f.now token ≡ some (claims, jti)
      → fetch_refresh_token jti db.refresh_tokens ≡ some row
      → IsRevoked jti (logout l token f db).0.refresh_tokens
  unfolding logout
  IsRevoked-logout token jti f db claims row named stored =
      let (at, dead) = revoke_row-IsRevoked f.now row in
      rw named (record {
        row = revoke_row f.now row;
        at = at;
        found = fetch_refresh_token-revoke jti f.now db.refresh_tokens row stored;
        revoked = dead;
      })

  -- Once a refresh token whose jti is stored has been logged out, no refresh with it succeeds: whatever
  -- logins, logouts and new users come between, and whenever it is tried, the answer is 401.
  pub refresh-logout :
      (laws : LibrariesLaws l) (token : T) (jti : String) (f f' : Fresh) (qs : List (Request T))
      (db : Database) (claims : Claims) (row : RefreshToken)
      → jti_of l f.now token ≡ some (claims, jti)
      → fetch_refresh_token jti db.refresh_tokens ≡ some row
      → refresh l access_ttl_s refresh_ttl_s token f'
          (serve_all l access_ttl_s refresh_ttl_s qs (logout l token f db).0)
        ≡ http_error 401
  refresh-logout laws token jti f f' qs db claims row named stored =
      let gone =
        serve_all-IsRevoked jti qs (logout l token f db).0
          (IsRevoked-logout token jti f db claims row named stored) in
      let later = serve_all l access_ttl_s refresh_ttl_s qs (logout l token f db).0 in
      elim (Option-cases (jti_of l f'.now token)) [
        | inl unreadable ↦ refresh-unreadable token f' later unreadable
        | inr ((claims', jti'), again) ↦
            let same = jti_of-same laws token jti jti' f.now f'.now claims claims' named again in
            refresh-IsRevoked token jti f' later claims' (again ∙ ap (λ j. some (claims', j)) same)
              gone
      ]
