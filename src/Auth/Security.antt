-- ===== src/Auth/Security.antt =====
-- services/auth-service/src/auth_service/security.py. The libraries for JWT, password hashes and UUIDs
-- are not in the repository: what the service uses of them is an interface, with what it relies on as
-- laws.
use flood_monitoring_and_man.Common.{
  ℕ, ◌+◌, ◌≤◌, String, List, Option, some, Bool, true, ◌≡◌, string_eq,
}
use flood_monitoring_and_man.Auth.Tables.{User}

-- `claims.get` of a decoded token: `none` is a claim that is absent or no text.
pub record Claims : Type 0 where
  pub sub : Option String
  pub email : String
  pub role : String
  pub jurisdiction : List String
  pub jti : Option String
  pub iat : ℕ
  pub exp : ℕ

-- `T` is the type of tokens. `encode` signs with the private key, `decode` at a time verifies with the
-- public one. `hash` takes the salt.
pub record Libraries (T : Type 0) : Type 0 where
  pub encode : Claims → T
  pub decode : ℕ → T → Option Claims
  pub hash : String → String → String
  pub verify : String → String → Bool
  pub parse_uuid : String → Option String

pub record LibrariesLaws {T : Type 0} (l : Libraries T) : Type 0 where
  -- A token that the service signed is decoded until it expires.
  pub decode-encode : (c : Claims) (now : ℕ) → now ≤ c.exp → l.decode now (l.encode c) ≡ some c
  -- What a token says does not depend on when it is read.
  pub decode_same :
      (token : T) (now now' : ℕ) (c c' : Claims)
      → l.decode now token ≡ some c
      → l.decode now' token ≡ some c'
      → c ≡ c'
  pub verify-hash : (salt password : String) → l.verify password (l.hash salt password) ≡ true

pub record UserInfo : Type 0 where
  pub user_id : String
  pub email : String
  pub role : String
  pub jurisdiction : List String

unfoldable pub row_to_user_info : User → UserInfo
row_to_user_info u = record {
  user_id = u.user_id;
  email = u.email;
  role = u.role;
  jurisdiction = u.jurisdiction;
}

unfoldable pub build_claims : UserInfo → String → ℕ → ℕ → Claims
build_claims user jti ttl_s now = record {
  sub = some user.user_id;
  email = user.email;
  role = user.role;
  jurisdiction = user.jurisdiction;
  jti = some jti;
  iat = now;
  exp = now + ttl_s;
}
