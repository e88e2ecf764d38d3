-- ===== src/Auth/Samples.antt =====
-- The libraries of the auth service as concrete functions: a token is its claims, a password hash is
-- the password.
use flood_monitoring_and_man.Common.{
  ℕ, some, none, arith, ◌==◌, string_eq, eq_iff, leb, if◌then◌else◌, refl,
}
use flood_monitoring_and_man.Auth.Security.{Claims, Libraries, LibrariesLaws}
use flood_monitoring_and_man.Auth.Api.{Fresh}

abbrev pub plain : Libraries Claims
plain = record {
  encode = λ c. c;
  decode = λ now c. if leb now c.exp then some c else none;
  hash = λ salt p. p;
  verify = λ p h. p == h;
  parse_uuid = λ s. some s;
}

pub plain_laws : LibrariesLaws plain
plain_laws = record {
  decode-encode = λ c now h. ground arith;
  decode_same = λ token now now' c c' h k. ground arith;
  verify-hash = λ salt p. (eq_iff p p).1 refl;
}

abbrev pub at : ℕ → Fresh
at now = record { now = now; uuid = "j"; access_jti = "k"; salt = "s" }
