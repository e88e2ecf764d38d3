-- ===== src/Common/Expiry.antt =====
-- The keys `sensor:{sensor_id}:latest` of the Redis server, which is not in the repository, with their
-- expiry: GET and SET with EX at an instant, in seconds. `M` is what is stored.
use flood_monitoring_and_man.Common.HotState.{HotState}
use flood_monitoring_and_man.Common.Tests.{string_eq}
use Prim.Native.Nat.{ℕ, ◌+◌, ◌≤◌, ◌<◌}
use Prim.Native.String.{String}
use mathlib.Core.Option.{Option, some, none}
use mathlib.Core.Path.{◌≡◌}

pub record Expiring (H M : Type 0) : Type 0 where
  pub get_at : ℕ → H → String → Option M
  pub set_at : ℕ → String → M → ℕ → H → H

-- What a process sees of the server at an instant.
abbrev pub at_time : {H M : Type 0} → Expiring H M → ℕ → HotState H M
at_time e now = record {
  get_latest = λ h k. e.get_at now h k;
  set_latest = λ k m ttl h. e.set_at now k m ttl h;
}

-- After SET with EX the key has its value until its time is over, and is gone from then on, whatever
-- expiry it had before.
pub record ExpiringLaws {H M : Type 0} (e : Expiring H M) : Type 0 where
  pub get-set_at :
      (now t : ℕ) (k : String) (m : M) (ttl : ℕ) (h : H)
      → now ≤ t
      → t < now + ttl
      → e.get_at t (e.set_at now k m ttl h) k ≡ some m
  pub get-expired :
      (now t : ℕ) (k : String) (m : M) (ttl : ℕ) (h : H)
      → now + ttl ≤ t
      → e.get_at t (e.set_at now k m ttl h) k ≡ none
