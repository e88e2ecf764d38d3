-- ===== src/Common/HotState.antt =====
-- The keys `sensor:{sensor_id}:latest` of the Redis server, which is not in the repository: GET and
-- SET with an expiry in seconds. `M` is what is stored, a JSON text of a telemetry message.
use flood_monitoring_and_man.Common.Tests.{◌==◌, string_eq, if◌then◌else◌}
use Prim.Native.Nat.{ℕ}
use Prim.Native.String.{String}
use mathlib.Core.Option.{Option, some}
use mathlib.Core.Path.{◌≡◌}

pub record HotState (H M : Type 0) : Type 0 where
  pub get_latest : H → String → Option M
  pub set_latest : String → M → ℕ → H → H

-- Right after SET the key has its value, and no other key has changed.
pub record HotStateLaws (H M : Type 0) ⦃s : HotState H M⦄ : Type 0 where
  pub get-set_latest :
      (k j : String) (m : M) (ttl : ℕ) (h : H)
      → s.get_latest (s.set_latest k m ttl h) j ≡ (if k == j then some m else s.get_latest h j)
