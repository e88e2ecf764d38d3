-- ===== src/Common/Redis.antt =====
-- The Redis server, which is not in the repository: what the services use of it is a parameter.
-- The f-strings that name keys (`area:{area_id}:operational_count:{parameter}`,
-- `sensor:{sensor_id}:fault_count`, `sensor:{sensor_id}:latest`) are read as the constructors of a
-- type: the ids are UUIDs and hold no colon, so different constructors or arguments are different
-- keys. Counter keys hold integers, which only SET, INCR and DECR write; the bound of INCR and DECR
-- at 2^63 is not modelled, nor a command that fails.
use Prim.Native.Nat.{ℕ}
use Prim.Native.String.{String}
use mathlib.Core.Path.{◌≡◌}
use mathlib.Core.Logic.{◌↔◌}
use mathlib.Core.Bool.{Bool, false, ◌&&◌}
use mathlib.Core.Option.{Option, none, some}
use native.Mathlib.Omega.{arith}
use text.Mathlib.TextEquality.{eq_iff}
use flood_monitoring_and_man.Common.Tests.{Eq, ◌==◌, string_eq, if◌then◌else◌}
use flood_monitoring_and_man.Common.Int.{ℤ, pos, succ, pred}

pub data CounterKey : Type 0 where
  operational_count : String → String → CounterKey
  fault_count : String → CounterKey

abbrev pub beq_key : CounterKey → CounterKey → Bool
beq_key (operational_count a p) (operational_count b q) = (a == b) && (p == q)
beq_key (fault_count s) (fault_count t) = s == t
beq_key _ _ = false

pub beq_key_iff : (j k : CounterKey) → (beq_key j k ≡ Bool.true) ↔ (j ≡ k)
beq_key_iff (operational_count a p) (operational_count b q) = ground (arith, eq_iff a b, eq_iff p q)
beq_key_iff (operational_count a p) (fault_count t) = ground arith
beq_key_iff (fault_count s) (operational_count b q) = ground arith
beq_key_iff (fault_count s) (fault_count t) = ground (arith, eq_iff s t)

instance abbrev pub key_eq : Eq CounterKey
key_eq = record { beq = beq_key; beq_iff = beq_key_iff }

abbrev pub or_zero : Option ℤ → ℤ
or_zero none = pos 0
or_zero (some v) = v

pub record Redis (R : Type 0) : Type 0 where
  -- GET, SET, DEL; EXPIRE in seconds; INCR and DECR return the new value.
  pub get : R → CounterKey → Option ℤ
  pub set : CounterKey → ℤ → R → R
  pub delete : CounterKey → R → R
  pub expire : CounterKey → ℕ → R → R
  pub incr : CounterKey → R → R × ℤ
  pub decr : CounterKey → R → R × ℤ

-- The documented behaviour of the commands. A key takes time to expire: right after EXPIRE every key
-- has its value.
pub record RedisLaws (R : Type 0) ⦃d : Redis R⦄ : Type 0 where
  pub get-set :
      (k j : CounterKey) (v : ℤ) (r : R)
      → d.get (d.set k v r) j ≡ (if k == j then some v else d.get r j)
  pub get-delete :
      (k j : CounterKey) (r : R) → d.get (d.delete k r) j ≡ (if k == j then none else d.get r j)
  pub get-expire : (k j : CounterKey) (ttl : ℕ) (r : R) → d.get (d.expire k ttl r) j ≡ d.get r j
  pub get-incr :
      (k j : CounterKey) (r : R)
      → d.get (d.incr k r).0 j ≡ (if k == j then some (succ (or_zero (d.get r k))) else d.get r j)
  pub incr_result : (k : CounterKey) (r : R) → (d.incr k r).1 ≡ succ (or_zero (d.get r k))
  pub get-decr :
      (k j : CounterKey) (r : R)
      → d.get (d.decr k r).0 j ≡ (if k == j then some (pred (or_zero (d.get r k))) else d.get r j)
  pub decr_result : (k : CounterKey) (r : R) → (d.decr k r).1 ≡ pred (or_zero (d.get r k))
