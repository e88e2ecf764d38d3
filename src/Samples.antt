-- ===== src/Samples.antt =====
-- Concrete values of the parameters: numbers in hundredths for the floats, and functions for the
-- Redis keys. They show that the laws can hold, and the witnesses use them.
pub mod Alerts
pub mod Draws
use flood_monitoring_and_man.Common.{
  ℕ, ◌+◌, ◌-◌, ◌*◌, ◌/◌, String, Option, some, none, true, false, ◌≡◌, refl, arith, ltb, leb,
  nat_eq, ◌==◌, if◌then◌else◌, string_eq, eq_iff,
}
use flood_monitoring_and_man.Common.Expiry.{Expiring, ExpiringLaws}
use flood_monitoring_and_man.Common.Float.{Float, FloatLaws}
use flood_monitoring_and_man.Common.HotState.{HotState}
use flood_monitoring_and_man.Common.Int.{ℤ, succ, pred}
use flood_monitoring_and_man.Common.Redis.{Redis, RedisLaws, CounterKey, or_zero, key_eq}
use flood_monitoring_and_man.RuleEngine.Models.{Draw}
use flood_monitoring_and_man.Telemetry.Rows.{DateTimes}
use flood_monitoring_and_man.Wire.Parameters.{Measurements}
use flood_monitoring_and_man.Wire.Validation.{Payload, TelemetryEnvelope, TelemetryMessage, nominal}

instance abbrev pub hundredths : Float ℕ
hundredths = record {
  lt = ltb;
  le = leb;
  eq = nat_eq;
  num = λ n. n * 100;
  one_pct = 1;
  minus_one_pct = 0;
  seventy_pct = 70;
  max_degrees = 35999;
  add = λ a b. a + b;
  sub = λ a b. a - b;
  mul = λ a b. a * b / 100;
  div = λ a b. a * 100 / b;
  abs = λ a. a;
}

lt_irrefl : (a : ℕ) → ltb a a ≡ false
lt_irrefl a = ground arith

lt_trans : (a b c : ℕ) → ltb a b ≡ true → ltb b c ≡ true → ltb a c ≡ true
lt_trans a b c h k = ground arith

le-of-not-lt : (a b : ℕ) → ltb a b ≡ false → leb b a ≡ true
le-of-not-lt a b h = ground arith

lt-of-lt-le : (a b c : ℕ) → ltb a b ≡ true → leb b c ≡ true → ltb a c ≡ true
lt-of-lt-le a b c h k = ground arith

lt-of-le-lt : (a b c : ℕ) → leb a b ≡ true → ltb b c ≡ true → ltb a c ≡ true
lt-of-le-lt a b c h k = ground arith

le_refl : (a : ℕ) → leb a a ≡ true
le_refl a = ground arith

pub hundredths_laws : FloatLaws ℕ
hundredths_laws = record {
  lt_irrefl = lt_irrefl;
  lt_trans = lt_trans;
  le-of-not-lt = le-of-not-lt;
  lt-of-lt-le = lt-of-lt-le;
  lt-of-le-lt = lt-of-le-lt;
  le_refl = le_refl;
}

abbrev pub Counters : Type 0
Counters = CounterKey → Option ℤ

instance abbrev pub counters : Redis Counters
counters = record {
  get = λ r k. r k;
  set = λ k v r j. if k == j then some v else r j;
  delete = λ k r j. if k == j then none else r j;
  expire = λ k ttl r. r;
  incr = λ k r. ((λ j. if k == j then some (succ (or_zero (r k))) else r j), succ (or_zero (r k)));
  decr = λ k r. ((λ j. if k == j then some (pred (or_zero (r k))) else r j), pred (or_zero (r k)));
}

pub counters_laws : RedisLaws Counters
counters_laws = record {
  get-set = λ k j v r. refl;
  get-delete = λ k j r. refl;
  get-expire = λ k j ttl r. refl;
  get-incr = λ k j r. refl;
  incr_result = λ k r. refl;
  get-decr = λ k j r. refl;
  decr_result = λ k r. refl;
}

instance abbrev pub latest_keys : {M : Type 0} → HotState (String → Option M) M
latest_keys = record {
  get_latest = λ h k. h k;
  set_latest = λ k m ttl h j. if k == j then some m else h j;
}

-- The keys with the instant at which they expire.
abbrev pub Timed : Type 0 → Type 0
Timed M = String → Option (M × ℕ)

abbrev unexpired : {M : Type 0} → ℕ → Option (M × ℕ) → Option M
unexpired now none = none
unexpired now (some (m, expires_at)) = if ltb now expires_at then some m else none

abbrev pub timed_keys : {M : Type 0} → Expiring (Timed M) M
timed_keys = record {
  get_at = λ now h k. unexpired now (h k);
  set_at = λ now k m ttl h j. if k == j then some (m, now + ttl) else h j;
}

pub timed_keys_laws : {M : Type 0} → ExpiringLaws (timed_keys {M = M})
timed_keys_laws = record {
  get-set_at = λ now t k m ttl h before in_time. ground (arith, eq_iff k k, in_time);
  get-expired = λ now t k m ttl h over. ground (arith, eq_iff k k, over);
}

-- Every alert takes the same id and time.
abbrev pub draws : ℕ → Draw
draws n = record { uuid = "id"; now = "12:00" }

-- A water level of 3.10 m and nothing else.
abbrev pub high_water : Measurements ℕ
high_water = record {
  water_level_m = some 310;
  river_flow_velocity_m_s = none;
  rainfall_mm_h = none;
  soil_saturation_pct = none;
  wind_speed_m_s = none;
  wind_direction_deg = none;
}

abbrev pub payload : Payload ℕ
payload = record {
  schema_version = "1.0.0";
  sensor_id = "s";
  area_id = "a";
  ts = "t";
  status = 1;
  mode = "nominal";
  measurements = high_water;
  ingested_at = some "u";
}

abbrev pub envelope : TelemetryEnvelope ℕ
envelope = record {
  sensor_id = "s";
  area_id = "a";
  ts = "t";
  status = true;
  mode = nominal;
  measurements = high_water;
}

abbrev pub message : TelemetryMessage ℕ
message = record { envelope = envelope; ingested_at = "u" }

-- Every text is a time with a zone, but "bad".
instance abbrev pub texts : DateTimes String
texts = record {
  fromisoformat = λ s. if s == "bad" then none else some s;
  has_tzinfo = λ d. true;
  replace_utc = λ d. d;
}
