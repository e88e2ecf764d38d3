-- ===== src/Simulator/Fleet.antt =====
-- The sensors that `Simulator.start` of services/sensor-simulator/src/sensor_simulator/simulator.py
-- makes: their ids and areas. `uuid_of` is `str(uuid.UUID(int=index))`; the parameters of the sensors
-- are drawn.
use flood_monitoring_and_man.Common.{
  ℕ, zero, suc, ◌+◌, ◌%◌, ◌<◌, ◌≤◌, List, [], ◌∷◌, Option, none, some, ◌≡◌, ◌≢◌, refl, arith, All,
  length, Bool, true, false, Bool-cases, inl, inr, ◌||◌, nat_eq,
}
use native.Mathlib.Nat.{mod-lt, mod-eq_of_lt}

-- The ids of one sensor, by index.
pub record Place : Type 0 where
  pub sensor : ℕ
  pub area : ℕ

-- `sensor_id` and `area_id` of the i-th sensor, before `_make_id`; `none` is the ZeroDivisionError of
-- `i % 0`.
unfoldable pub place : ℕ → ℕ → ℕ → Option Place
place sensor_count zero i = none
place sensor_count (suc m) i = some (record { sensor = i; area = sensor_count + i % suc m })

abbrev pub append_place : Option Place → Option (List Place) → Option (List Place)
append_place none rest = none
append_place (some p) none = none
append_place (some p) (some rest) = some (p ∷ rest)

-- `for i in range(sim_sensor_count)`, from `i`, with `n` rounds left.
unfoldable pub places_from : ℕ → ℕ → ℕ → ℕ → Option (List Place)
unfolding place
places_from sensor_count area_count i zero = some []
places_from sensor_count area_count i (suc n) =
    append_place (place sensor_count area_count i) (places_from sensor_count area_count (suc i) n)

unfoldable pub places : ℕ → ℕ → Option (List Place)
unfolding places_from
places sensor_count area_count = places_from sensor_count area_count 0 sensor_count

-- The sensors of a fleet: as many as configured, with ids that ascend from `i`, and areas whose ids are
-- none of the sensors'.
abbrev pub IsAscending : ℕ → List Place → Type 0
IsAscending i [] = Unit
IsAscending i (p ∷ ps) = (p.sensor ≡ i) × IsAscending (suc i) ps

abbrev pub HasIds : ℕ → ℕ → Place → Type 0
HasIds sensor_count area_count p =
    (p.sensor < sensor_count) × (sensor_count ≤ p.area) × (p.area < sensor_count + area_count)

abbrev pub covers : ℕ → List Place → Bool
covers area [] = false
covers area (p ∷ ps) = nat_eq p.area area || covers area ps

pub record IsFleet (sensor_count area_count : ℕ) (ps : List Place) : Type 0 where
  pub number : length ps ≡ sensor_count
  pub ascending : IsAscending 0 ps
  pub ids : All (HasIds sensor_count area_count) ps

-- The places without the exception.
unfoldable pub listed : ℕ → ℕ → ℕ → ℕ → List Place
listed sensor_count area_count i zero = []
listed sensor_count area_count i (suc n) =
    record { sensor = i; area = sensor_count + i % area_count }
    ∷ listed sensor_count area_count (suc i) n

pub places_from-listed : (n m i k : ℕ) → 0 < m → places_from n m i k ≡ some (listed n m i k)
unfolding places_from place listed
places_from-listed n zero i k positive = absurd (omega arith)
places_from-listed n (suc m) i zero positive = refl
places_from-listed n (suc m) i (suc k) positive =
    rw (places_from-listed n (suc m) (suc i) k positive) refl

pub listed-length : (n m i k : ℕ) → length (listed n m i k) ≡ k
unfolding listed
listed-length n m i zero = refl
listed-length n m i (suc k) = omega (arith, listed-length n m (suc i) k)

listed-IsAscending : (n m i k : ℕ) → IsAscending i (listed n m i k)
unfolding listed
listed-IsAscending n m i zero = tt
listed-IsAscending n m i (suc k) = (refl, listed-IsAscending n m (suc i) k)

listed-HasIds : (n m i k : ℕ) → 0 < m → i + k ≤ n → All (HasIds n m) (listed n m i k)
unfolding listed
listed-HasIds n m i zero positive fits = tt
listed-HasIds n m i (suc k) positive fits = (
  (omega arith, omega arith, omega (arith, mod-lt i positive)),
  listed-HasIds n m (suc i) k positive (omega arith),
)

covers-listed : (n m i k j : ℕ) → i ≤ j → j < i + k → j < m → covers (n + j) (listed n m i k) ≡ true
unfolding listed
covers-listed n m i zero j low high small = absurd (omega arith)
covers-listed n m i (suc k) j low high small = elim (Bool-cases (nat_eq i j)) [
  | inl same ↦
      let here : i ≡ j = ground (arith, same) in
      ground (arith, here, mod-eq_of_lt {n = i} {m = m} (omega (arith, here)))
  | inr other ↦
      let later : i ≢ j = ground (arith, other) in
      ground (arith, covers-listed n m (suc i) k j (omega (arith, later)) (omega arith) small)
]

-- With at least one area and at least as many sensors as areas, a fleet is made, and it has the configured
-- number of sensors, with distinct ids, and areas whose ids no sensor has, and every area has a sensor.
pub places-IsFleet :
    (sensor_count area_count : ℕ)
    → 0 < area_count
    → area_count ≤ sensor_count
    → (ps : List Place) × (places sensor_count area_count ≡ some ps)
      × IsFleet sensor_count area_count ps
      × ((j : ℕ) → j < area_count → covers (sensor_count + j) ps ≡ true)
unfolding places
places-IsFleet n m positive enough = (
  listed n m 0 n,
  places_from-listed n m 0 n positive,
  record {
    number = listed-length n m 0 n;
    ascending = listed-IsAscending n m 0 n;
    ids = listed-HasIds n m 0 n positive (omega arith);
  },
  λ j small. covers-listed n m 0 n j (omega arith) (omega arith) small,
)
