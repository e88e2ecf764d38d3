-- ===== src/Simulator/Sensor/Bounds.antt =====
-- What a simulated sensor measures and sends is in range.
use flood_monitoring_and_man.Common.{
  List, [], ◌∷◌, Option, none, some, Bool, true, false, ◌≡◌, refl, arith, All, Option-cases,
  List-cases, inl, inr, subst,
}
use flood_monitoring_and_man.Common.Dict.{lookup, insert, lookup-insert}
use flood_monitoring_and_man.Common.Float.{Float, FloatLaws}
use flood_monitoring_and_man.Simulator.Params.{
  Param, param_eq, beq_param_iff, clamp, in_range, LiteralLaws, clamp-in_range,
}
use flood_monitoring_and_man.Simulator.Sensor.{
  Readings, Sensor, Draws, initial_from, walk, new_sensor,
}

module _ {F : Type 0} ⦃f : Float F⦄ where
  -- Every value is in the range of its parameter.
  unfoldable pub IsInRange : Readings F → Type 0
  IsInRange r = (p : Param) (v : F) → lookup p r ≡ some v → in_range p v ≡ true

  abbrev pub has : Readings F → Param → Bool
  has r p = elim (lookup p r) [ none ↦ false | some v ↦ true ]

  -- Every parameter has a value.
  abbrev pub HasAll : List Param → Readings F → Type 0
  HasAll ps r = All (λ p. has r p ≡ true) ps

  has-insert : (p q : Param) (v : F) (r : Readings F) → has r q ≡ true → has (insert p v r) q ≡ true
  has-insert p q v r h = ground (arith, lookup-insert p q v r)

  has-insert_self : (p : Param) (v : F) (r : Readings F) → has (insert p v r) p ≡ true
  has-insert_self p v r = ground (arith, lookup-insert p p v r, beq_param_iff p p)

  insert-HasAll :
      (p : Param) (v : F) (ps : List Param) (r : Readings F)
      → HasAll ps r
      → HasAll ps (insert p v r)
  insert-HasAll p v [] r h = tt
  insert-HasAll p v (q ∷ ps) r h = (has-insert p q v r h.0, insert-HasAll p v ps r h.1)

  insert-IsInRange :
      (p : Param) (v : F) (r : Readings F)
      → in_range p v ≡ true
      → IsInRange r
      → IsInRange (insert p v r)
  unfolding IsInRange
  insert-IsInRange p v r good h q w found =
      ground (arith, lookup-insert p q v r, beq_param_iff p q, h q w)

  -- A walk that raises no KeyError, and what it gives: values in range, for the parameters `qs` that had
  -- one, and updates for `us` and the parameters walked.
  pub record IsWalked (ps qs us : List Param) (result : Option (Readings F × Readings F))
      : Type 0 where
    pub current : Readings F
    pub updated : Readings F
    pub walked : result ≡ some (current, updated)
    pub current_good : IsInRange current
    pub updated_good : IsInRange updated
    pub current_all : HasAll qs current
    pub updated_all : HasAll us updated
    pub walked_all : HasAll ps updated

  module _ (laws : FloatLaws F) (literals : LiteralLaws F) where
    pub walk-IsWalked :
        (d : Draws F) (ps qs us : List Param) (current updated : Readings F)
        → IsInRange current
        → IsInRange updated
        → HasAll ps current
        → HasAll qs current
        → HasAll us updated
        → IsWalked ps qs us (walk d current updated ps)
    unfolding walk
    walk-IsWalked d [] qs us current updated cg ug pa qa ua = record {
      current = current;
      updated = updated;
      walked = refl;
      current_good = cg;
      updated_good = ug;
      current_all = qa;
      updated_all = ua;
      walked_all = tt;
    }
    walk-IsWalked d (p ∷ ps) qs us current updated cg ug pa qa ua =
        elim (Option-cases (lookup p current)) [
          | inl missing ↦ absurd (ground (arith, pa.0))
          | inr (v, found) ↦
              let new_val = clamp p (f.add v (d.delta p)) in
              let good = clamp-in_range laws literals p (f.add v (d.delta p)) in
              let rest =
                walk-IsWalked d ps qs (p ∷ us) (insert p new_val current) (insert p new_val updated)
                  (insert-IsInRange p new_val current good cg)
                  (insert-IsInRange p new_val updated good ug)
                  (insert-HasAll p new_val ps current pa.1) (insert-HasAll p new_val qs current qa)
                  (has-insert_self p new_val updated, insert-HasAll p new_val us updated ua) in
              record {
                current = rest.current;
                updated = rest.updated;
                walked = rw (walk, found) rest.walked;
                current_good = rest.current_good;
                updated_good = rest.updated_good;
                current_all = rest.current_all;
                updated_all = rest.updated_all.1;
                walked_all = (rest.updated_all.0, rest.walked_all);
              }
        ]

  initial_from-IsInRange :
      (uniform : Param → F) (current : Readings F) (ps : List Param)
      → ((p : Param) → in_range p (uniform p) ≡ true)
      → IsInRange current
      → IsInRange (initial_from uniform current ps)
  unfolding initial_from
  initial_from-IsInRange uniform current [] drawn h = h
  initial_from-IsInRange uniform current (p ∷ ps) drawn h =
      initial_from-IsInRange uniform (insert p (uniform p) current) ps drawn
        (insert-IsInRange p (uniform p) current (drawn p) h)

  has-initial_from :
      (uniform : Param → F) (q : Param) (current : Readings F) (ps : List Param)
      → has current q ≡ true
      → has (initial_from uniform current ps) q ≡ true
  unfolding initial_from
  has-initial_from uniform q current [] h = h
  has-initial_from uniform q current (p ∷ ps) h =
      has-initial_from uniform q (insert p (uniform p) current) ps
        (has-insert p q (uniform p) current h)

  initial_from-HasAll :
      (uniform : Param → F) (current : Readings F) (ps : List Param)
      → HasAll ps (initial_from uniform current ps)
  unfolding initial_from
  initial_from-HasAll uniform current [] = tt
  initial_from-HasAll uniform current (p ∷ ps) = (
    has-initial_from uniform p (insert p (uniform p) current) ps
        (has-insert_self p (uniform p) current),
    initial_from-HasAll uniform (insert p (uniform p) current) ps,
  )

pub nothing-IsInRange : (F : Type 0) ⦃f : Float F⦄ → IsInRange {F = F} []
unfolding IsInRange lookup
nothing-IsInRange F p v found = ground arith

module _ {F : Type 0} ⦃f : Float F⦄ where
  -- A sensor whose active parameters have values in range, and that has a parameter.
  pub record IsReady (s : Sensor F) : Type 0 where
    pub first : Param
    pub others : List Param
    pub active : s.active_params ≡ first ∷ others
    pub in_range : IsInRange s.current
    pub complete : HasAll s.active_params s.current

  -- The constructor makes a sensor that is ready, unless it has no parameter.
  pub new_sensor-IsReady :
      (config s : Sensor F) (uniform : Param → F)
      → ((p : Param) → in_range p (uniform p) ≡ true)
      → new_sensor config uniform ≡ some s
      → IsReady s
  unfolding new_sensor
  new_sensor-IsReady config s uniform drawn made = elim (List-cases config.active_params) [
    | inl empty ↦ absurd (ground arith)
    | inr (p, ps, full) ↦
        let t : Sensor F = record config {
          current = initial_from uniform [] config.active_params;
          last_published = [];
          fault_cycles_remaining = 0;
        } in
        let same : t ≡ s = ground (arith, full) in
        subst IsReady same (record {
          first = p;
          others = ps;
          active = full;
          in_range =
              initial_from-IsInRange uniform [] config.active_params drawn (nothing-IsInRange F);
          complete = initial_from-HasAll uniform [] config.active_params;
        })
  ]
