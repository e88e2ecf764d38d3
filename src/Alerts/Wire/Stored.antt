-- ===== src/Alerts/Wire/Stored.antt =====
-- From one message at the rule engine to the table of the alert service.
use flood_monitoring_and_man.Common.{
  ℕ, ◌+◌, String, List, [], ◌∷◌, ◌++◌, Bool, true, false, ◌≡◌, refl, string_eq, All, map, length,
  drop, keep_if, Bool-cases, inl, inr, ap, subst, ◌∙◌,
}
use flood_monitoring_and_man.Common.Float.{Float}
use flood_monitoring_and_man.Common.HotState.{HotState}
use flood_monitoring_and_man.Common.Redis.{Redis}
use flood_monitoring_and_man.Wire.Validation.{TelemetryMessage}
use flood_monitoring_and_man.RuleEngine.Models.{Alert, AreaThreshold, Draw}
use flood_monitoring_and_man.RuleEngine.Consumer.{Sent, Engine, process_with}
use flood_monitoring_and_man.RuleEngine.Consumer.Emission.{sent_of, sent-process_with}
use flood_monitoring_and_man.Alerts.Consumer.{Delivery, Service, consume}
use flood_monitoring_and_man.Alerts.Wire.Emitted.{alerts_for, validate_alert-alerts_for}
use flood_monitoring_and_man.Alerts.Wire.Reading.{delivery_of, ReadAs, consume-unreadable}

drop-length : {A : Type 0} (xs ys : List A) → drop (length xs) (xs ++ ys) ≡ ys
drop-length [] ys = refl
drop-length (x ∷ xs) ys = drop-length xs ys

All-keep_if :
    {A : Type 0} (P : A → Type 0) (p : A → Bool) (xs : List A) → All P xs → All P (keep_if p xs)
All-keep_if P p [] h = tt
All-keep_if P p (x ∷ xs) h = elim (Bool-cases (p x)) [
  | inl kept ↦ rw (All, kept) (h.0, All-keep_if P p xs h.1)
  | inr left ↦ rw (All, left) (All-keep_if P p xs h.1)
]

module _ {F R H : Type 0} ⦃f : Float F⦄ ⦃d : Redis R⦄ (draw : ℕ → Draw) (accepts : Alert F → Bool)
    (msg : TelemetryMessage F) (thresholds : List (AreaThreshold F)) (e : Engine F R H) where
  -- The alerts that the producer takes for the message.
  abbrev pub sent_alerts : List (Alert F)
  sent_alerts = keep_if accepts (alerts_for draw msg thresholds e)

module _ {F R H : Type 0} ⦃f : Float F⦄ ⦃d : Redis R⦄ ⦃h : HotState H (TelemetryMessage F)⦄
    (is_datetime : String → Bool) (draw : ℕ → Draw) (accepts : Alert F → Bool)
    (answers : Sent F → Delivery F) (msg : TelemetryMessage F) (thresholds : List (AreaThreshold F))
    (e : Engine F R H) where
  -- What the message adds to the records of the topics, as the alert service reads it.
  abbrev pub new_deliveries : List (Delivery F)
  new_deliveries =
      map (delivery_of is_datetime answers)
        (drop (length e.sent) (process_with draw accepts msg thresholds e).sent)

  pub new_deliveries-sent_alerts :
      new_deliveries
      ≡ map
          (delivery_of is_datetime answers)
          (map sent_of (sent_alerts draw accepts msg thresholds e))
  new_deliveries-sent_alerts =
      ap (λ l. map (delivery_of is_datetime answers) (drop (length e.sent) l))
        (sent-process_with draw accepts msg thresholds e)
      ∙ ap (map (delivery_of is_datetime answers))
          (drop-length e.sent (map sent_of (sent_alerts draw accepts msg thresholds e)))

module _ {F R H : Type 0} ⦃f : Float F⦄ ⦃d : Redis R⦄ ⦃h : HotState H (TelemetryMessage F)⦄
    (is_datetime : String → Bool) (draw : ℕ → Draw)
    (drawn : (n : ℕ) → is_datetime (draw n).now ≡ true) (accepts : Alert F → Bool)
    (answers : Sent F → Delivery F) (msg : TelemetryMessage F) (thresholds : List (AreaThreshold F))
    (e : Engine F R H) where
  pub sent_alerts-ReadAs :
      All (ReadAs is_datetime (is_datetime msg.ts)) (sent_alerts draw accepts msg thresholds e)
  sent_alerts-ReadAs =
      All-keep_if (ReadAs is_datetime (is_datetime msg.ts)) accepts
        (alerts_for draw msg thresholds e)
        (validate_alert-alerts_for is_datetime draw drawn msg thresholds e)

  -- A message whose ts is no time: the alert service drops every alert that the rule engine sends for
  -- it, of whatever severity, and nothing changes but the number of records consumed.
  pub new_deliveries-dropped :
      (s : Service F)
      → s.running ≡ true
      → is_datetime msg.ts ≡ false
      → consume (new_deliveries is_datetime draw accepts answers msg thresholds e) s
        ≡ record s { consumed = s.consumed + length (sent_alerts draw accepts msg thresholds e) }
  new_deliveries-dropped s on unreadable =
      ap (λ ds. consume ds s)
        (new_deliveries-sent_alerts is_datetime draw accepts answers msg thresholds e)
      ∙ consume-unreadable is_datetime answers (sent_alerts draw accepts msg thresholds e) s on (
          subst (λ b. All (ReadAs is_datetime b) (sent_alerts draw accepts msg thresholds e))
            unreadable sent_alerts-ReadAs)
