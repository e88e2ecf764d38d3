-- ===== src/RuleEngine/Models.antt =====
-- services/rule-engine/src/rule_engine/models.py: thresholds and alerts.
use flood_monitoring_and_man.Common.{String, Option, none}
use flood_monitoring_and_man.Common.Int.{ℤ}

pub record AreaThreshold (F : Type 0) : Type 0 where
  pub area_id : String
  pub parameter : String
  pub warning_lo : Option F
  pub warning_hi : Option F
  pub critical_lo : Option F
  pub critical_hi : Option F

pub data Direction : Type 0 where
  rising falling stable : Direction

pub data Kind : Type 0 where
  threshold malfunction priority : Kind

pub data Severity : Type 0 where
  low medium high : Severity

pub record AlertContext : Type 0 where
  pub redundancy_remaining : Option ℤ
  pub trend : Option Direction
  pub originating_alert_id : Option String

abbrev pub empty_context : AlertContext
empty_context = record { redundancy_remaining = none; trend = none; originating_alert_id = none }

pub record Alert (F : Type 0) : Type 0 where
  pub alert_id : String
  pub kind : Kind
  pub severity : Severity
  pub area_id : String
  pub sensor_id : Option String
  pub parameter : Option String
  pub value : Option F
  pub threshold_value : Option F
  pub ts_event : String
  pub ts_emitted : String
  pub context : AlertContext

-- What `uuid.uuid4()` and `datetime.now()` return when the n-th alert is built.
pub record Draw : Type 0 where
  pub uuid : String
  pub now : String

abbrev pub topic_of : Kind → String
topic_of threshold = "alerts.threshold"
topic_of malfunction = "alerts.malfunction"
topic_of priority = "alerts.priority"

unfoldable pub kafka_topic : {F : Type 0} → Alert F → String
kafka_topic a = topic_of a.kind
