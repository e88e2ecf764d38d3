-- ===== src/Alerts/Consumer.antt =====
-- `AlertConsumer` of services/alert-service/src/alert_service/consumer.py and `AlertPublisher.publish`
-- of publisher.py. The records of the three topics come one after another, each with the database's and
-- the Redis server's answers.
pub mod Replay
pub mod Channels
use flood_monitoring_and_man.Common.{
  ℕ, suc, String, List, [], ◌∷◌, ◌++◌, Option, none, some, Bool, true, false, if◌then◌else◌,
}
use flood_monitoring_and_man.RuleEngine.Models.{Alert, Severity, low, medium, high}
use flood_monitoring_and_man.Alerts.Table.{Table, severity_eq, insert_alert}

-- A Redis channel: `alerts:area:{area_id}` and `alerts:high_severity`.
pub data Channel : Type 0 where
  area_channel : String → Channel
  high_severity : Channel

-- `bad_unicode` is the UnicodeDecodeError of `raw.decode()`, which `_handle` does not catch.
pub data Raw (F : Type 0) : Type 0 where
  valid : Alert F → Raw F
  invalid bad_unicode : Raw F

pub record Delivery (F : Type 0) : Type 0 where
  pub raw : Raw F
  pub now : String
  pub area_exists : Bool
  pub area_published : Bool
  pub high_published : Bool

-- `running` is false once an exception has left the loop over the topics.
pub record Service (F : Type 0) : Type 0 where
  pub table : Table F
  pub published : List (Channel × Alert F)
  pub running : Bool
  pub consumed : ℕ
  pub persisted : ℕ
  pub deduped : ℕ
  pub channel_errors : ℕ

module _ {F : Type 0} where
  abbrev pub new_service : Service F
  new_service = record {
    table = [];
    published = [];
    running = true;
    consumed = 0;
    persisted = 0;
    deduped = 0;
    channel_errors = 0;
  }

  unfoldable pub publish_to : Channel → Alert F → Bool → Service F → Service F
  publish_to channel a true s = record s { published = s.published ++ (channel, a) ∷ [] }
  publish_to channel a false s = record s { channel_errors = suc s.channel_errors }

  unfoldable pub publish : Alert F → Bool → Bool → Service F → Service F
  unfolding publish_to
  publish a area_published high_published s =
      let s' = publish_to (area_channel a.area_id) a area_published s in
      if severity_eq a.severity high then publish_to high_severity a high_published s' else s'

  -- `_handle` from `insert_alert` on; no exception leaves `publish`.
  abbrev pub after_insert : Alert F → Delivery F → Option (Table F × Bool) → Service F → Service F
  after_insert a d none s = record s { running = false }
  after_insert a d (some (table, false)) s = record s { deduped = suc s.deduped }
  after_insert a d (some (table, true)) s =
      publish a d.area_published d.high_published
        (record s { table = table; persisted = suc s.persisted })

  unfoldable pub handle_raw : Raw F → Delivery F → Service F → Service F
  unfolding publish insert_alert
  handle_raw (valid a) d s = after_insert a d (insert_alert d.area_exists d.now a s.table) s
  handle_raw invalid d s = s
  handle_raw bad_unicode d s = record s { running = false }

  unfoldable pub handle : Delivery F → Service F → Service F
  handle d s = handle_raw d.raw d s

  -- The loop of `start`.
  unfoldable pub consume : List (Delivery F) → Service F → Service F
  consume [] s = s
  consume (d ∷ ds) s =
      let rest = consume ds (handle d (record s { consumed = suc s.consumed })) in
      if s.running then rest else s
