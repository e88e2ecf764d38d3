-- ===== src/Lib.antt =====
-- The services of the Flood Monitoring and Management System: what they do with a sensor's reading,
-- from the sensor to the stored row, the published alert and the dashboard. Paths are from the
-- repository's root.
--
-- How the parts interact. The geo service keeps the regions, cities, areas, sensors and thresholds.
-- The sensor simulator publishes readings. A sensor's reading comes over MQTT to the ingestion
-- gateway, which validates it, looks up the sensor's registered area and sends it to the Kafka
-- topic `telemetry`. Two services consume that topic: the telemetry service writes the readings to
-- TimescaleDB in batches, and the rule engine compares them with the area's thresholds, keeps
-- counters of working sensors in Redis, and sends alerts to Kafka. The alert service stores each
-- alert once and publishes it on Redis channels. Users get tokens from the auth service, and the
-- dashboard's backend (dashboard-bff) shows them the areas of their jurisdiction.
--
-- Files:
--   Wire: the messages that the services exchange. `Measurements`, `TelemetryEnvelope`,
--     `KafkaMessage` and `TelemetryMessage` of services/ingestion-gateway/src/ingestion_gateway/
--     models.py, services/rule-engine/src/rule_engine/models.py and services/telemetry-service/src/
--     telemetry_service/models.py. Wire.Validation is what pydantic checks of them.
--   Ingestion: services/ingestion-gateway/src/ingestion_gateway. SensorCache is sensor_cache.py,
--     Gateway is `_on_message` and `_process` of gateway.py.
--   RuleEngine: services/rule-engine/src/rule_engine. Models is models.py; Trend and Evaluator are
--     threshold_evaluator.py; History is `_update_history` of consumer.py; Redundancy is
--     redundancy_tracker.py; ThresholdCache is threshold_cache.py; Consumer is `_process` and
--     `_emit_alert` of consumer.py; Watchdog is `_scan` of watchdog.py, and its Timing,
--     Unnoticed and Noticed the key that it reads beside the service that writes it too.
--     Evaluator.Expected describes the alerts without the code, and Watchdog.Quiet runs readings after
--     the watchdog.
--   Telemetry: services/telemetry-service/src/telemetry_service. Rows is the arrays of an INSERT of
--     writer.py, Writer its buffer and the loop around it, Consumer is consumer.py and hot_state.py,
--     Queries is the two endpoints of api.py that read.
--   Alerts: services/alert-service/src/alert_service. Table is db.py and the list of api.py, Api the
--     other endpoints of api.py, Consumer is consumer.py and publisher.py. Wire is the alert between
--     the rule engine and this service (models.py).
--   Auth: services/auth-service/src/auth_service. Tables is the helpers of api.py that query the
--     database, Security is security.py, Api the endpoints of api.py.
--   Bff: services/dashboard-bff/src/dashboard_bff. Scope is auth.py; Views is the endpoints of api.py
--     that show telemetry, alerts and channels, with their queries of db.py, and Shown is `_row_to_dict`,
--     which makes texts of floats. Areas is `list_areas` and `area_detail`, Acknowledge is `ack_alert`, Sockets is `ws_alerts` and `get_current_user_ws`, Feed
--     its loop behind the alert service, and HotState is hot_state.py. Token reads the header and the
--     token, and Token.Login puts the auth service before the dashboard.
--   Geo: services/geo-service/src/geo_service. Tables is models.py and the constraints of
--     infra/postgres/init.sql that the statements meet, Api is api.py. Registry and Placement put the
--     ingestion gateway beside it, whose query reads the table of sensors; Effect puts the rule
--     engine's cache of thresholds behind it.
--   Simulator: services/sensor-simulator/src/sensor_simulator. Params and Sensor are sensor.py, Fleet
--     is the ids that `Simulator.start` of simulator.py gives out, and Start the sensors that it makes.
--     Demos is demos.py, and Demos.Redundancy puts the tracker of the rule engine behind its third case.
--   Alerting: the rule engine, the alert service and the dashboard one after another; Reading is the
--     first of them.
--   Common: lists and dictionaries, and the interfaces of what is not in the repository: floating-point
--     numbers (Float), the counters of the Redis server (Redis), its keys of latest readings (HotState)
--     and their expiry (Expiry).
--   Samples: concrete values of these parameters; a module Tests of each part uses them.
--
-- How state is modelled. Each object is a record, each method a function to the next record. A call of
-- a server outside the repository is an argument: its answer comes with the message that causes it, or
-- it is an operation of an interface whose documented laws are hypotheses of the theorems. Time and
-- fresh ids are arguments too. Messages are processed one after another, as the consumers' loops do;
-- where two tasks run beside each other (the consumer and the flush of the batch writer), what happens
-- is any sequence of steps. The coroutines of the gateway may take turns too, which is not modelled. No
-- function needs fuel: every loop is over a list that is given.
--
-- Floats are an abstract ordered type, so rounding is not modelled; `str` of a float is an argument. Ids
-- are UUIDs in one spelling and are compared as texts. JSON texts are modelled by what they decode to.
--
-- Not modelled: the HTTP endpoints of health and metrics, logging, configuration and start-up, the
-- frontend, the SQL schema except where a statement relies on it, the tasks of the sensor simulator,
-- the seed script, and of the dashboard's backend the end of a WebSocket and its heartbeat.
pub mod Common
pub mod Wire
pub mod Samples
pub mod Ingestion
pub mod RuleEngine
pub mod Telemetry
pub mod Alerts
pub mod Auth
pub mod Bff
pub mod Geo
pub mod Simulator
pub mod Alerting
