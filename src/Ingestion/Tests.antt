-- ===== src/Ingestion/Tests.antt =====
-- The theorems about the ingestion gateway at concrete inputs.
use flood_monitoring_and_man.Common.{ℕ, String, List, [], ◌∷◌, Option, some, true, string_eq, All}
use flood_monitoring_and_man.Samples.{hundredths, payload}
use flood_monitoring_and_man.Ingestion.SensorCache.{SensorCache, row, fetch_from_db}
use flood_monitoring_and_man.Ingestion.Gateway.{
  Decoded, json, bad_json, bad_unicode, Incoming, new_gateway, on_messages,
}
use flood_monitoring_and_man.Ingestion.Gateway.Counted.{
  IsCounted, undecodable, on_messages-IsCounted_from_start,
}
use flood_monitoring_and_man.Ingestion.Gateway.Bound.{IsBinding, sent-IsBinding}

abbrev empty : SensorCache
empty = record { ttl = 60; store = [] }

abbrev incoming : Decoded ℕ → Incoming ℕ
incoming decoded = record {
  decoded = decoded;
  now = 1;
  made_at = 2;
  db = row "a";
  ingested_at = "u";
  produced = true;
}

-- A message that is accepted, one for another area, one that is no JSON, one that is no text.
abbrev some_messages : List (Incoming ℕ)
some_messages =
    incoming (json payload)
    ∷ incoming (json (record payload { area_id = "b" }))
    ∷ incoming bad_json
    ∷ incoming bad_unicode
    ∷ []

abbrev registry : String → Option String
registry s = some "a"

on_messages-IsCounted_from_start_example :
    IsCounted (undecodable some_messages) (on_messages some_messages (new_gateway empty))
on_messages-IsCounted_from_start_example = on_messages-IsCounted_from_start some_messages empty

sent-IsBinding_example :
    All (IsBinding registry) (on_messages some_messages (new_gateway empty)).sent
unfolding fetch_from_db
sent-IsBinding_example =
    sent-IsBinding registry some_messages 60 ((λ area h. h), ((λ area h. h), (tt, (tt, tt))))
