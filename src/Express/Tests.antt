-- ===== src/Express/Tests.antt =====
-- The theorem about the Kafka delivery at a concrete input.
use web_socketaa_s.Prelude.{String, ◌≡◌, refl, some, List, [], ◌∷◌, ◌++◌}
use web_socketaa_s.Express.{ConsumerRecord, KafkaExpressDelivery, process_records}
use web_socketaa_s.Express.Duplicates.{values_of, process_records-again}

abbrev records : List ConsumerRecord
records = record { key = "k1"; value = "a" } ∷ record { key = "k2"; value = "b" } ∷ []

abbrev delivery : KafkaExpressDelivery
delivery = record { arrived = []; kafka_cache = some ("k1" ∷ []) }

abbrev redis : String → List String
redis key = []

process_records-again_example :
    (process_records redis records (process_records redis records delivery)).arrived
    ≡ ([] ++ values_of records) ++ values_of records
process_records-again_example = process_records-again redis records delivery refl
