-- ===== src/Express.antt =====
-- messagedelivery/KafkaExpressDelivery.java and RedisKafkaCache.java of linker-common-lib: the
-- records of a partition are handed to the listener, and their keys are remembered until the offset
-- is committed. Polling, committing and the producer are Kafka's.
pub mod Duplicates
pub mod Tests
use web_socketaa_s.Prelude.{
  String, Option, none, some, Bool, true, false, not, ◌&&◌, List, [], ◌∷◌, ◌++◌, if◌then◌else◌,
  exists_in, keep, ◌==◌,
}

-- ConsumerRecord: its key, and the bytes of its value.
pub record ConsumerRecord : Type 0 where
  pub key : String
  pub value : String

-- What the listener was given, the earliest first, and the items of the cache, if there is one.
pub record KafkaExpressDelivery : Type 0 where
  pub arrived : List String
  pub kafka_cache : Option (List String)

abbrev pub is_item : String → List String → Bool
is_item key items = exists_in (λ item. item == key) items

abbrev pub keys_of : List ConsumerRecord → List String
keys_of [] = []
keys_of (r ∷ records) = r.key ∷ keys_of records

-- RedisKafkaCache.addItem, on a set in Redis
unfoldable pub add_item : String → List String → List String
add_item item items = if is_item item items then items else item ∷ items

abbrev pub cache_name : String
cache_name = "KAFKA_CACHE"

-- The set that Redis holds under a key: the cache under its own name, and `redis` has the others. A
-- key that is not there is the empty set.
abbrev pub set_under : (String → List String) → List String → String → List String
set_under redis items key = if key == cache_name then items else redis key

abbrev pub in_all : (String → List String) → List String → List String → String → Bool
in_all redis items [] item = true
in_all redis items (key ∷ keys) item =
    is_item item (set_under redis items key) && in_all redis items keys item

-- RedisKafkaCache.getDuplicateItems: `intersect` takes the texts that it is given for the keys of
-- sets, and returns the items of the cache that all these sets hold too.
unfoldable pub get_duplicate_items :
    (String → List String) → List String → List String → List String
get_duplicate_items redis asked items = keep (in_all redis items asked) items

-- RedisKafkaCache.deleteItems
unfoldable pub delete_items : List String → List String → List String
delete_items deleted items = keep (λ item. not (is_item item deleted)) items

abbrev pub remember : String → Option (List String) → Option (List String)
remember key none = none
remember key (some items) = some (add_item key items)

abbrev pub handed : ConsumerRecord → KafkaExpressDelivery → KafkaExpressDelivery
handed r k = record {
  arrived = k.arrived ++ r.value ∷ [];
  kafka_cache = remember r.key k.kafka_cache;
}

-- the loop of processRecords
unfoldable pub process_each :
    List String → List ConsumerRecord → KafkaExpressDelivery → KafkaExpressDelivery
process_each duplicate_keys [] k = k
process_each duplicate_keys (r ∷ records) k =
    let skipped = process_each duplicate_keys records k in
    let taken = process_each duplicate_keys records (handed r k) in
    if is_item r.key duplicate_keys then skipped else taken

abbrev pub duplicates_of :
    (String → List String) → List ConsumerRecord → Option (List String) → List String
duplicates_of redis records none = []
duplicates_of redis records (some items) = get_duplicate_items redis (keys_of records) items

-- KafkaExpressDelivery.processRecords
unfoldable pub process_records :
    (String → List String) → List ConsumerRecord → KafkaExpressDelivery → KafkaExpressDelivery
process_records redis records k = process_each (duplicates_of redis records k.kafka_cache) records k

abbrev forgotten : List ConsumerRecord → Option (List String) → Option (List String)
forgotten records none = none
forgotten records (some items) = some (delete_items (keys_of records) items)

-- one round of runConsumer: the records of a partition, the commit, and the keys are forgotten
unfoldable pub run_consumer :
    (String → List String) → List ConsumerRecord → KafkaExpressDelivery → KafkaExpressDelivery
run_consumer redis records k =
    let processed = process_records redis records k in
    record processed { kafka_cache = forgotten records processed.kafka_cache }
