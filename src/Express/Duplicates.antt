-- ===== src/Express/Duplicates.antt =====
-- What KafkaExpressDelivery.java hands to its listener where the same records come twice, as they do
-- where a consumer stops before it has committed their offset.
use web_socketaa_s.Prelude.{
  String, ◌≡◌, refl, ap, ◌∙◌, Option, none, some, Bool, true, false, not, ◌&&◌, List, [], ◌∷◌, ◌++◌,
  ◌==◌, arith, inl, inr, Bool-cases, append_assoc, append_nil, sym, exists_in, keep,
}
use web_socketaa_s.Express.{
  ConsumerRecord, KafkaExpressDelivery, is_item, keys_of, cache_name, set_under, in_all,
  get_duplicate_items, process_each, duplicates_of, process_records, handed,
}

abbrev is_none : List String → Bool
is_none [] = true
is_none (x ∷ xs) = false

-- Redis holds no set under the key of the record.
abbrev pub is_unset : (String → List String) → ConsumerRecord → Bool
is_unset redis r = not (r.key == cache_name) && is_none (redis r.key)

abbrev pub values_of : List ConsumerRecord → List String
values_of [] = []
values_of (r ∷ records) = r.value ∷ values_of records

module _ (redis : String → List String) where
  in_none :
      (key item : String) (items set : List String)
      → redis key ≡ set
      → (not (key == cache_name) && is_none set) ≡ true
      → is_item item (set_under redis items key) ≡ false
  in_none key item items [] found e = elim (Bool-cases (key == cache_name)) [
    | inl cache ↦ cc (rw cache at e)
    | inr other ↦ rw other (ap (is_item item) found)
  ]
  in_none key item items (x ∷ xs) found e = absurd (ground (arith, e))

  in_all-unset :
      (item : String) (items : List String) (records : List ConsumerRecord)
      → exists_in (is_unset redis) records ≡ true
      → in_all redis items (keys_of records) item ≡ false
  in_all-unset item items [] e = cc e
  in_all-unset item items (r ∷ records) e = elim (Bool-cases (is_unset redis r)) [
    | inl unset ↦ rw (in_none r.key item items (redis r.key) refl unset) refl
    | inr set ↦ ground (arith, in_all-unset item items records (ground (arith, set, e)))
  ]

  keep-none :
      (items asked found : List String)
      → ((item : String) → in_all redis items asked item ≡ false)
      → keep (in_all redis items asked) found ≡ []
  keep-none items asked [] never = refl
  keep-none items asked (x ∷ found) never = rw (never x) (keep-none items asked found never)

  no_duplicates :
      (records : List ConsumerRecord) (cache : Option (List String))
      → exists_in (is_unset redis) records ≡ true
      → duplicates_of redis records cache ≡ []
  unfolding get_duplicate_items
  no_duplicates records none e = refl
  no_duplicates records (some items) e =
      keep-none items (keys_of records) items (λ item. in_all-unset item items records e)

  all_handed :
      (records : List ConsumerRecord) (k : KafkaExpressDelivery)
      → (process_each [] records k).arrived ≡ k.arrived ++ values_of records
  unfolding process_each
  all_handed [] k = sym (append_nil k.arrived)
  all_handed (r ∷ records) k =
      all_handed records (handed r k) ∙ append_assoc k.arrived (r.value ∷ []) (values_of records)

  handed_once :
      (records : List ConsumerRecord) (k : KafkaExpressDelivery)
      → exists_in (is_unset redis) records ≡ true
      → (process_records redis records k).arrived ≡ k.arrived ++ values_of records
  unfolding process_records
  handed_once records k e = rw (no_duplicates records k.kafka_cache e) (all_handed records k)

  -- Where Redis holds no set under the key of one of the records, records that are processed once more
  -- are all handed to the listener again, also where there is a cache.
  pub process_records-again :
      (records : List ConsumerRecord) (k : KafkaExpressDelivery)
      → exists_in (is_unset redis) records ≡ true
      → (process_records redis records (process_records redis records k)).arrived
        ≡ (k.arrived ++ values_of records) ++ values_of records
  process_records-again records k e =
      handed_once records (process_records redis records k) e
      ∙ ap (λ (xs : List String). xs ++ values_of records) (handed_once records k e)
