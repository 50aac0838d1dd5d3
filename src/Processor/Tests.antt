-- ===== src/Processor/Tests.antt =====
-- The theorems about the processor at concrete inputs.
use web_socketaa_s.Prelude.{
  ℕ, suc, ◌≤◌, ◌<◌, ◌≡◌, ◌≢◌, refl, ap, Option, none, some, [], ◌∷◌, throw, out_of_fuel, arith,
  length, lookup, All, if◌then◌else◌, ◌==◌,
}
use web_socketaa_s.Text.Plain.{plain}
use web_socketaa_s.Text.Numbers.{parse_long}
use web_socketaa_s.Model.{MessageType, MessageFeature}
use web_socketaa_s.Model.Message.{
  Message, MessageHead, Payload, build, create_message_content, new_meta, as_payload,
}
use web_socketaa_s.Model.Ttl.{touch_message, is_message_alive}
use web_socketaa_s.Model.Jackson.Plain.{plain_jackson}
use web_socketaa_s.Apps.{parse, is_valid, get_client_app_by_user_id, resolve_domain}
use web_socketaa_s.Domains.{Paths, next_domain, next_domain_ends}
use web_socketaa_s.Processor.{Host, World, not_sent}
use web_socketaa_s.Processor.Store.{find_by_id}
use web_socketaa_s.Processor.Office.{
  is_current_domain_message, populate_target_address, is_connector_user,
}
use web_socketaa_s.Processor.Accounts.{Accounted}
use web_socketaa_s.Processor.Handlers.Internal.{deliver_page}
use web_socketaa_s.Processor.Handlers.Fetching.{deliver_page-loses}
use web_socketaa_s.Processor.Service.{process, on_message_arrived}
use web_socketaa_s.Processor.Service.Kept.{Carries}
use web_socketaa_s.Processor.Service.Arrived.{on_message_arrived-Accounted}
use web_socketaa_s.Processor.Service.Completion.{process_ends}

-- One link, from domain-01 to domain-02.
abbrev path : Option Paths
path = some (λ to. if to == "domain-02" then some ("domain-01" ∷ "domain-02" ∷ []) else none)

abbrev pub host : Host
host = record {
  strings = plain;
  jackson = plain_jackson;
  runtime = record { uuid = λ n. "id"; now = λ n. n; next_int = λ n bound. 0 };
  domain_name = "domain-01";
  processor_name = "processor-01";
  apps = λ name. none;
  next_domain = next_domain path;
  post = λ url client. not_sent;
  addresses_with_null = λ addresses. addresses;
  next_domain_ends = next_domain_ends path;
}

abbrev pub chat : Message
chat =
    build host.runtime 1 (some "ANZ-2") (some "ANZ-1")
      (create_message_content MessageType.message
        (Payload.message_request (record { to = some "ANZ-1"; content = some "hello" }))
        MessageFeature.reliable)
      (new_meta none none)

abbrev pub world : World
world = record { channels = []; messages = []; deliveries = []; used = 2; self = chat }

-- How deep messages are nested in a payload.
abbrev depth : Payload → ℕ
depth (Payload.message head p) = suc (depth p)
depth _ = 0

abbrev held_depth : Option (MessageHead × Payload) → ℕ
held_depth none = 0
held_depth (some (i, q)) = depth q

depth_smaller :
    (p : Payload) (i : MessageHead) (q : Payload)
    → host.jackson.to_message p ≡ some (i, q)
    → depth q < depth p
depth_smaller (Payload.message head inner) i q e = omega (arith, ap held_depth e)
depth_smaller p i q e = cc

abbrev nested : Message
nested =
    build host.runtime 2 (some "ANZ-2") (some "ANZ-1")
      (create_message_content MessageType.internal_message (as_payload chat)
        MessageFeature.reliable)
      (new_meta none none)

process_ends_example :
    (n : ℕ) × ((fuel : ℕ) (w : World)
      → n ≤ fuel
      → w.self ≡ nested
      → (process host fuel w).0 ≢ throw out_of_fuel)
process_ends_example = process_ends host depth depth_smaller nested

on_message_arrived-Accounted_example :
    Accounted (Carries chat.id) (length world.deliveries) (on_message_arrived host 2 chat world).1
unfolding build is_message_alive touch_message
on_message_arrived-Accounted_example =
    on_message_arrived-Accounted host 2 chat world (omega arith) refl refl refl

abbrev second : Message
second = record chat { id = "other" }

deliver_page-loses_example :
    ((deliver_page host (chat ∷ second ∷ []) world).1.deliveries ≡ world.deliveries)
    × All
        (λ m. find_by_id m.id (deliver_page host (chat ∷ second ∷ []) world).1.messages ≡ none)
        (chat ∷ second ∷ [])
unfolding build is_current_domain_message populate_target_address is_connector_user lookup
    resolve_domain get_client_app_by_user_id parse is_valid parse_long
deliver_page-loses_example =
    deliver_page-loses host "ANZ-1" (chat ∷ second ∷ []) world ((refl, refl), ((refl, refl), tt))
      (record { named = refl; user = refl; offline = refl })
