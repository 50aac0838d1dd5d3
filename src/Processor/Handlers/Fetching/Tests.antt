-- ===== src/Processor/Handlers/Fetching/Tests.antt =====
-- A user with two missing messages asks for one.
use web_socketaa_s.Prelude.{refl, none, some, [], ◌∷◌, pos, length, lookup}
use web_socketaa_s.Model.{MessageType, MessageState, MessageFeature, new_address}
use web_socketaa_s.Model.Message.{Message, Payload, build, create_message_content, new_meta}
use web_socketaa_s.Text.Numbers.{parse_long}
use web_socketaa_s.Apps.{parse, is_valid, get_client_app_by_user_id, resolve_domain}
use web_socketaa_s.Processor.{World, UserChannel}
use web_socketaa_s.Processor.Tests.{host, chat}
use web_socketaa_s.Processor.Store.{Page, find_missing_messages}
use web_socketaa_s.Processor.Store.Paged.{Paged}
use web_socketaa_s.Processor.Office.{
  is_current_domain_message, populate_target_address, is_connector_user, resolve_domain_name,
}
use web_socketaa_s.Processor.Handlers.Internal.{fetch_do_process}
use web_socketaa_s.Processor.Handlers.Fetching.Fetched.{Fetched, fetch_do_process-Fetched}

abbrev missing : Message
missing = record chat { state = MessageState.address_not_found }

abbrev later : Message
later = record missing { id = "later"; created_at = 9 }

abbrev request : Message
request =
    build host.runtime 5 (some "ANZ-1") none
      (create_message_content MessageType.fetch_missing_messages_request
        (Payload.fetch_missing_messages_request (some (pos 1))) MessageFeature.reliable)
      (new_meta none none)

abbrev channel : UserChannel
channel = record {
  username = "ANZ-1";
  addresses = new_address (some "domain-01") (some "Connector-01") ∷ [];
  created_at = 0;
}

abbrev world : World
world = record {
  channels = ("ANZ-1", channel) ∷ [];
  messages = later ∷ missing ∷ [];
  deliveries = [];
  used = 6;
  self = request;
}

fetch_do_process-Fetched_example :
    (page : Page) × (paged : Paged (some "ANZ-1") 1 (later ∷ missing ∷ []) page) × Fetched
      page.content
      (length paged.rest)
      world
      (fetch_do_process host (some (pos 1)) world)
unfolding build find_missing_messages is_current_domain_message populate_target_address
    is_connector_user resolve_domain_name lookup resolve_domain get_client_app_by_user_id parse
    is_valid parse_long
fetch_do_process-Fetched_example =
    fetch_do_process-Fetched host "ANZ-1" (λ n bound lt. lt) refl 0 world
      (record {
        named = refl;
        user = refl;
        channel = channel;
        online = refl;
        address = new_address (some "domain-01") (some "Connector-01");
        others = [];
        addresses = refl;
      })
      refl refl ((refl, refl), tt)
