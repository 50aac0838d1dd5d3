-- ===== src/Processor/Handlers/Auth/Tests.antt =====
-- An authentication at a concrete processor.
use web_socketaa_s.Prelude.{refl, none, some, true, [], ok, if◌then◌else◌, ◌==◌}
use web_socketaa_s.Text.{equals}
use web_socketaa_s.Text.Plain.{plain}
use web_socketaa_s.Text.Numbers.{parse_long}
use web_socketaa_s.Model.{Address, MessageType, MessageFeature, new_address}
use web_socketaa_s.Model.Message.{AuthClient, Payload, build, create_message_content, new_meta}
use web_socketaa_s.Model.Jackson.Plain.{plain_jackson}
use web_socketaa_s.Apps.{ClientApp, parse, is_valid, get_client_app_by_user_id, resolve_domain}
use web_socketaa_s.Processor.{Host, World, Posted, replied}
use web_socketaa_s.Processor.Office.{is_connector_user}
use web_socketaa_s.Processor.Handlers.{auth_client_do_process}
use web_socketaa_s.Processor.Handlers.Auth.Decision.{
  Verdict, IsAllowed, auth_client_do_process-Verdict,
}

abbrev app : ClientApp
app = record {
  app_name = "ANZ";
  app_id = some "anz-id";
  master_user_id = some "ANZ-1";
  auth_url = some "http://anz";
  auth_enabled = true;
  user_distributions = [];
}

-- The service knows one token.
abbrev service : AuthClient → Posted
service client = replied (record {
  app_id = client.app_id;
  user_id = client.user_id;
  is_authenticated = some (equals client.token (some "secret"));
})

abbrev host : Host
host = record {
  strings = plain;
  jackson = plain_jackson;
  runtime = record { uuid = λ n. "id"; now = λ n. n; next_int = λ n bound. 0 };
  domain_name = "domain-01";
  processor_name = "Processor-01";
  apps = λ name. if name == "ANZ" then some app else none;
  next_domain = λ domain. ok none;
  post = λ url client. service client;
  addresses_with_null = λ addresses. addresses;
  next_domain_ends = λ domain e. cc;
}

abbrev client : AuthClient
client = record { app_id = some "anz-id"; user_id = some "ANZ-7"; token = some "secret" }

abbrev from_connector : Address
from_connector = new_address (some "domain-01") (some "Connector-01")

abbrev world : World
world = record {
  channels = [];
  messages = [];
  deliveries = [];
  used = 2;
  self =
      build host.runtime 1 (some "SYSTEM") (some "Processor")
        (create_message_content MessageType.auth_client (Payload.auth_client client)
          MessageFeature.reliable)
        (new_meta (some from_connector) none);
}

auth_client_do_process-Verdict_example :
    Verdict host client "Connector-01"
      (IsAllowed host client (get_client_app_by_user_id host.strings host.apps client.user_id))
      world
      (auth_client_do_process host client world)
unfolding build is_connector_user resolve_domain get_client_app_by_user_id parse is_valid parse_long
auth_client_do_process-Verdict_example =
    auth_client_do_process-Verdict host client "Connector-01" world from_connector
      (record { named = refl; connector = refl; local = refl }) refl refl (λ url e f. cc f)
