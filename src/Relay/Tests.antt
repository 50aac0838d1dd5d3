-- ===== src/Relay/Tests.antt =====
-- ANZ-2 writes to ANZ-1, who has one connection.
use web_socketaa_s.Prelude.{refl, some, true, false, [], ◌∷◌, pos, lookup}
use web_socketaa_s.Model.{Address}
use web_socketaa_s.Model.Message.{MessageRequest, build}
use web_socketaa_s.Text.Numbers.{parse_long}
use web_socketaa_s.Apps.{parse, is_valid, get_client_app_by_user_id, resolve_domain}
use web_socketaa_s.Processor.{World, UserChannel}
use web_socketaa_s.Processor.Office.{
  is_connector_user, is_current_domain_message, resolve_domain_name,
}
use web_socketaa_s.Processor.Tests as Processor
use web_socketaa_s.Connector.{Connector, SocketHandler, AuthStatus, init, get_user, put_socket}
use web_socketaa_s.Connector.Tests as Connector
use web_socketaa_s.Relay.{Relayed, custom_do_process-Relayed}

abbrev address : Address
address = record {
  domain_name = some "domain-01";
  connector_name = some "connector-01";
  socket_id = some (pos 1);
}

abbrev channel : UserChannel
channel = record { username = "ANZ-1"; addresses = address ∷ []; created_at = 0 }

abbrev world : World
world = record Processor.world { channels = ("ANZ-1", channel) ∷ [] }

abbrev handler : SocketHandler
handler = record {
  socket_id = 1;
  user_id = some "ANZ-1";
  auth_status = AuthStatus.authenticated;
  opened = true;
  removed = false;
  sent = [];
}

abbrev connector : Connector
connector = record (put_socket handler init) { users = ("ANZ-1", 1 ∷ []) ∷ [] }

abbrev request : MessageRequest
request = record { to = some "ANZ-1"; content = some "hello" }

custom_do_process-Relayed_example :
    Relayed Processor.host Connector.host request address world connector 1 handler
unfolding build lookup get_user put_socket is_connector_user is_current_domain_message
    resolve_domain_name resolve_domain get_client_app_by_user_id parse is_valid parse_long
custom_do_process-Relayed_example =
    custom_do_process-Relayed Processor.host Connector.host request "ANZ-1" address world connector
      1 handler (λ n bound lt. lt)
      (record { named = refl; user = refl; channel = channel; online = refl; addresses = refl })
      refl refl refl refl refl refl
