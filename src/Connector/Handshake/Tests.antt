-- ===== src/Connector/Handshake/Tests.antt =====
-- The first client of a connector authenticates.
use web_socketaa_s.Prelude.{◌≡◌, refl, none, some, true, false, [], ◌∷◌, ◌>>=◌, arith}
use web_socketaa_s.Text.Numbers.{long_to_string}
use web_socketaa_s.Model.{calc_express_delivery, MessageType, MessageFeature}
use web_socketaa_s.Model.Message.{
  Message, AuthClient, AuthClientReply, Payload, new_meta, create_message_content, build,
}
use web_socketaa_s.Connector.{
  Connector, SocketHandler, AuthStatus, init, put_socket, socket, set_auth_status, set_user_id,
  deliver_message,
}
use web_socketaa_s.Connector.Incoming.{auth_client_do_process, add_pending_user}
use web_socketaa_s.Connector.Outgoing.{auth_client_reply_do_process}
use web_socketaa_s.Connector.Events.{connects, after, on_event, init_channel}
use web_socketaa_s.Connector.Invariant.{init-Inv, identity}
use web_socketaa_s.Connector.Reachable.{after-Inv}
use web_socketaa_s.Connector.Tests.{host, clock}
use web_socketaa_s.Connector.Handshake.{auth_client_do_process-online}

abbrev client : AuthClient
client = record { app_id = some "app"; user_id = some "ANZ-1"; token = some "t" }

abbrev read : Message
read =
    build clock 0 none none
      (create_message_content MessageType.auth_client (Payload.auth_client client)
        MessageFeature.fast)
      (new_meta none none)

abbrev granted : AuthClientReply
granted = record { app_id = some "app"; user_id = some "ANZ-1"; is_authenticated = some true }

abbrev reply : Message
reply =
    build clock 1 (some "SYSTEM") (some "connector-01")
      (create_message_content MessageType.auth_client_reply (Payload.auth_client_reply granted)
        MessageFeature.reliable)
      (record (new_meta none none) { note = some "1" })

abbrev request : Message
request = record read {
  from = some "ANZ-1";
  meta = record read.meta { note = some "1" };
  content = record read.content { feature = MessageFeature.reliable };
}

abbrev joined : SocketHandler
joined = record {
  socket_id = 1;
  user_id = none;
  auth_status = AuthStatus.not_authenticated;
  opened = true;
  removed = false;
  sent = [];
}

abbrev connected : Connector
connected = after host init (connects ∷ [])

auth_client_do_process-online_example :
    identity (
      (auth_client_reply_do_process host reply granted
          (auth_client_do_process 1 read client connected).1).1.sockets
        1)
    ≡ some (AuthStatus.authenticated, some "ANZ-1")
unfolding after on_event init_channel ◌>>=◌ put_socket auth_client_do_process socket set_user_id
    set_auth_status add_pending_user deliver_message long_to_string build calc_express_delivery
auth_client_do_process-online_example =
    auth_client_do_process-online host 1 "ANZ-1" read client connected joined request reply granted
      (after-Inv host init (connects ∷ []) init-Inv) (omega arith) refl refl refl refl refl refl
      refl
