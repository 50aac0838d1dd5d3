-- ===== src/Connector/Refusal/Tests.antt =====
-- A client that sends a message before it has authenticated.
use web_socketaa_s.Prelude.{◌≡◌, refl, none, some, true, false, []}
use web_socketaa_s.Model.{MessageType, MessageFeature}
use web_socketaa_s.Model.Message.{Payload, MessageContent, create_message_content}
use web_socketaa_s.Connector.{SocketHandler, AuthStatus, init, put_socket}
use web_socketaa_s.Connector.Events.{channel_read}
use web_socketaa_s.Connector.Tests.{host}
use web_socketaa_s.Connector.Refusal.{reminded, channel_read-refuses}

abbrev content : MessageContent
content = create_message_content MessageType.message Payload.empty MessageFeature.reliable

abbrev handler : SocketHandler
handler = record {
  socket_id = 1;
  user_id = none;
  auth_status = AuthStatus.not_authenticated;
  opened = true;
  removed = false;
  sent = [];
}

channel_read-refuses_example :
    (let d = (channel_read host 1 content (put_socket handler init)).1 in
      (d.deliveries ≡ []) × (d.sockets 1 ≡ some (reminded host handler)))
unfolding put_socket
channel_read-refuses_example =
    channel_read-refuses host content (put_socket handler init) handler refl refl refl
