-- ===== src/Connector/Tests.antt =====
-- Runs of the connector, and the theorems about it at concrete inputs.
use web_socketaa_s.Prelude.{
  ℕ, ◌≡◌, ◌≢◌, refl, none, some, true, List, [], ◌∷◌, ◌⊎◌, ◌>>=◌, lookup, insert, delete,
}
use web_socketaa_s.Text.Plain.{plain}
use web_socketaa_s.Model.{MessageType, MessageFeature}
use web_socketaa_s.Model.Message.{
  Message, MessageContent, Payload, Runtime, new_meta, create_message_content, build,
}
use web_socketaa_s.Model.Jackson.Plain.{plain_jackson}
use web_socketaa_s.Connector.{
  Host, Connector, init, AuthStatus, put_socket, socket, send_message, close, set_auth_status,
  set_user_id, deliver_message, new_message, add_user, remove_user, get_user,
}
use web_socketaa_s.Connector.Incoming.{
  add_pending_user, converted, auth_client_do_process, process_incoming_message, incoming_processor,
}
use web_socketaa_s.Text.Numbers.{parse_long, long_to_string}
use web_socketaa_s.Connector.Outgoing.{
  default_outgoing_do_process, on_message_arrived, auth_client_reply_do_process,
  finish_authentication, on_pending, parsed_note, outgoing_processor, process_single,
  process_outgoing_message,
}
use web_socketaa_s.Connector.Events.{
  Event, connects, reads, leaves, arrives, after, on_event, init_channel, channel_read,
}
use web_socketaa_s.Connector.Invariant.{Inv, init-Inv, identity}
use web_socketaa_s.Connector.Reachable.{after-Inv}
use web_socketaa_s.Connector.Delivery.{default_outgoing_do_process-sockets}
use web_socketaa_s.Connector.Delivery.Accounts.{on_message_arrived-accounts, Written, Reported}

abbrev pub clock : Runtime
clock = record { uuid = λ n. "id"; now = λ n. n; next_int = λ n bound. 0 }

abbrev pub host : Host
host = record {
  strings = plain;
  jackson = plain_jackson;
  runtime = clock;
  domain_name = "domain-01";
  connector_name = "connector-01";
  written = λ i n. true;
}

abbrev auth_content : MessageContent
auth_content =
    create_message_content MessageType.auth_client
      (Payload.auth_client
        (record { app_id = some "app"; user_id = some "ANZ-1"; token = some "t" }))
      MessageFeature.fast

abbrev reply : Message
reply =
    build clock 0 (some "SYSTEM") (some "connector-01")
      (create_message_content MessageType.auth_client_reply
        (Payload.auth_client_reply
          (record { app_id = some "app"; user_id = some "ANZ-1"; is_authenticated = some true }))
        MessageFeature.reliable)
      (record (new_meta none none) { note = some "1" })

-- A client that connects, authenticates and leaves again.
abbrev session : List Event
session = connects ∷ reads 1 auth_content ∷ arrives (some reply) ∷ leaves 1 ∷ []

after-Inv_example : Inv (after host init session)
after-Inv_example = after-Inv host init session init-Inv

abbrev chat : Message
chat =
    build clock 1 (some "ANZ-2") (some "ANZ-1")
      (create_message_content MessageType.message Payload.empty MessageFeature.reliable)
      (new_meta none (
        some (record {
          domain_name = some "domain-01";
          connector_name = some "connector-01";
          socket_id = none;
        })))

-- Two clients connect, and the first authenticates.
abbrev signed_in : List Event
signed_in = connects ∷ connects ∷ reads 1 auth_content ∷ arrives (some reply) ∷ []

abbrev online : Connector
online = after host init signed_in

online_test : identity (online.sockets 1) ≡ some (AuthStatus.authenticated, some "ANZ-1")
unfolding after on_event init_channel channel_read process_incoming_message ◌>>=◌ put_socket socket
    send_message close set_auth_status set_user_id deliver_message new_message add_user remove_user
    get_user add_pending_user converted auth_client_do_process auth_client_reply_do_process
    finish_authentication on_pending parsed_note outgoing_processor process_single
    process_outgoing_message on_message_arrived build parse_long long_to_string lookup insert delete
    incoming_processor
online_test = refl

stranger_test : identity (online.sockets 2) ≡ some (AuthStatus.not_authenticated, none)
unfolding after on_event init_channel channel_read process_incoming_message ◌>>=◌ put_socket socket
    send_message close set_auth_status set_user_id deliver_message new_message add_user remove_user
    get_user add_pending_user converted auth_client_do_process auth_client_reply_do_process
    finish_authentication on_pending parsed_note outgoing_processor process_single
    process_outgoing_message on_message_arrived build parse_long long_to_string lookup insert delete
    incoming_processor
stranger_test = refl

online-Inv : Inv online
online-Inv = after-Inv host init signed_in init-Inv

default_outgoing_do_process-sockets_example :
    (default_outgoing_do_process host chat online).1.sockets 2 ≡ online.sockets 2
default_outgoing_do_process-sockets_example =
    default_outgoing_do_process-sockets host chat online 2 online-Inv stranger_ne
  where
    stranger_ne : identity (online.sockets 2) ≢ some (AuthStatus.authenticated, chat.to)
    stranger_ne e = cc (stranger_test, e)

on_message_arrived-accounts_example :
    ((i : ℕ) × Written host online (on_message_arrived host (some chat) online).1 i chat)
    ⊎ Reported host (on_message_arrived host (some chat) online).1 chat
unfolding build
on_message_arrived-accounts_example =
    on_message_arrived-accounts host chat online refl online-Inv refl
