-- ===== src/Model/Jackson/Plain.antt =====
-- A concrete reading of payloads, used to run the model: a value of the class asked for is read as
-- itself, and any other payload cannot be read.
use web_socketaa_s.Prelude.{String, Option, none, some, refl, ℤ}
use web_socketaa_s.Model.{MessageState}
use web_socketaa_s.Model.Message.{
  Payload, MessageHead, AuthClient, AuthClientReply, MessageRequest, GroupMessage,
  GroupConnectorMessage,
}
use web_socketaa_s.Model.Jackson.{Jackson}

abbrev to_auth_client : Payload → Option AuthClient
to_auth_client (Payload.auth_client a) = some a
to_auth_client _ = none

abbrev to_auth_client_reply : Payload → Option AuthClientReply
to_auth_client_reply (Payload.auth_client_reply a) = some a
to_auth_client_reply _ = none

abbrev to_user_connected : Payload → Option (Option String)
to_user_connected (Payload.user_connected u) = some u
to_user_connected _ = none

abbrev to_user_disconnected : Payload → Option (Option String)
to_user_disconnected (Payload.user_disconnected u) = some u
to_user_disconnected _ = none

abbrev to_message_request : Payload → Option MessageRequest
to_message_request (Payload.message_request r) = some r
to_message_request _ = none

abbrev to_message_confirmation : Payload → Option (Option String)
to_message_confirmation (Payload.message_confirmation r) = some r
to_message_confirmation _ = none

abbrev to_group_message : Payload → Option GroupMessage
to_group_message (Payload.group_message g) = some g
to_group_message _ = none

abbrev to_group_connector_message : Payload → Option GroupConnectorMessage
to_group_connector_message (Payload.group_connector_message g) = some g
to_group_connector_message _ = none

abbrev to_fetch_request : Payload → Option (Option ℤ)
to_fetch_request (Payload.fetch_missing_messages_request n) = some n
to_fetch_request _ = none

abbrev to_fetch_complete : Payload → Option (Option ℤ)
to_fetch_complete (Payload.fetch_missing_messages_complete n) = some n
to_fetch_complete _ = none

abbrev to_close_connection : Payload → Option (Option String)
to_close_connection (Payload.close_connection u) = some u
to_close_connection _ = none

abbrev to_empty : Payload → Option (Unit {0})
to_empty Payload.empty = some tt
to_empty _ = none

abbrev to_message : Payload → Option (MessageHead × Payload)
to_message (Payload.message h p) = some (h, p)
to_message _ = none

abbrev to_state_changed : Payload → Option (MessageHead × Payload × MessageState)
to_state_changed (Payload.message_state_changed h p s) = some (h, p, s)
to_state_changed _ = none

abbrev pub plain_jackson : Jackson
plain_jackson = record {
  to_auth_client = to_auth_client;
  to_auth_client_reply = to_auth_client_reply;
  to_user_connected = to_user_connected;
  to_user_disconnected = to_user_disconnected;
  to_message_request = to_message_request;
  to_message_confirmation = to_message_confirmation;
  to_group_message = to_group_message;
  to_group_connector_message = to_group_connector_message;
  to_fetch_request = to_fetch_request;
  to_fetch_complete = to_fetch_complete;
  to_close_connection = to_close_connection;
  to_empty = to_empty;
  to_message = to_message;
  to_state_changed = to_state_changed;
  auth_client_lem = λ a. refl;
  auth_client_reply_lem = λ a. refl;
  user_connected_lem = λ u. refl;
  user_disconnected_lem = λ u. refl;
  message_request_lem = λ r. refl;
  message_confirmation_lem = λ r. refl;
  group_message_lem = λ g. refl;
  message_lem = λ h p. refl;
  state_changed_lem = λ h p s. refl;
}
