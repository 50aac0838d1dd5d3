-- ===== src/Model/Jackson.antt =====
-- `Utils.convert(data, Class)`: the reading of a payload as a class, done by Jackson, a library
-- outside the repository. `none` is its IllegalArgumentException. The laws say that a value
-- of the class asked for is read as itself.
pub mod Plain
use web_socketaa_s.Prelude.{String, ◌≡◌, Option, some, ℤ}
use web_socketaa_s.Model.{MessageState}
use web_socketaa_s.Model.Message.{
  Payload, MessageHead, AuthClient, AuthClientReply, MessageRequest, GroupMessage,
  GroupConnectorMessage,
}

pub record Jackson : Type 0 where
  pub to_auth_client : Payload → Option AuthClient
  pub to_auth_client_reply : Payload → Option AuthClientReply
  pub to_user_connected : Payload → Option (Option String)
  pub to_user_disconnected : Payload → Option (Option String)
  pub to_message_request : Payload → Option MessageRequest
  pub to_message_confirmation : Payload → Option (Option String)
  pub to_group_message : Payload → Option GroupMessage
  pub to_group_connector_message : Payload → Option GroupConnectorMessage
  pub to_fetch_request : Payload → Option (Option ℤ)
  pub to_fetch_complete : Payload → Option (Option ℤ)
  pub to_close_connection : Payload → Option (Option String)
  pub to_empty : Payload → Option (Unit {0})
  -- the head and the payload of a message, and the new state of a state change
  pub to_message : Payload → Option (MessageHead × Payload)
  pub to_state_changed : Payload → Option (MessageHead × Payload × MessageState)
  pub auth_client_lem : (a : AuthClient) → to_auth_client (Payload.auth_client a) ≡ some a
  pub auth_client_reply_lem :
      (a : AuthClientReply) → to_auth_client_reply (Payload.auth_client_reply a) ≡ some a
  pub user_connected_lem :
      (u : Option String) → to_user_connected (Payload.user_connected u) ≡ some u
  pub user_disconnected_lem :
      (u : Option String) → to_user_disconnected (Payload.user_disconnected u) ≡ some u
  pub message_request_lem :
      (r : MessageRequest) → to_message_request (Payload.message_request r) ≡ some r
  pub message_confirmation_lem :
      (r : Option String) → to_message_confirmation (Payload.message_confirmation r) ≡ some r
  pub group_message_lem : (g : GroupMessage) → to_group_message (Payload.group_message g) ≡ some g
  pub message_lem : (h : MessageHead) (p : Payload) → to_message (Payload.message h p) ≡ some (h, p)
  pub state_changed_lem :
      (h : MessageHead) (p : Payload) (s : MessageState)
      → to_state_changed (Payload.message_state_changed h p s) ≡ some (h, p, s)
