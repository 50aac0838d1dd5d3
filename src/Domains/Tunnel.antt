-- ===== src/Domains/Tunnel.antt =====
-- models/DomainTunnel.java and the callbacks of services/DomainService.java: the connection of a
-- processor to another domain, where it is a client like any other.
pub mod Fetched
use web_socketaa_s.Prelude.{
  ℕ, suc, String, Option, none, some, Bool, true, false, not, ◌&&◌, List, [], ◌∷◌, ℤ, pos,
  is_positive, if◌then◌else◌, Exec, Result, ok, throw, pure, raise, deref, try_catch, gets, modify,
  ◌>>=◌, ◌>>◌, illegal_argument, process_message,
}
use web_socketaa_s.Model.{MessageType, MessageFeature}
use web_socketaa_s.Model.Message.{
  Message, MessageHead, MessageContent, MessageContentOutput, Payload, AuthClient, AuthClientReply,
  Runtime, build, create_message_content, new_meta,
}
use web_socketaa_s.Model.Jackson.{Jackson}
use web_socketaa_s.Text.{StringUtils}
use web_socketaa_s.Apps.{resolve_domain_app_name, resolve_domain_user_id}

pub record Host : Type 0 where
  pub strings : StringUtils
  pub jackson : Jackson
  pub runtime : Runtime
  pub domain_name : String

-- DomainTunnel, whose callbacks are those of DomainService. `has_client` once doConnect has made a
-- socket client, `is_open` while its channel is open; `sent` holds what was written to it, the
-- latest first; `reconnections` counts the reconnections that were scheduled, `disconnections` the
-- calls of disconnect; `arrived` holds the messages that were handed to PostOffice.onMessageArrived.
pub record DomainTunnel : Type 0 where
  pub has_client : Bool
  pub is_open : Bool
  pub is_authenticated : Bool
  pub sent : List MessageContent
  pub reconnections : ℕ
  pub disconnections : ℕ
  pub arrived : List Message
  pub used : ℕ

-- DomainTunnel.isConnected
unfoldable pub is_connected : DomainTunnel → Bool
is_connected t = t.has_client && t.is_authenticated

-- TcpSocketClient.sendMessage: what is written to a closed channel is lost
unfoldable pub write : MessageContent → DomainTunnel → DomainTunnel
write content t = if t.is_open then record t { sent = content ∷ t.sent } else t

-- DomainTunnel.sendMessage; NotConnectedException is a ProcessMessageException here
unfoldable pub send_message : MessageContent → Exec DomainTunnel (Unit {0})
send_message content = do
  connected ← gets is_connected
  if not connected then raise process_message else modify (write content)

-- DomainTunnel.onDisconnected
unfoldable pub on_disconnected : Exec DomainTunnel (Unit {0})
on_disconnected = modify (λ t. record t { is_open = false; reconnections = suc t.reconnections })

abbrev pub fetch_request : MessageContent
fetch_request =
    create_message_content MessageType.fetch_missing_messages_request
      (Payload.fetch_missing_messages_request (some (pos 2000))) MessageFeature.reliable

-- DomainService.fetchMissingMessages, and onAuthenticated
unfoldable pub fetch_missing_messages : Exec DomainTunnel (Unit {0})
fetch_missing_messages = try_catch (send_message fetch_request) (λ _. pure tt)

unfoldable pub converted : {A : Type 0} → Option A → Exec DomainTunnel A
converted none = raise illegal_argument
converted (some a) = pure a

-- DomainTunnel.handleAuthReplay
unfoldable pub handle_auth_reply : AuthClientReply → Exec DomainTunnel (Unit {0})
handle_auth_reply reply = do
  granted ← deref reply.is_authenticated
  if granted
      then (do modify (λ t. record t { is_authenticated = true }); fetch_missing_messages)
      else modify (λ t. record t { disconnections = suc t.disconnections })

module _ (h : Host) where
  -- DomainTunnel.onConnected and authenticate
  unfoldable pub on_connected : Exec DomainTunnel (Unit {0})
  on_connected = do
    modify (λ t. record t { has_client = true; is_open = true; is_authenticated = false })
    modify (
        write (
          create_message_content MessageType.auth_client
            (Payload.auth_client (record {
              app_id = some (resolve_domain_app_name h.strings (some h.domain_name));
              user_id = some (resolve_domain_user_id h.strings (some h.domain_name));
              token = some "";
            }))
            MessageFeature.reliable))

  -- DomainService.handleInternalMessage: the wrapper starts with a meta of its own
  unfoldable pub handle_internal_message :
      MessageContentOutput → MessageHead × Payload → Exec DomainTunnel (Unit {0})
  handle_internal_message content (i, q) = modify (λ t. record t {
    arrived =
        build h.runtime t.used i.from i.to
          (create_message_content content.type content.payload i.feature)
          (new_meta i.meta.original_address none)
        ∷ t.arrived;
    used = suc t.used;
  })

  -- DomainService.handleFetchingMessagesComplete
  unfoldable pub handle_fetching_messages_complete : Option ℤ → Exec DomainTunnel (Unit {0})
  handle_fetching_messages_complete left_count = do
    count ← deref left_count
    if is_positive count then fetch_missing_messages else pure tt

  -- DomainService.onMessage
  unfoldable pub on_message : MessageContentOutput → MessageType → Exec DomainTunnel (Unit {0})
  on_message content MessageType.internal_message = do
    held ← converted (h.jackson.to_message content.payload)
    handle_internal_message content held
  on_message content MessageType.fetch_missing_messages_complete = do
    left_count ← converted (h.jackson.to_fetch_complete content.payload)
    handle_fetching_messages_complete left_count
  on_message content _ = pure tt

  -- DomainTunnel.onMessageArrived
  unfoldable pub on_message_arrived :
      MessageContentOutput → MessageType → Exec DomainTunnel (Unit {0})
  on_message_arrived content MessageType.auth_client_reply = do
    reply ← converted (h.jackson.to_auth_client_reply content.payload)
    handle_auth_reply reply
  on_message_arrived content type = on_message content type
