-- ===== src/Processor/Handlers.antt =====
-- messageprocessors/*.java of the processor: one function for each doProcess. `again` is
-- MessageProcessorService.process, on the message object that is current when it is called.
pub mod Internal
pub mod Groups
pub mod Fetching
pub mod Auth
use web_socketaa_s.Prelude.{
  ℕ, suc, ◌-◌, String, Option, none, some, Bool, true, false, not, ◌&&◌, ◌||◌, List, [], ◌∷◌, ◌++◌,
  pos, negsuc, ℤ, int_le, if◌then◌else◌, Exec, Result, ok, throw, pure, raise, deref, try_catch,
  gets, modify, ◌>>=◌, ◌>>◌, Dict, lookup, insert, length, exists_in, illegal_argument,
  null_pointer, ◌==◌,
}
use web_socketaa_s.Text.{is_blank, is_empty, equals, equals_ignore_case}
use web_socketaa_s.Model.{
  MessageType, MessageState, MessageFeature, DeliveryType, Address, is_internal, is_message,
  is_created, is_processed, is_address_not_found, system, processor, same_long,
}
use web_socketaa_s.Model.Message.{
  Message, MessageHead, MessageContent, MessageMeta, Payload, AuthClient, AuthClientReply,
  MessageRequest, GroupMessage, ConnectorUserId, create_message_content, new_meta, as_payload,
  from_head,
}
use web_socketaa_s.Apps.{ClientApp, get_client_app_by_user_id, is_master_user_id}
use web_socketaa_s.Processor.{
  Host, World, Task, Posted, bad_url, not_sent, failed, replied, on_object, new_message,
  original_address_meta,
}
use web_socketaa_s.Processor.Channels.{add_nullable, remove_nullable}
use web_socketaa_s.Processor.Store.{Page, find_missing_messages, remove}
use web_socketaa_s.Processor.Office.{
  set_to, change, domain_address, domain_of, is_processor_message, is_current_domain_message,
  persist_message, get_route_target_addresses, deliver_message,
}

-- a key of a repository must not be null
unfoldable pub key_of : Option String → Exec World String
key_of none = raise illegal_argument
key_of (some key) = pure key

abbrev set_content : (MessageContent → MessageContent) → Message → Message
set_content f m = record m { content = f m.content }

module _ (h : Host) where
  -- delivers a message that was just built
  abbrev pub deliver_new : Option String → Option String → MessageContent → MessageMeta → Task
  deliver_new from to content meta = do
    m ← new_message h from to content meta
    on_object m (deliver_message h)

  -- AuthClientMessageProcessor.sendReply, fail and pass
  unfoldable pub send_reply : AuthClientReply → Task
  send_reply reply = do
    m ← gets (λ w. w.self)
    original ← deref m.meta.original_address
    deliver_new (some system) original.connector_name
        (create_message_content MessageType.auth_client_reply (Payload.auth_client_reply reply)
          MessageFeature.reliable)
        (record (original_address_meta h) { note = m.meta.note })

  abbrev pub verdict : AuthClient → Bool → AuthClientReply
  verdict client granted = record {
    app_id = client.app_id;
    user_id = client.user_id;
    is_authenticated = some granted;
  }

  -- checkAuthUrl: `thenAccept`, then `exceptionally`; what the latter throws is dropped. Only an
  -- IOException of `post` is caught.
  unfoldable pub on_posted : AuthClient → Posted → Task
  on_posted client bad_url = raise illegal_argument
  on_posted client not_sent = send_reply (verdict client false)
  on_posted client failed = try_catch (send_reply (verdict client false)) (λ _. pure tt)
  on_posted client (replied reply) =
      try_catch
        (try_catch
          (if equals client.app_id reply.app_id && equals client.user_id reply.user_id
            then send_reply reply
            else send_reply (verdict client false))
          (λ _. send_reply (verdict client false)))
        (λ _. pure tt)

  unfoldable pub check_app : AuthClient → Option ClientApp → Task
  check_app client none = send_reply (verdict client false)
  check_app client (some app) =
      if not (equals app.app_id client.app_id)
      then send_reply (verdict client false)
      else if not (equals_ignore_case h.strings (some h.domain_name) (domain_of h client.user_id))
      then send_reply (verdict client false)
      else if not app.auth_enabled
      then send_reply (verdict client true)
      else if is_blank h.strings app.auth_url
      then send_reply (verdict client false)
      else (do url ← deref app.auth_url; on_posted client (h.post url client))

  -- AuthClientMessageProcessor.doProcess
  unfoldable pub auth_client_do_process : AuthClient → Task
  auth_client_do_process client =
      check_app client (get_client_app_by_user_id h.strings h.apps client.user_id)

  abbrev is_master_of : Option String → Option ClientApp → Bool
  is_master_of from none = false
  is_master_of from (some app) = equals app.master_user_id from

  -- CloseConnectionMessageProcessor.doProcess
  unfoldable pub close_connection_do_process : Option String → Task
  close_connection_do_process user_id = do
    m ← gets (λ w. w.self)
    if is_master_of m.from (get_client_app_by_user_id h.strings h.apps user_id)
        then (do
          change (
              set_content
                λ c. record c { payload = Payload.empty; feature = MessageFeature.reliable })
          deliver_message h)
        else pure tt

  -- CustomMessageProcessor.doProcess
  unfoldable pub custom_do_process : MessageRequest → Task
  custom_do_process request = do
    change (λ m.
        set_content
          (λ c. record c {
            payload = Payload.message_forward (record { from = m.from; content = request.content });
          })
          m)
    change (λ m. record m {
      meta = record m.meta {
        confirm_enabled =
            m.content.confirmation_enabled && not (is_blank h.strings m.content.reference);
      };
    })
    deliver_message h

  -- CustomMessageConfirmationProcessor.doProcess
  unfoldable pub confirmation_do_process : Task
  confirmation_do_process = deliver_message h

  -- ProcessorUtils.sendMessageToMasterUser
  unfoldable pub forward_to_master : Task → String → Option ClientApp → Task
  forward_to_master again ref_user_id none = pure tt
  forward_to_master again ref_user_id (some app) =
      if not (equals (some ref_user_id) app.master_user_id) && not (is_empty app.master_user_id)
      then (do change (set_to app.master_user_id); again)
      else pure tt

  unfoldable pub send_message_to_master_user : Task → Option String → Task
  send_message_to_master_user again none = pure tt
  send_message_to_master_user again (some ref) =
      forward_to_master again ref (get_client_app_by_user_id h.strings h.apps (some ref))

  -- UserConnectedMessageProcessor.doProcess
  unfoldable pub user_connected_do_process : Task → Option String → Task
  user_connected_do_process again user_id = do
    m ← gets (λ w. w.self)
    if not (is_processor_message h m) then deliver_message h else do
      if is_created m.state
          then (do
            key ← key_of user_id
            modify (λ w. record w {
              channels =
                  add_nullable h.addresses_with_null key m.meta.original_address
                    (h.runtime.now w.used) w.channels;
              used = suc w.used;
            }))
          else pure tt
      send_message_to_master_user again user_id

  -- UserDisconnectedMessageProcessor.doProcess
  unfoldable pub user_disconnected_do_process : Task → Option String → Task
  user_disconnected_do_process again user_id = do
    m ← gets (λ w. w.self)
    if not (is_processor_message h m) then deliver_message h else do
      if is_created m.state
          then (do
            key ← key_of user_id
            modify (λ w. record w {
              channels = remove_nullable key m.meta.original_address w.channels;
            }))
          else pure tt
      send_message_to_master_user again user_id
