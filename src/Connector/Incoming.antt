-- ===== src/Connector/Incoming.antt =====
-- messageprocessors/incomming/*.java and the incoming half of MessageProcessorService.java: what a
-- client sends.
use web_socketaa_s.Prelude.{
  ℕ, String, Option, none, some, Bool, true, false, if◌then◌else◌, pos, Exec, pure, raise, deref,
  try_catch, modify, ◌>>=◌, ◌>>◌, illegal_argument,
}
use web_socketaa_s.Text.{is_empty}
use web_socketaa_s.Text.Numbers.{long_to_string}
use web_socketaa_s.Model.{MessageType, MessageFeature, system}
use web_socketaa_s.Model.Message.{Message, Payload, AuthClient, create_message_content, new_meta}
use web_socketaa_s.Connector.{
  Host, Connector, AuthStatus, add_user, remove_user, socket, send_message, set_auth_status,
  set_user_id, deliver_message, new_message,
}

-- a conversion by Jackson throws where the payload does not fit
unfoldable pub converted : {A : Type 0} → Option A → Exec Connector A
converted none = raise illegal_argument
converted (some a) = pure a

abbrev pub is_new : AuthStatus → Bool
is_new AuthStatus.not_authenticated = true
is_new _ = false

abbrev pub is_authenticated : AuthStatus → Bool
is_authenticated AuthStatus.authenticated = true
is_authenticated _ = false

-- NetworkUserService.addPendingUser; a null key is refused by ConcurrentHashMap
unfoldable pub add_pending_user : Option String → ℕ → Exec Connector (Unit {0})
add_pending_user user_id i = do
  key ← deref user_id
  modify (λ c. record c { pending_users = add_user c.pending_users key i })

-- AuthClientMessageProcessor.doProcess
unfoldable pub auth_client_do_process : ℕ → Message → AuthClient → Exec Connector (Unit {0})
auth_client_do_process i m client = do
  s ← socket i
  if is_new s.auth_status
      then (do
        set_user_id i client.user_id
        set_auth_status i AuthStatus.authenticating
        add_pending_user client.user_id i
        deliver_message (record m {
          from = client.user_id;
          meta = record m.meta { note = some (long_to_string (pos i)) };
          content = record m.content { feature = MessageFeature.reliable };
        }))
      else pure tt

-- UserDisconnectedMessageProcessor.doProcess
unfoldable pub user_disconnected_do_process :
    ℕ → Message → Option String → Exec Connector (Unit {0})
user_disconnected_do_process i m user_id = if is_empty user_id then pure tt else do
  key ← deref user_id
  modify (λ c. record c {
    users = remove_user c.users key (some (pos i));
    pending_users = remove_user c.pending_users key (some (pos i));
  })
  deliver_message m

module _ (h : Host) where
  -- DefaultIncomingMessageProcessor.doProcess
  unfoldable pub default_incoming_do_process : ℕ → Message → Exec Connector (Unit {0})
  default_incoming_do_process i m = do
    s ← socket i
    if is_authenticated s.auth_status then deliver_message m else do
      refusal ←
          new_message h (some system) none
            (create_message_content MessageType.auth_required Payload.empty MessageFeature.reliable)
            (new_meta none none)
      send_message h i refusal.content
      pure tt

  -- MessageProcessor.process for the processor that the type selects (ANY for any other type): the
  -- payload is converted, then processed
  unfoldable pub incoming_processor : ℕ → Message → MessageType → Exec Connector (Unit {0})
  incoming_processor i m MessageType.auth_client = do
    client ← converted (h.jackson.to_auth_client m.content.payload)
    auth_client_do_process i m client
  incoming_processor i m MessageType.user_disconnected = do
    user_id ← converted (h.jackson.to_user_disconnected m.content.payload)
    user_disconnected_do_process i m user_id
  incoming_processor i m _ = default_incoming_do_process i m

  -- MessageProcessorService.processIncomingMessage, with the catch of IncomingMessageProcessor: the
  -- client gets its content back as a GENERAL_ERROR
  unfoldable pub process_incoming_message : ℕ → Message → Exec Connector (Unit {0})
  process_incoming_message i m =
      try_catch (incoming_processor i m m.content.type)
        (λ e. do send_message h i (record m.content { type = MessageType.general_error }); pure tt)
