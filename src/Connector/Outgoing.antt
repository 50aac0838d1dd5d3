-- ===== src/Connector/Outgoing.antt =====
-- messageprocessors/outgoing/*.java, the outgoing half of MessageProcessorService.java, and the
-- receiving half of express/PostOffice.java: what the processors send to the connector's clients.
use web_socketaa_s.Prelude.{
  ℕ, String, Option, none, some, Bool, true, not, if◌then◌else◌, ◌&&◌, ◌||◌, ℤ, List, [], ◌∷◌, Exec,
  pure, raise, deref, try_catch, modify, gets, ◌>>=◌, ◌>>◌, number_format, out_of_fuel,
}
use web_socketaa_s.Text.Numbers.{parse_long}
use web_socketaa_s.Model.{MessageType, MessageState, is_reliable, system, processor}
use web_socketaa_s.Model.Message.{
  Message, Payload, AuthClientReply, ConnectorUserId, GroupConnectorMessage, create_message_content,
  new_meta,
}
use web_socketaa_s.Connector.{
  Host, Connector, AuthStatus, add_user, remove_user, get_user, send_message, close,
  set_auth_status, deliver_message, new_message, own_address, deliver_state_changed_message,
}
use web_socketaa_s.Connector.Incoming.{converted}

-- `Long.parseLong(note)`, also of null
unfoldable pub parsed_note : Option ℤ → Exec Connector ℤ
parsed_note none = raise number_format
parsed_note (some n) = pure n

abbrev pub parse_note : Option String → Option ℤ
parse_note none = none
parse_note (some note) = parse_long note

unfoldable pub close_found : Option ℕ → Exec Connector (Unit {0})
close_found none = pure tt
close_found (some i) = close i

-- CloseConnectionMessageProcessor.doProcess
unfoldable pub close_connection_do_process : Message → Exec Connector (Unit {0})
close_connection_do_process m = do
  target ← deref m.meta.target_address
  key ← deref m.to
  found ← gets (λ c. get_user c.users key target.socket_id)
  close_found found

module _ (h : Host) where
  -- AuthClientReplyMessageProcessor.doProcess, on the pending handler that was found
  unfoldable pub finish_authentication :
      Message → AuthClientReply → String → ℤ → ℕ → Exec Connector (Unit {0})
  finish_authentication m reply key socket_id i = do
    modify (λ c. record c { pending_users = remove_user c.pending_users key (some socket_id) })
    granted ← deref reply.is_authenticated
    if granted
        then (do
          modify (λ c. record c { users = add_user c.users key i })
          set_auth_status i AuthStatus.authenticated
          send_message h i m.content
          connected ←
              new_message h (some system) (some processor)
                (create_message_content MessageType.user_connected
                  (Payload.user_connected (some key)) m.content.feature)
                (new_meta (some (own_address h (some socket_id))) none)
          deliver_message connected)
        else (do
          set_auth_status i AuthStatus.not_authenticated
          send_message h i m.content
          close i)

  unfoldable pub on_pending :
      Message → AuthClientReply → String → ℤ → Option ℕ → Exec Connector (Unit {0})
  on_pending m reply key socket_id none = pure tt
  on_pending m reply key socket_id (some i) = finish_authentication m reply key socket_id i

  -- AuthClientReplyMessageProcessor.doProcess
  unfoldable pub auth_client_reply_do_process :
      Message → AuthClientReply → Exec Connector (Unit {0})
  auth_client_reply_do_process m reply = do
    socket_id ← parsed_note (parse_note m.meta.note)
    key ← deref reply.user_id
    pending ← gets (λ c. get_user c.pending_users key (some socket_id))
    on_pending m reply key socket_id pending

  -- the listener that DefaultOutgoingMessageProcessor puts on the write
  unfoldable pub on_written : Message → Bool → Exec Connector (Unit {0})
  on_written m success =
      if m.meta.confirm_enabled || (not success && is_reliable m.content.feature)
      then deliver_state_changed_message h m
          (if success then MessageState.processed else MessageState.network_error)
      else pure tt

  unfoldable pub send_or_report : Message → Option ℕ → Exec Connector (Unit {0})
  send_or_report m none =
      if is_reliable m.content.feature
      then deliver_state_changed_message h m MessageState.address_not_found
      else pure tt
  send_or_report m (some i) = do success ← send_message h i m.content; on_written m success

  -- DefaultOutgoingMessageProcessor.doProcess
  unfoldable pub default_outgoing_do_process : Message → Exec Connector (Unit {0})
  default_outgoing_do_process m = do
    target ← deref m.meta.target_address
    key ← deref m.to
    found ← gets (λ c. get_user c.users key target.socket_id)
    send_or_report m found

  -- the message that GroupConnectorMessageProcessor.processUser builds for one user
  unfoldable pub user_message :
      Message → GroupConnectorMessage → ConnectorUserId → Exec Connector Message
  user_message m group user =
      new_message h m.from (some user.user_id)
        (record {
          type = MessageType.message;
          payload = Payload.message_forward group.content;
          reference = m.content.reference;
          feature = m.content.feature;
          confirmation_enabled = true;
        })
        (new_meta m.meta.original_address (some (own_address h user.socket_id)))

  -- GroupConnectorMessageProcessor.doProcess; `process` is processOutgoingMessage
  unfoldable pub group_connector_do_process :
      (Message → Exec Connector (Unit {0}))
      → Message
      → GroupConnectorMessage
      → List ConnectorUserId
      → Exec Connector (Unit {0})
  group_connector_do_process process m group [] = pure tt
  group_connector_do_process process m group (user ∷ users) = do
    single ← user_message m group user
    process single
    group_connector_do_process process m group users

  -- The processor that the type selects (ANY for any other type), on the converted payload.
  unfoldable pub outgoing_processor :
      (Message → Exec Connector (Unit {0})) → Message → MessageType → Exec Connector (Unit {0})
  outgoing_processor process m MessageType.auth_client_reply = do
    reply ← converted (h.jackson.to_auth_client_reply m.content.payload)
    auth_client_reply_do_process m reply
  outgoing_processor process m MessageType.close_connection = do
    converted (h.jackson.to_empty m.content.payload)
    close_connection_do_process m
  outgoing_processor process m MessageType.group_connector_message = do
    group ← converted (h.jackson.to_group_connector_message m.content.payload)
    group_connector_do_process process m group group.connector_user_ids
  outgoing_processor process m _ = default_outgoing_do_process m

  -- MessageProcessorService.processOutgoingMessage. A group message calls it for each user, with a
  -- message of type MESSAGE, so one level of calls is all there is.
  unfoldable pub process_single : Message → Exec Connector (Unit {0})
  process_single m = outgoing_processor (λ _. raise out_of_fuel) m m.content.type

  unfoldable pub process_outgoing_message : Message → Exec Connector (Unit {0})
  process_outgoing_message m = outgoing_processor process_single m m.content.type

  -- PostOffice.onMessageArrived; `none` is a message that could not be deserialized, which is
  -- logged and dropped
  unfoldable pub on_message_arrived : Option Message → Exec Connector (Unit {0})
  on_message_arrived none = pure tt
  on_message_arrived (some m) = try_catch (process_outgoing_message m) (λ e.
      if is_reliable m.content.feature
      then deliver_state_changed_message h m MessageState.connector_error
      else pure tt)
