-- ===== src/Connector/Safety.antt =====
-- The agreement of maps and handlers holds after any events, and what it means for delivery.
use web_socketaa_s.Prelude.{ℕ, String, Option, none, some, Bool, List, [], ◌∷◌, Exec}
use web_socketaa_s.Prelude.Effects.Keeps.{Keeps, keeps_rules, Keeps-bind, Keeps-modify}
use web_socketaa_s.Model.{MessageType}
use web_socketaa_s.Model.Message.{Message, GroupConnectorMessage, ConnectorUserId}
use web_socketaa_s.Connector.{Host, Connector}
use web_socketaa_s.Connector.Incoming.{
  user_disconnected_do_process, default_incoming_do_process, incoming_processor,
  process_incoming_message,
}
use web_socketaa_s.Connector.Outgoing.{
  close_found, close_connection_do_process, on_written, send_or_report, default_outgoing_do_process,
  user_message, group_connector_do_process, outgoing_processor, process_single,
  process_outgoing_message, on_message_arrived,
}
use web_socketaa_s.Connector.Invariant.{
  Inv, primitive_rules, deliver_state_changed_message-Inv, socket-Inv,
}
use web_socketaa_s.Connector.Invariant.Handlers.{
  converted-Inv, forget_user-Inv, auth_client_do_process-Inv,
}
use web_socketaa_s.Connector.Invariant.Replies.{auth_client_reply_do_process-Inv}

close_found-Inv : (o : Option ℕ) → Keeps Inv (close_found o)
unfolding close_found
close_found-Inv none = search primitive_rules
close_found-Inv (some i) = search primitive_rules

module _ (h : Host) where
  user_disconnected_do_process-Inv :
      (i : ℕ) (m : Message) (user_id : Option String)
      → Keeps Inv (user_disconnected_do_process i m user_id)
  unfolding user_disconnected_do_process
  user_disconnected_do_process-Inv i m user_id =
      search (primitive_rules, Keeps-modify, forget_user-Inv) depth 8

  default_incoming_do_process-Inv :
      (i : ℕ) (m : Message) → Keeps Inv (default_incoming_do_process h i m)
  unfolding default_incoming_do_process
  default_incoming_do_process-Inv i m = search (primitive_rules, socket-Inv) depth 8

  ruleset incoming_rules = (
    primitive_rules, converted-Inv, auth_client_do_process-Inv, user_disconnected_do_process-Inv,
    default_incoming_do_process-Inv,
  )

  incoming_processor-Inv :
      (i : ℕ) (m : Message) (type : MessageType) → Keeps Inv (incoming_processor h i m type)
  unfolding incoming_processor
  incoming_processor-Inv i m MessageType.auth_client = search incoming_rules
  incoming_processor-Inv i m MessageType.user_disconnected = search incoming_rules
  incoming_processor-Inv i m _ = search incoming_rules

  pub process_incoming_message-Inv :
      (i : ℕ) (m : Message) → Keeps Inv (process_incoming_message h i m)
  unfolding process_incoming_message
  process_incoming_message-Inv i m = search (primitive_rules, incoming_processor-Inv)

  close_connection_do_process-Inv : (m : Message) → Keeps Inv (close_connection_do_process m)
  unfolding close_connection_do_process
  close_connection_do_process-Inv m = search (primitive_rules, close_found-Inv) depth 8

  on_written-Inv : (m : Message) (success : Bool) → Keeps Inv (on_written h m success)
  unfolding on_written
  on_written-Inv m success = search (primitive_rules, deliver_state_changed_message-Inv)

  send_or_report-Inv : (m : Message) (o : Option ℕ) → Keeps Inv (send_or_report h m o)
  unfolding send_or_report
  send_or_report-Inv m none = search (primitive_rules, deliver_state_changed_message-Inv)
  send_or_report-Inv m (some i) = search (primitive_rules, on_written-Inv)

  default_outgoing_do_process-Inv : (m : Message) → Keeps Inv (default_outgoing_do_process h m)
  unfolding default_outgoing_do_process
  default_outgoing_do_process-Inv m = search (primitive_rules, send_or_report-Inv) depth 8

  group_connector_do_process-Inv :
      (process : Message → Exec Connector (Unit {0})) (m : Message) (g : GroupConnectorMessage)
      (users : List ConnectorUserId)
      → ((m' : Message) → Keeps Inv (process m'))
      → Keeps Inv (group_connector_do_process h process m g users)
  unfolding group_connector_do_process user_message
  group_connector_do_process-Inv process m g [] k = search primitive_rules
  group_connector_do_process-Inv process m g (user ∷ users) k =
      Keeps-bind _ _ (search primitive_rules)
        λ single. Keeps-bind _ _ (k single) λ _. group_connector_do_process-Inv process m g users k

  outgoing_processor-Inv :
      (process : Message → Exec Connector (Unit {0})) (m : Message) (type : MessageType)
      → ((m' : Message) → Keeps Inv (process m'))
      → Keeps Inv (outgoing_processor h process m type)
  unfolding outgoing_processor
  outgoing_processor-Inv process m MessageType.auth_client_reply k =
      search (primitive_rules, converted-Inv, auth_client_reply_do_process-Inv)
  outgoing_processor-Inv process m MessageType.close_connection k =
      search (primitive_rules, converted-Inv, close_connection_do_process-Inv)
  outgoing_processor-Inv process m MessageType.group_connector_message k =
      search (primitive_rules, converted-Inv, group_connector_do_process-Inv)
  outgoing_processor-Inv process m _ k = search default_outgoing_do_process-Inv

  process_single-Inv : (m : Message) → Keeps Inv (process_single h m)
  unfolding process_single
  process_single-Inv m = search (keeps_rules, outgoing_processor-Inv)

  process_outgoing_message-Inv : (m : Message) → Keeps Inv (process_outgoing_message h m)
  unfolding process_outgoing_message
  process_outgoing_message-Inv m = search (process_single-Inv, outgoing_processor-Inv)

  pub on_message_arrived-Inv : (o : Option Message) → Keeps Inv (on_message_arrived h o)
  unfolding on_message_arrived
  on_message_arrived-Inv none = search keeps_rules
  on_message_arrived-Inv (some m) =
      search (primitive_rules, process_outgoing_message-Inv, deliver_state_changed_message-Inv)
