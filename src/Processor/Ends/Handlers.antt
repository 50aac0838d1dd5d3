-- ===== src/Processor/Ends/Handlers.antt =====
-- The handlers that do not call MessageProcessorService.process again do not run out of fuel; nor
-- do the others, where the calls that they make do not.
use web_socketaa_s.Prelude.{
  ℕ, String, ◌≢◌, ap, Option, none, some, List, [], ◌∷◌, ℤ, pos, suc, Result, ok, throw,
  out_of_fuel, illegal_state, process_message, illegal_argument,
}
use web_socketaa_s.Model.{Address, MessageState, MessageType}
use web_socketaa_s.Model.Message.{Message, AuthClient, AuthClientReply, MessageRequest}
use web_socketaa_s.Apps.{ClientApp}
use web_socketaa_s.Processor.{Host, World, Posted, bad_url, not_sent, failed, replied, on_object}
use web_socketaa_s.Processor.Office.{
  persist_message, get_route_target_addresses, send_to_addresses, send_or_persist,
  send_to_connector, returned, deliver_message_outside_domain, deliver_message,
}
use web_socketaa_s.Processor.Handlers.{
  key_of, send_reply, on_posted, check_app, auth_client_do_process, close_connection_do_process,
  custom_do_process,
}
use web_socketaa_s.Processor.Handlers.Internal.{
  deliver_page, send_complete_message, page_size, fetch_do_process, process_target_not_found,
}
use web_socketaa_s.Processor.Ends.{
  Ends, Any, ends_rules, Ends-pure, Ends-raise, Ends-modify, Ends-bind, Keeps-Any, Ends-weaken,
  Ends-on_object, Ends-new_message,
}

pub state-ne : illegal_state ≢ out_of_fuel
state-ne e = cc

pub message-ne : process_message ≢ out_of_fuel
message-ne e = cc

pub argument-ne : illegal_argument ≢ out_of_fuel
argument-ne e = cc

pub persist_message-Ends : (state : MessageState) → Ends Any (persist_message state)
unfolding persist_message
persist_message-Ends state = record { at = λ w p e. cc }

send_to_addresses-Ends :
    (addresses : List Address) (w : World) → (send_to_addresses addresses w).0 ≢ throw out_of_fuel
unfolding send_to_addresses
send_to_addresses-Ends [] w = λ e. cc
send_to_addresses-Ends (address ∷ addresses) w = send_to_addresses-Ends addresses _

send_or_persist-Ends : (addresses : List Address) → Ends Any (send_or_persist addresses)
unfolding send_or_persist
send_or_persist-Ends [] = persist_message-Ends MessageState.address_not_found
send_or_persist-Ends (address ∷ addresses) = record {
  at = λ w p. send_to_addresses-Ends (address ∷ addresses) w;
}

returned-Ends : (r : Result (Option String)) → r ≢ throw out_of_fuel → Ends Any (returned r)
unfolding returned
returned-Ends (ok a) e = Ends-pure a
returned-Ends (throw x) e = Ends-raise x (λ q. e (ap throw q))

module _ (h : Host) where
  pub route-Ends :
      (to : Option String) (type : web_socketaa_s.Model.DeliveryType)
      → Ends Any (get_route_target_addresses h to type)
  unfolding get_route_target_addresses
  route-Ends to type = record { at = λ w p e. cc }

  send_to_connector-Ends : Ends Any (send_to_connector h)
  unfolding send_to_connector
  send_to_connector-Ends = search (ends_rules, route-Ends, send_or_persist-Ends) depth 9

  deliver_message_outside_domain-Ends : Ends Any (deliver_message_outside_domain h)
  unfolding deliver_message_outside_domain
  deliver_message_outside_domain-Ends =
      search
        (
          ends_rules, send_to_connector-Ends, returned-Ends, h.next_domain_ends, state-ne,
          message-ne,
        )
        depth 12

  pub deliver_message-Ends : Ends Any (deliver_message h)
  unfolding deliver_message
  deliver_message-Ends =
      search (ends_rules, send_to_connector-Ends, deliver_message_outside_domain-Ends) depth 9

  pub deliver_message-Ends-on : (m : Message) → Ends Any (on_object m (deliver_message h))
  deliver_message-Ends-on m =
      Ends-on_object m _ (Ends-weaken (deliver_message h) deliver_message-Ends)

  send_reply-Ends : (reply : AuthClientReply) → Ends Any (send_reply h reply)
  unfolding send_reply
  send_reply-Ends reply = search (ends_rules, Ends-new_message, deliver_message-Ends-on) depth 9

  on_posted-Ends : (client : AuthClient) (p : Posted) → Ends Any (on_posted h client p)
  unfolding on_posted
  on_posted-Ends client bad_url = search (ends_rules, argument-ne)
  on_posted-Ends client not_sent = send_reply-Ends _
  on_posted-Ends client failed = search ends_rules
  on_posted-Ends client (replied reply) = search ends_rules

  check_app-Ends : (client : AuthClient) (o : Option ClientApp) → Ends Any (check_app h client o)
  unfolding check_app
  check_app-Ends client none = search send_reply-Ends
  check_app-Ends client (some app) = search (ends_rules, send_reply-Ends, on_posted-Ends) depth 9

  pub auth_client_do_process-Ends :
      (client : AuthClient) → Ends Any (auth_client_do_process h client)
  unfolding auth_client_do_process
  auth_client_do_process-Ends client = check_app-Ends client _

  pub close_connection_do_process-Ends :
      (user_id : Option String) → Ends Any (close_connection_do_process h user_id)
  unfolding close_connection_do_process
  close_connection_do_process-Ends user_id = search (ends_rules, deliver_message-Ends) depth 9

  pub custom_do_process-Ends : (r : MessageRequest) → Ends Any (custom_do_process h r)
  unfolding custom_do_process
  custom_do_process-Ends r = search (ends_rules, deliver_message-Ends) depth 9

  deliver_page-Ends : (ms : List Message) → Ends Any (deliver_page h ms)
  unfolding deliver_page
  deliver_page-Ends [] = search ends_rules
  deliver_page-Ends (m ∷ ms) =
      Ends-bind _ _ (deliver_message-Ends-on m) (Keeps-Any _)
        λ _. Ends-bind _ _ (Ends-modify _) (Keeps-Any _) λ _. deliver_page-Ends ms

  send_complete_message-Ends : (n : ℕ) → Ends Any (send_complete_message h n)
  unfolding send_complete_message
  send_complete_message-Ends n =
      search (ends_rules, Ends-new_message, deliver_message-Ends) depth 12

  page_size-Ends : (n : ℤ) → Ends Any (page_size n)
  unfolding page_size
  page_size-Ends (pos (suc n)) = search ends_rules
  page_size-Ends _ = search (ends_rules, argument-ne)

  pub fetch_do_process-Ends : (n : Option ℤ) → Ends Any (fetch_do_process h n)
  unfolding fetch_do_process
  fetch_do_process-Ends n =
      search (ends_rules, page_size-Ends, deliver_page-Ends, send_complete_message-Ends) depth 14

  pub key_of-Ends : (o : Option String) → Ends Any (key_of o)
  unfolding key_of
  key_of-Ends none = search (ends_rules, argument-ne)
  key_of-Ends (some k) = search ends_rules

  pub process_target_not_found-Ends : (m : Message) → Ends Any (process_target_not_found h m)
  unfolding process_target_not_found
  process_target_not_found-Ends m =
      search (ends_rules, key_of-Ends, deliver_message-Ends-on) depth 9
