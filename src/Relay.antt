-- ===== src/Relay.antt =====
-- How processor and connector fit together: a chat message, from CustomMessageProcessor.doProcess of
-- the processor to the socket of its receiver.
pub mod Sent
pub mod Written
pub mod Tests
use web_socketaa_s.Prelude.{
  not, Dict, ℕ, zero, suc, ◌<◌, ◌&&◌, String, ◌≡◌, refl, sym, ap, ◌∙◌, Option, none, some, Bool,
  true, false, List, [], ◌∷◌, Result, ok, deref, gets, modify, pure, ◌>>=◌, ◌>>◌, if◌then◌else◌,
  arith, lookup, length, get_elem?, nat_eq, nat_eq_iff,
}
use web_socketaa_s.Prelude.Effects
use web_socketaa_s.Prelude.Effects.Keeps.{Keeps, keeps_rules, Keeps-modify}
use std.Path.{subst}
use web_socketaa_s.Text.{is_blank}
use web_socketaa_s.Model.{Address, DeliveryType, calc_express_delivery}
use web_socketaa_s.Model.Message.{
  MessageMeta, Message, MessageContent, MessageContentOutput, MessageRequest, Payload,
  to_content_output,
}
use web_socketaa_s.Processor
use web_socketaa_s.Processor.{World, Delivery, UserChannel}
use web_socketaa_s.Processor.Office.{
  set_to, set_target_address, is_connector_user, resolve_domain_name, is_current_domain_message,
  populate_target_address, adjust_delivery_type, route, get_route_target_addresses,
  send_to_addresses, send_or_persist, send_to_connector, deliver_message,
}
use web_socketaa_s.Processor.Handlers.{custom_do_process}
use web_socketaa_s.Processor.Handlers.Fetching.{to-adjust_delivery_type, to-populate_target_address}
use web_socketaa_s.Connector
use web_socketaa_s.Connector.{Connector, SocketHandler, get_user, socket, put_socket, send_message}
use web_socketaa_s.Connector.Outgoing.{default_outgoing_do_process, send_or_report, on_written}
use web_socketaa_s.Relay.Sent.{IsReachable, custom_do_process-Sent}
use web_socketaa_s.Relay.Written.{written_to, default_outgoing_do_process-writes}

-- A chat message crosses from a processor to the socket of its receiver.
pub record Relayed (h : Processor.Host) (hc : Connector.Host) (request : MessageRequest)
    (address : Address) (w : World) (c : Connector) (i : ℕ) (s : SocketHandler) : Type 0 where
  pub message : Message
  pub delivery : Delivery
  -- the processor puts one message on the way, to the connector of the address
  pub delivered : (custom_do_process h request w).1.deliveries ≡ delivery ∷ w.deliveries
  pub topic : delivery.target ≡ address.connector_name
  pub carried : delivery.message ≡ message
  -- which writes it to the handler: the text and the sender
  pub written :
      (default_outgoing_do_process hc message c).1.sockets i
      ≡ some (record s {
        sent =
            record {
              type = w.self.content.type;
              payload =
                  Payload.message_forward
                    (record { from = w.self.from; content = request.content });
              reference = w.self.content.reference;
            }
            ∷ s.sent;
      })

-- Let a chat message be for the domain of the processor, by its target address or, without one, by
-- its receiver. Let the receiver's name be neither blank nor that of a connector (it does not begin
-- with "Connector", in any case), and let the receiver have one connection; let the connector have a
-- handler for the user and the socket id of this connection, which is open and takes the write; an
-- index that is drawn is below its bound. Then the processor delivers one message, to the connector of
-- the connection, and what the connector writes to the handler is the text of the request with the
-- sender's name.
pub custom_do_process-Relayed :
    (h : Processor.Host) (hc : Connector.Host) (request : MessageRequest) (key : String)
    (address : Address) (w : World) (c : Connector) (i : ℕ) (s : SocketHandler)
    → ((n bound : ℕ) → 0 < bound → h.runtime.next_int n bound < bound)
    → IsReachable h key address w.channels
    → w.self.to ≡ some key
    → is_current_domain_message h w.self ≡ true
    → get_user c.users key address.socket_id ≡ some i
    → c.sockets i ≡ some s
    → s.socket_id ≡ i
    → (s.opened && hc.written i (length s.sent)) ≡ true
    → Relayed h hc request address w c i s
unfolding to_content_output
custom_do_process-Relayed h hc request key address w c i s bounded r to current listed found id
      reaches =
    let x = custom_do_process-Sent h bounded key address request w r to current in
    record {
      message = x.message;
      delivery = record { type = _; target = address.connector_name; message = x.message };
      delivered = x.delivered;
      topic = refl;
      carried = refl;
      written =
          default_outgoing_do_process-writes hc x.message key address c i s x.to x.target listed
            found id reaches
          ∙ ap (λ content. some (written_to hc s content)) x.same;
    }
