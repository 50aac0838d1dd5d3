-- ===== src/Relay/Sent.antt =====
-- A chat message leaves the processor: CustomMessageProcessor.doProcess for a receiver with one
-- connection.
use web_socketaa_s.Prelude.{
  not, Dict, ℕ, ◌<◌, ◌&&◌, String, ◌≡◌, refl, ap, ◌∙◌, Option, some, true, false, [], ◌∷◌, Result,
  modify, ◌>>=◌, arith, lookup,
}
use std.Path.{subst}
use web_socketaa_s.Text.{is_blank}
use web_socketaa_s.Model.{Address, DeliveryType, calc_express_delivery}
use web_socketaa_s.Model.Message.{Message, MessageContent, MessageRequest, Payload}
use web_socketaa_s.Processor
use web_socketaa_s.Processor.{World, Delivery, UserChannel}
use web_socketaa_s.Processor.Office.{
  set_target_address, is_connector_user, resolve_domain_name, is_current_domain_message,
  populate_target_address, adjust_delivery_type, route, get_route_target_addresses,
  send_to_addresses, send_or_persist, send_to_connector, deliver_message,
}
use web_socketaa_s.Processor.Handlers.{custom_do_process}
use web_socketaa_s.Processor.Handlers.Fetching.{to-adjust_delivery_type, to-populate_target_address}

module _ (h : Processor.Host) where
  -- The receiver has one connection.
  pub record IsReachable (key : String) (address : Address) (channels : Dict UserChannel)
      : Type 0 where
    pub named : h.strings.blank key ≡ false
    pub user : is_connector_user h (some key) ≡ false
    pub channel : UserChannel
    pub online : lookup key channels ≡ some channel
    pub addresses : channel.addresses ≡ address ∷ []

  -- What leaves the processor.
  pub record Sent (key : String) (address : Address) (content : MessageContent) (w : World)
      (p : Result (Unit {0}) × World) : Type 0 where
    pub message : Message
    pub delivered :
        p.1.deliveries
        ≡ record {
          type = calc_express_delivery content.feature;
          target = address.connector_name;
          message = message;
        }
          ∷ w.deliveries
    pub to : message.to ≡ some key
    pub target : message.meta.target_address ≡ some address
    pub same : message.content ≡ content

  module _ (bounded : (n bound : ℕ) → 0 < bound → h.runtime.next_int n bound < bound) where
    drawn : (n : ℕ) → h.runtime.next_int n 1 ≡ 0
    drawn n = omega (arith, bounded n 1 (omega arith))

    one_route :
        (key : String) (address : Address) (w : World) (type : DeliveryType) (to : Option String)
        (n : ℕ)
        → IsReachable key address w.channels
        → to ≡ some key
        → route h to type (record w { used = n }) ≡ address ∷ []
    one_route key address w DeliveryType.all to n r e =
        rw e (rw r.named (rw r.user (rw r.online r.addresses)))
    one_route key address w DeliveryType.any to n r e =
        rw e (rw r.named (rw r.user (rw r.online (rw r.addresses (rw (drawn n) refl)))))

    content-adjust_delivery_type : (m : Message) → (adjust_delivery_type h m).content ≡ m.content
    unfolding adjust_delivery_type
    content-adjust_delivery_type m = ground arith

    send_to_connector-Sent :
        (key : String) (address : Address) (w : World)
        → IsReachable key address w.channels
        → w.self.to ≡ some key
        → Sent key address w.self.content w (send_to_connector h w)
    unfolding send_to_connector ◌>>=◌ modify get_route_target_addresses send_or_persist
        send_to_addresses
    send_to_connector-Sent key address w r to =
        let m = adjust_delivery_type h w.self in
        let v : World = record w { self = m } in
        let to' = to-adjust_delivery_type h w.self ∙ to in
        rw (one_route key address v m.meta.delivery_type m.to w.used r to') (record {
          message = set_target_address (some address) m;
          delivered =
              ap
                (λ (c : MessageContent).
                  record {
                    type = calc_express_delivery c.feature;
                    target = address.connector_name;
                    message = set_target_address (some address) m;
                  }
                  ∷ w.deliveries)
                (content-adjust_delivery_type w.self);
          to = to';
          target = refl;
          same = content-adjust_delivery_type w.self;
        })

    current-populate_target_address :
        (m : Message)
        → is_current_domain_message h (populate_target_address h m) ≡ is_current_domain_message h m
    unfolding is_current_domain_message populate_target_address resolve_domain_name
    current-populate_target_address m = ground arith

    content-populate_target_address :
        (m : Message) → (populate_target_address h m).content ≡ m.content
    unfolding populate_target_address
    content-populate_target_address m = ground arith

    -- The content with which the message of a request leaves.
    abbrev pub forwarded : Message → MessageRequest → MessageContent
    forwarded m request = record m.content {
      payload = Payload.message_forward (record { from = m.from; content = request.content });
    }

    abbrev outgoing : Message → MessageRequest → Message
    outgoing m request = record m {
      content = forwarded m request;
      meta = record m.meta {
        confirm_enabled =
            m.content.confirmation_enabled && not (is_blank h.strings m.content.reference);
      };
    }

    outgoing-IsCurrent :
        (m : Message) (request : MessageRequest)
        → is_current_domain_message h m ≡ true
        → is_current_domain_message h (populate_target_address h (outgoing m request)) ≡ true
    unfolding is_current_domain_message resolve_domain_name
    outgoing-IsCurrent m request current =
        current-populate_target_address (outgoing m request) ∙ current

    pub custom_do_process-Sent :
        (key : String) (address : Address) (request : MessageRequest) (w : World)
        → IsReachable key address w.channels
        → w.self.to ≡ some key
        → is_current_domain_message h w.self ≡ true
        → Sent key address (forwarded w.self request) w (custom_do_process h request w)
    unfolding custom_do_process deliver_message ◌>>=◌ modify
    custom_do_process-Sent key address request w r to current =
        let m = outgoing w.self request in
        let n = populate_target_address h m in
        let s =
          send_to_connector-Sent key address (record w { self = n }) r
            (to-populate_target_address h m ∙ to) in
        rw (outgoing-IsCurrent w.self request current) (
          subst
            (λ content. Sent key address content w (send_to_connector h (record w { self = n })))
            (content-populate_target_address m)
            (record {
              message = s.message;
              delivered = s.delivered;
              to = s.to;
              target = s.target;
              same = s.same;
            }))
