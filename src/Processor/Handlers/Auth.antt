-- ===== src/Processor/Handlers/Auth.antt =====
-- What AuthClientMessageProcessor.doProcess answers to a connector.
pub mod Decision
pub mod Tests
use web_socketaa_s.Prelude.{
  ℕ, suc, String, ◌≡◌, refl, sym, ap, ◌∙◌, ◌↔◌, ◌⊎◌, inl, inr, Option, none, some, Bool, true,
  false, not, ◌&&◌, [], ◌∷◌, Result, ok, throw, pure, deref, try_catch, gets, modify, ◌>>=◌, ◌>>◌,
  arith, Bool-cases, Option-cases, if◌then◌else◌,
}
use web_socketaa_s.Text.{is_blank, equals, equals_ignore_case}
use web_socketaa_s.Model.{
  ExpressDeliveryType, DeliveryType, Address, MessageFeature, MessageType, new_address, equals_iff,
  calc_express_delivery, system,
}
use web_socketaa_s.Model.Message.{
  Message, Payload, AuthClient, AuthClientReply, build, create_message_content,
}
use web_socketaa_s.Apps.{ClientApp, get_client_app_by_user_id}
use web_socketaa_s.Processor.{
  Host, World, Task, Delivery, Posted, not_sent, failed, replied, on_object, new_message,
  original_address_meta,
}
use web_socketaa_s.Processor.Office.{
  domain_of, is_current_domain_message, is_connector_user, adjust_delivery_type,
  populate_target_address, set_target_address, route, populated, get_route_target_addresses,
  send_to_connector, send_or_persist, send_to_addresses, deliver_message, resolve_domain_name,
}
use web_socketaa_s.Processor.Handlers.{
  verdict, send_reply, on_posted, check_app, auth_client_do_process,
}

module _ (h : Host) (c : String) where
  -- This is the name of a connector of this domain: it is not blank, begins with `Connector`, and is
  -- not the user of a client application that is served elsewhere.
  pub record IsLocalConnector : Type 0 where
    pub named : h.strings.blank c ≡ false
    pub connector : is_connector_user h (some c) ≡ true
    pub local : domain_of h (some c) ≡ some h.domain_name

  -- One delivery to the connector, of what is sent apart from its address and delivery type.
  pub record Sent (m : Message) (w : World) (p : Result (Unit {0}) × World) : Type 0 where
    pub message : Message
    pub returned : p.0 ≡ ok tt
    pub delivered :
        p.1.deliveries
        ≡ record { type = ExpressDeliveryType.kafka; target = some c; message = message }
          ∷ w.deliveries
    pub content : message.content ≡ m.content
    pub note : message.meta.note ≡ m.meta.note

  module _ (m : Message) where
    content-adjust_delivery_type : (adjust_delivery_type h m).content ≡ m.content
    unfolding adjust_delivery_type
    content-adjust_delivery_type = ground arith

    note-adjust_delivery_type : (adjust_delivery_type h m).meta.note ≡ m.meta.note
    unfolding adjust_delivery_type
    note-adjust_delivery_type = ground arith

    to-adjust_delivery_type : (adjust_delivery_type h m).to ≡ m.to
    unfolding adjust_delivery_type
    to-adjust_delivery_type = ground arith

  is_kafka :
      (feature : MessageFeature)
      → feature ≡ MessageFeature.reliable
      → calc_express_delivery feature ≡ ExpressDeliveryType.kafka
  unfolding calc_express_delivery
  is_kafka feature e = rw e refl

  sent : Message → Message
  sent m = set_target_address (some (new_address (some h.domain_name) (some c))) m

  one_route :
      (to : Option String) (type : DeliveryType) (w : World)
      → to ≡ some c
      → h.strings.blank c ≡ false
      → is_connector_user h (some c) ≡ true
      → route h to type w ≡ new_address (some h.domain_name) (some c) ∷ []
  one_route to type w e named connector = rw e (rw named (rw connector refl))

  send_to_connector-Sent :
      (w : World)
      → w.self.to ≡ some c
      → w.self.content.feature ≡ MessageFeature.reliable
      → h.strings.blank c ≡ false
      → is_connector_user h (some c) ≡ true
      → Sent w.self w (send_to_connector h w)
  unfolding ◌>>=◌ send_to_connector get_route_target_addresses send_or_persist send_to_addresses
      sent
  send_to_connector-Sent w to reliable named connector =
      let a = adjust_delivery_type h w.self in
      let v : World = record w { self = a } in
      rw
        (one_route a.to a.meta.delivery_type v (to-adjust_delivery_type w.self ∙ to) named
          connector)
        (record {
          message = sent a;
          returned = refl;
          delivered =
              ap (λ t. record { type = t; target = some c; message = sent a } ∷ w.deliveries)
                (is_kafka a.content.feature
                  (ap (λ x. x.feature) (content-adjust_delivery_type w.self) ∙ reliable));
          content = content-adjust_delivery_type w.self;
          note = note-adjust_delivery_type w.self;
        })

  abbrev here : Message → Message
  here m = set_target_address (some (new_address (some h.domain_name) none)) m

  populated_local :
      (m : Message)
      → m.to ≡ some c
      → m.meta.target_address ≡ none
      → domain_of h (some c) ≡ some h.domain_name
      → populate_target_address h m ≡ here m
  unfolding populate_target_address
  populated_local m to untargeted local =
      ap (λ t. populated h t m) untargeted
      ∙ ap (λ d. set_target_address (some (new_address d none)) m) (ap (domain_of h) to ∙ local)

  here-IsCurrent : (m : Message) → is_current_domain_message h (here m) ≡ true
  unfolding is_current_domain_message resolve_domain_name
  here-IsCurrent m = rw (h.strings.same_ignoring_case_refl h.domain_name) (ground arith)

  deliver_message-Sent :
      (m : Message) (w : World)
      → m.to ≡ some c
      → m.meta.target_address ≡ none
      → m.content.feature ≡ MessageFeature.reliable
      → IsLocalConnector
      → Sent m w (on_object m (deliver_message h) w)
  unfolding ◌>>=◌ on_object deliver_message
  deliver_message-Sent m w to untargeted reliable f = rw (populated_local m to untargeted f.local) (
      rw (here-IsCurrent m) (
        let s =
          send_to_connector-Sent (record w { self = here m }) to reliable f.named f.connector in
        record {
          message = s.message;
          returned = s.returned;
          delivered = s.delivered;
          content = s.content;
          note = s.note;
        }))

  -- One delivery to the connector, of this reply with the note of the request.
  pub record Answers (w : World) (reply : AuthClientReply) (p : Result (Unit {0}) × World)
      : Type 0 where
    pub message : Message
    pub returned : p.0 ≡ ok tt
    pub delivered :
        p.1.deliveries
        ≡ record { type = ExpressDeliveryType.kafka; target = some c; message = message }
          ∷ w.deliveries
    pub type : message.content.type ≡ MessageType.auth_client_reply
    pub payload : message.content.payload ≡ Payload.auth_client_reply reply
    pub note : message.meta.note ≡ w.self.meta.note

  answer : AuthClientReply → Option String → World → Message
  answer reply to w =
      build h.runtime w.used (some system) to
        (create_message_content MessageType.auth_client_reply (Payload.auth_client_reply reply)
          MessageFeature.reliable)
        (record (original_address_meta h) { note = w.self.meta.note })

  send_reply-Answers :
      (reply : AuthClientReply) (w : World) (address : Address)
      → IsLocalConnector
      → w.self.meta.original_address ≡ some address
      → address.connector_name ≡ some c
      → Answers w reply (send_reply h reply w)
  unfolding send_reply ◌>>=◌ new_message answer build
  send_reply-Answers reply w address f origin name = rw (ap (deref {S = World}) origin) (
      let m = answer reply address.connector_name w in
      let s = deliver_message-Sent m (record w { used = suc w.used }) name refl refl f in
      record {
        message = s.message;
        returned = s.returned;
        delivered = s.delivered;
        type = ap (λ x. x.type) s.content;
        payload = ap (λ x. x.payload) s.content;
        note = s.note;
      })
