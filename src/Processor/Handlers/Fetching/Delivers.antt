-- ===== src/Processor/Handlers/Fetching/Delivers.antt =====
-- What the loop of FetchMissingMessagesMessageProcessor does with the messages of a user who is
-- connected.
use std.Path.{subst}
use web_socketaa_s.Prelude.{
  Dict, ℕ, zero, suc, ◌<◌, String, ◌≡◌, refl, ap, ◌∙◌, Option, some, Bool, true, false, ◌||◌, List,
  [], ◌∷◌, ◌++◌, Result, ok, modify, ◌>>=◌, arith, lookup, eq_iff, get_elem?, length, exists_in,
  All, ◌==◌,
}
use web_socketaa_s.Model.{calc_express_delivery, DeliveryType, Address}
use web_socketaa_s.Model.Message.{Message, MessageContent}
use web_socketaa_s.Processor.{Host, World, Delivery, UserChannel, on_object}
use web_socketaa_s.Processor.Office.{
  is_current_domain_message, is_connector_user, adjust_delivery_type, populate_target_address,
  set_target_address, route, get_route_target_addresses, send_to_addresses, send_to_connector,
  send_or_persist, deliver_message,
}
use web_socketaa_s.Processor.Handlers.Fetching.{to-adjust_delivery_type, to-populate_target_address}

abbrev pub is_about : String → Delivery → Bool
is_about id d = d.message.id == id

pub exists_in-append :
    (p : Delivery → Bool) (xs ys : List Delivery)
    → exists_in p (xs ++ ys) ≡ (exists_in p xs || exists_in p ys)
exists_in-append p [] ys = refl
exists_in-append p (x ∷ xs) ys = ground (arith, exists_in-append p xs ys)

-- The delivery is of a message with this id and content.
abbrev pub IsCopy : String → MessageContent → Delivery → Type 0
IsCopy id content d = (d.message.id ≡ id) × (d.message.content ≡ content)

-- Some deliveries of the message were made, and nothing else changed in the channels and the
-- repository.
pub record Sends (m : Message) (w : World) (p : Result (Unit {0}) × World) : Type 0 where
  pub new : List Delivery
  pub returned : p.0 ≡ ok tt
  pub channels : p.1.channels ≡ w.channels
  pub messages : p.1.messages ≡ w.messages
  pub delivered : p.1.deliveries ≡ new ++ w.deliveries
  pub about : All (IsCopy m.id m.content) new
  pub once : exists_in (is_about m.id) new ≡ true

module _ (h : Host) where
  -- The receiver is a user with a channel that has an address.
  pub record IsConnected (key : String) (channels : Dict UserChannel) : Type 0 where
    pub named : h.strings.blank key ≡ false
    pub user : is_connector_user h (some key) ≡ false
    pub channel : UserChannel
    pub online : lookup key channels ≡ some channel
    pub address : Address
    pub others : List Address
    pub addresses : channel.addresses ≡ address ∷ others

  -- one step of PostOffice.sendToAddresses
  abbrev sent_by : Address → World → Delivery
  sent_by a v =
      let m = set_target_address (some a) v.self in
      record {
        type = calc_express_delivery m.content.feature;
        target = a.connector_name;
        message = m;
      }

  abbrev after_sending : Address → World → World
  after_sending a v = record v {
    self = set_target_address (some a) v.self;
    deliveries = sent_by a v ∷ v.deliveries;
  }

  send_more :
      (m : Message) (w : World) (rest : List Address) (new : List Delivery) (v : World)
      → v.self.id ≡ m.id
      → v.self.content ≡ m.content
      → v.channels ≡ w.channels
      → v.messages ≡ w.messages
      → v.deliveries ≡ new ++ w.deliveries
      → All (IsCopy m.id m.content) new
      → exists_in (is_about m.id) new ≡ true
      → Sends m w (send_to_addresses rest v)
  unfolding send_to_addresses
  send_more m w [] new v id content channels messages delivered about once = record {
    new = new;
    returned = refl;
    channels = channels;
    messages = messages;
    delivered = delivered;
    about = about;
    once = once;
  }
  send_more m w (a ∷ rest) new v id content channels messages delivered about once =
      let d = sent_by a v in
      send_more m w rest (d ∷ new) (after_sending a v) id content channels messages
        (ap (λ x. d ∷ x) delivered) ((id, content), about) (rw once (ground arith))

  send_all :
      (m : Message) (a : Address) (rest : List Address) (w v : World)
      → v.self.id ≡ m.id
      → v.self.content ≡ m.content
      → v.channels ≡ w.channels
      → v.messages ≡ w.messages
      → v.deliveries ≡ w.deliveries
      → Sends m w (send_to_addresses (a ∷ rest) v)
  unfolding send_to_addresses
  send_all m a rest w v id content channels messages delivered =
      let d = sent_by a v in
      send_more m w rest (d ∷ []) (after_sending a v) id content channels messages
        (ap (λ x. d ∷ x) delivered) ((id, content), tt)
        (ground (arith, (eq_iff v.self.id m.id).1 id))

  id-adjust_delivery_type : (m : Message) → (adjust_delivery_type h m).id ≡ m.id
  unfolding adjust_delivery_type
  id-adjust_delivery_type m = ground arith

  content-adjust_delivery_type : (m : Message) → (adjust_delivery_type h m).content ≡ m.content
  unfolding adjust_delivery_type
  content-adjust_delivery_type m = ground arith

  content-populate_target_address :
      (m : Message) → (populate_target_address h m).content ≡ m.content
  unfolding populate_target_address
  content-populate_target_address m = ground arith

  id-populate_target_address : (m : Message) → (populate_target_address h m).id ≡ m.id
  unfolding populate_target_address
  id-populate_target_address m = ground arith

  -- Whatever the delivery type, a connected user has a route.
  module _ (bounded : (n bound : ℕ) → 0 < bound → h.runtime.next_int n bound < bound) where
    picked : (i : ℕ) (xs : List Address) → i < length xs → (a : Address) × (get_elem? xs i ≡ some a)
    picked i [] lt = absurd (omega (arith, lt))
    picked zero (x ∷ xs) lt = (x, refl)
    picked (suc i) (x ∷ xs) lt = picked i xs (omega (arith, lt))

    routes :
        (key : String) (w : World) (to : Option String) (type : DeliveryType)
        → IsConnected key w.channels
        → to ≡ some key
        → (n : ℕ)
        → (a : Address) × (rest : List Address) × (route h to type (record w { used = n })
            ≡ a ∷ rest)
    routes key w to DeliveryType.all c e n =
        (c.address, c.others, rw e (rw c.named (rw c.user (rw c.online c.addresses))))
    routes key w to DeliveryType.any c e n =
        let i = h.runtime.next_int n (length c.channel.addresses) in
        let (a, found) =
          picked i c.channel.addresses
            (bounded n (length c.channel.addresses) (rw c.addresses (omega arith))) in
        (a, [], rw e (rw c.named (rw c.user (rw c.online (rw found refl)))))

    send_to_connector-Sends :
        (key : String) (w : World)
        → IsConnected key w.channels
        → w.self.to ≡ some key
        → Sends w.self w (send_to_connector h w)
    unfolding send_to_connector ◌>>=◌ modify get_route_target_addresses send_or_persist
    send_to_connector-Sends key w c to =
        let m = adjust_delivery_type h w.self in
        let v : World = record w { self = m } in
        let (a, rest, e) =
          routes key v m.to m.meta.delivery_type c (to-adjust_delivery_type h w.self ∙ to) w.used in
        rw e (
          send_all w.self a rest w (record v { used = suc w.used }) (id-adjust_delivery_type w.self)
            (content-adjust_delivery_type w.self) refl refl refl)

    pub deliver_message-Sends :
        (key : String) (m : Message) (w : World)
        → IsConnected key w.channels
        → m.to ≡ some key
        → is_current_domain_message h (populate_target_address h m) ≡ true
        → Sends m w (on_object m (deliver_message h) w)
    unfolding deliver_message on_object ◌>>=◌ modify
    deliver_message-Sends key m w c to current = rw current (
        let n = populate_target_address h m in
        let s =
          send_to_connector-Sends key (record w { self = n }) c
            (to-populate_target_address h m ∙ to) in
        let same = id-populate_target_address m in
        record {
          new = s.new;
          returned = s.returned;
          channels = s.channels;
          messages = s.messages;
          delivered = s.delivered;
          about =
              subst (λ content. All (IsCopy m.id content) s.new) (content-populate_target_address m)
                (subst (λ id. All (IsCopy id n.content) s.new) same s.about);
          once = subst (λ id. exists_in (is_about id) s.new ≡ true) same s.once;
        })
