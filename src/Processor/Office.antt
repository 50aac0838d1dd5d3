-- ===== src/Processor/Office.antt =====
-- ProcessorUtils.java and express/PostOffice.java of the processor, on the message that is being
-- processed: to which domain it goes, to which connectors, and where it stays if it cannot go.
use web_socketaa_s.Prelude.{
  ℕ, suc, String, Option, none, some, Bool, not, ◌&&◌, ◌||◌, List, [], ◌∷◌, if◌then◌else◌, Exec,
  Result, ok, throw, pure, raise, deref, gets, modify, ◌>>=◌, ◌>>◌, lookup, get_elem?, length,
  illegal_state, process_message,
}
use web_socketaa_s.Text.{is_blank, equals_ignore_case, starts_with_ignore_case}
use web_socketaa_s.Model.{
  MessageState, DeliveryType, Address, is_internal, is_all, is_reliable, is_processed,
  calc_express_delivery, new_address, connector, processor,
}
use web_socketaa_s.Model.Message.{Message}
use web_socketaa_s.Apps.{is_master_user_id, resolve_domain, resolve_domain_user_id}
use web_socketaa_s.Processor.{Host, World, Task, Delivery, UserChannel}
use web_socketaa_s.Processor.Store.{save}

-- the setters that the handlers use
abbrev pub set_to : Option String → Message → Message
set_to to m = record m { to = to }

abbrev pub set_target_address : Option Address → Message → Message
set_target_address target m = record m { meta = record m.meta { target_address = target } }

abbrev pub change : (Message → Message) → Task
change f = modify (λ w. record w { self = f w.self })

-- new Address(domainName, null, -1L)
abbrev pub domain_address : Option String → Address
domain_address domain_name = new_address domain_name none

-- MessageProcessorService.persistMessage
unfoldable pub persist_message : MessageState → Task
persist_message state w =
    let m = record w.self { state = state } in
    (
      ok tt,
      record w {
        self = m;
        messages =
            if is_reliable m.content.feature && not (is_processed state)
            then save m w.messages
            else w.messages;
      },
    )

-- PostOffice.onMessageDeliveryFailed
unfoldable pub on_message_delivery_failed : Task
on_message_delivery_failed = persist_message MessageState.network_error

-- PostOffice.sendToAddresses: one delivery for each address
unfoldable pub send_to_addresses : List Address → Task
send_to_addresses [] w = (ok tt, w)
send_to_addresses (address ∷ addresses) w =
    let m = set_target_address (some address) w.self in
    let sent : Delivery = record {
      type = calc_express_delivery m.content.feature;
      target = address.connector_name;
      message = m;
    } in
    send_to_addresses addresses (record w { self = m; deliveries = sent ∷ w.deliveries })

unfoldable pub send_or_persist : List Address → Task
send_or_persist [] = persist_message MessageState.address_not_found
send_or_persist (address ∷ addresses) = send_to_addresses (address ∷ addresses)

unfoldable pub returned : Result (Option String) → Exec World (Option String)
returned (ok a) = pure a
returned (throw e) = raise e

module _ (h : Host) where
  -- ProcessorUtils.isConnectorUser and isProcessorMessage
  unfoldable pub is_connector_user : Option String → Bool
  is_connector_user to =
      not (is_blank h.strings to) && starts_with_ignore_case h.strings to connector

  unfoldable pub is_processor_message : Message → Bool
  is_processor_message m =
      not (is_blank h.strings m.to) && starts_with_ignore_case h.strings m.to processor

  -- the domain of a user, as this processor resolves it
  abbrev pub domain_of : Option String → Option String
  domain_of user_id = resolve_domain h.strings h.apps (some h.domain_name) user_id

  -- ProcessorUtils.resolveDomainName
  abbrev target_domain : Option String → Option Address → Option String
  target_domain to none = domain_of to
  target_domain to (some address) = address.domain_name

  unfoldable pub resolve_domain_name : Message → Option String
  resolve_domain_name m = target_domain m.to m.meta.target_address

  -- ProcessorUtils.isCurrentDomainMessage
  unfoldable pub is_current_domain_message : Message → Bool
  unfolding resolve_domain_name
  is_current_domain_message m =
      is_blank h.strings m.to
      || equals_ignore_case h.strings (some h.domain_name) (resolve_domain_name m)

  -- PostOffice.adjustDeliveryType
  unfoldable pub adjust_delivery_type : Message → Message
  adjust_delivery_type m =
      if is_all m.meta.delivery_type
        && (is_internal m.content.type
            || (is_master_user_id h.strings h.apps m.to
                || starts_with_ignore_case h.strings m.to processor))
      then record m { meta = record m.meta { delivery_type = DeliveryType.any } }
      else m

  abbrev pub populated : Option Address → Message → Message
  populated none m = set_target_address (some (domain_address (domain_of m.to))) m
  populated (some address) m = m

  -- PostOffice.populateTargetAddress
  unfoldable pub populate_target_address : Message → Message
  populate_target_address m = populated m.meta.target_address m

  abbrev single : Option Address → List Address
  single none = []
  single (some address) = address ∷ []

  -- the addresses of a channel: all of them, or the one that Utils.getRandomItemInCollection picks
  abbrev pub routed : DeliveryType → ℕ → Option UserChannel → List Address
  routed type n none = []
  routed DeliveryType.all n (some channel) = channel.addresses
  routed DeliveryType.any n (some channel) =
      single (get_elem? channel.addresses (h.runtime.next_int n (length channel.addresses)))

  -- PostOffice.getRouteTargetAddresses, for a receiver that is not blank
  abbrev route_to : String → DeliveryType → World → List Address
  route_to to type w =
      if is_connector_user (some to)
      then new_address (some h.domain_name) (some to) ∷ []
      else routed type w.used (lookup to w.channels)

  abbrev pub route : Option String → DeliveryType → World → List Address
  route none type w = []
  route (some to) type w = if h.strings.blank to then [] else route_to to type w

  unfoldable pub get_route_target_addresses :
      Option String → DeliveryType → Exec World (List Address)
  get_route_target_addresses to type w = (ok (route to type w), record w { used = suc w.used })

  -- PostOffice.sendToConnector
  unfoldable pub send_to_connector : Task
  send_to_connector = do
    change adjust_delivery_type
    m ← gets (λ w. w.self)
    addresses ← get_route_target_addresses m.to m.meta.delivery_type
    send_or_persist addresses

  -- PostOffice.deliverMessageOutsideDomain
  unfoldable pub deliver_message_outside_domain : Task
  deliver_message_outside_domain = do
    m ← gets (λ w. w.self)
    if not (is_internal m.content.type) then raise illegal_state else do
      target ← deref m.meta.target_address
      next ← returned (h.next_domain target.domain_name)
      if is_blank h.strings next
          then raise process_message
          else do change (set_to (some (resolve_domain_user_id h.strings next))); send_to_connector

  -- PostOffice.deliverMessage
  unfoldable pub deliver_message : Task
  deliver_message = do
    change populate_target_address
    m ← gets (λ w. w.self)
    if is_current_domain_message m then send_to_connector else deliver_message_outside_domain
