-- ===== src/Processor/Handlers/Groups.antt =====
-- CustomGroupMessageProcessor.java: a message for several users is sent once to each connector of
-- this domain, and once to each other domain. Sets and maps are lists in the order of insertion.
pub mod Partition
pub mod Tests
use web_socketaa_s.Prelude.{
  String, Option, none, some, Bool, true, false, ◌&&◌, List, [], ◌∷◌, ◌++◌, if◌then◌else◌, Exec,
  pure, gets, ◌>>=◌, ◌>>◌, exists_in, ◌==◌,
}
use web_socketaa_s.Text.{equals, equals_ignore_case}
use web_socketaa_s.Model.{MessageType, DeliveryType, Address, processor, same_long}
use web_socketaa_s.Model.Message.{
  Message, Payload, GroupMessage, ConnectorUserId, create_message_content, new_meta,
}
use web_socketaa_s.Apps.{is_master_user_id}
use web_socketaa_s.Processor.{Host, World, Task, on_object, new_message}
use web_socketaa_s.Processor.Office.{
  domain_of, domain_address, get_route_target_addresses, deliver_message,
}

-- A map from a text that may be null to a set.
abbrev pub Groups {ℓ} : Type ℓ → Type ℓ
Groups A = List (Option String × List A)

module _ {ℓ} {A : Type ℓ} (same : A → A → Bool) where
  -- `set.add(a)`
  abbrev pub put : A → List A → List A
  put a xs = if exists_in (same a) xs then xs else xs ++ a ∷ []

  -- `if (!map.containsKey(k)) map.put(k, new HashSet<>()); map.get(k).add(a)`
  unfoldable pub add_to_group : Option String → A → Groups A → Groups A
  add_to_group k a [] = (k, a ∷ []) ∷ []
  add_to_group k a ((j, xs) ∷ groups) =
      if equals j k then (j, put a xs) ∷ groups else (j, xs) ∷ add_to_group k a groups

abbrev pub same_user : String → String → Bool
same_user a b = a == b

abbrev pub same_connector_user : ConnectorUserId → ConnectorUserId → Bool
same_connector_user a b = (a.user_id == b.user_id) && same_long a.socket_id b.socket_id

-- the users of each domain
unfoldable pub group_by_domain :
    (String → Option String) → List String → Groups String → Groups String
unfolding add_to_group
group_by_domain domain [] groups = groups
group_by_domain domain (user ∷ users) groups =
    group_by_domain domain users (add_to_group same_user (domain user) user groups)

-- the addresses of one user, each under its connector
unfoldable pub group_addresses :
    String → List Address → Groups ConnectorUserId → Groups ConnectorUserId
unfolding add_to_group
group_addresses user [] groups = groups
group_addresses user (address ∷ addresses) groups = group_addresses user addresses (
    add_to_group same_connector_user address.connector_name
      (record { user_id = user; socket_id = address.socket_id }) groups)

module _ (h : Host) where
  -- processUserAddressNotFound
  unfoldable pub process_user_address_not_found : Task → String → Message → GroupMessage → Task
  process_user_address_not_found again user m group = do
    single ←
        new_message h m.from (some user)
          (record {
            type = MessageType.message;
            payload = Payload.message_request (record { to = some user; content = group.content });
            reference = m.content.reference;
            feature = m.content.feature;
            confirmation_enabled = false;
          })
          (new_meta m.meta.original_address none)
    on_object single again

  abbrev is_nil : List Address → Bool
  is_nil [] = true
  is_nil (a ∷ rest) = false

  -- the loop over the users of the current domain
  unfoldable pub group_by_connector :
      Task
      → Message
      → GroupMessage
      → List String
      → Groups ConnectorUserId
      → Exec World (Groups ConnectorUserId)
  group_by_connector again m group [] groups = pure groups
  group_by_connector again m group (user ∷ users) groups = do
    let type =
        if is_master_user_id h.strings h.apps (some user)
        then DeliveryType.any
        else DeliveryType.all
    addresses ← get_route_target_addresses h (some user) type
    if is_nil addresses then process_user_address_not_found again user m group else pure tt
    group_by_connector again m group users (group_addresses user addresses groups)

  -- processConnectorUserMessages, for each connector
  unfoldable pub send_to_connectors : Message → GroupMessage → Groups ConnectorUserId → Task
  send_to_connectors m group [] = pure tt
  send_to_connectors m group ((connector_name, users) ∷ groups) = do
    single ←
        new_message h m.from connector_name
          (record {
            type = MessageType.group_connector_message;
            payload = Payload.group_connector_message (record {
              connector_user_ids = users;
              content = record { from = m.from; content = group.content };
            });
            reference = m.content.reference;
            feature = m.content.feature;
            confirmation_enabled = false;
          })
          (new_meta m.meta.original_address none)
    on_object single (deliver_message h)
    send_to_connectors m group groups

  -- processCurrentDomain
  unfoldable pub process_current_domain : Task → Message → GroupMessage → List String → Task
  process_current_domain again m group users = do
    groups ← group_by_connector again m group users []
    send_to_connectors m group groups

  -- processOtherDomain
  unfoldable pub process_other_domain :
      Task → Option String → Message → GroupMessage → List String → Task
  process_other_domain again domain m group users = do
    sub ←
        new_message h m.from (some processor)
          (create_message_content MessageType.group_message
            (Payload.group_message (record { to = users; content = group.content }))
            m.content.feature)
          (new_meta m.meta.original_address (some (domain_address domain)))
    on_object (record sub { created_at = m.created_at }) again

  -- the loop over the domains
  unfoldable pub process_domains : Task → Message → GroupMessage → Groups String → Task
  process_domains again m group [] = pure tt
  process_domains again m group ((domain, users) ∷ groups) = do
    if equals_ignore_case h.strings (some h.domain_name) domain
        then process_current_domain again m group users
        else process_other_domain again domain m group users
    process_domains again m group groups

  -- CustomGroupMessageProcessor.doProcess
  unfoldable pub group_do_process : Task → GroupMessage → Task
  group_do_process again group = do
    m ← gets (λ w. w.self)
    process_domains again m group (group_by_domain (λ user. domain_of h (some user)) group.to [])
