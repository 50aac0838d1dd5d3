-- ===== src/Model.antt =====
-- linker-common-lib: the types that connectors and processors share, and the enumerations' tests.
pub mod Message
pub mod Ttl
pub mod Jackson
use web_socketaa_s.Prelude.{
  ℕ, String, ◌≡◌, ◌↔◌, Option, none, some, Bool, true, false, ◌&&◌, ℤ, pos, negsuc, int_eq,
  int_eq_iff, ◌==◌, eq_iff, arith,
}
use web_socketaa_s.Text.{equals}

-- MessageType.java
pub data MessageType : Type 0 where
  any general_error auth_required user_connected user_disconnected auth_client : MessageType
  auth_client_reply invalid_message message message_confirmation group_message : MessageType
  group_connector_message message_state_changed deliver_failed internal_message : MessageType
  fetch_missing_messages_request fetch_missing_messages_complete close_connection : MessageType

-- `type == MessageType.INTERNAL_MESSAGE`
abbrev pub is_internal : MessageType → Bool
is_internal MessageType.internal_message = true
is_internal _ = false

-- `type == MessageType.MESSAGE`
abbrev pub is_message : MessageType → Bool
is_message MessageType.message = true
is_message _ = false

-- MessageState.java
pub data MessageState : Type 0 where
  created address_not_found network_error processed processor_error connector_error : MessageState

abbrev pub is_created : MessageState → Bool
is_created MessageState.created = true
is_created _ = false

abbrev pub is_address_not_found : MessageState → Bool
is_address_not_found MessageState.address_not_found = true
is_address_not_found _ = false

abbrev pub is_processed : MessageState → Bool
is_processed MessageState.processed = true
is_processed _ = false

-- MessageFeature.java
pub data MessageFeature : Type 0 where
  fast reliable : MessageFeature

abbrev pub is_reliable : MessageFeature → Bool
is_reliable MessageFeature.reliable = true
is_reliable MessageFeature.fast = false

-- DeliveryType.java
pub data DeliveryType : Type 0 where
  any all : DeliveryType

abbrev pub is_all : DeliveryType → Bool
is_all DeliveryType.all = true
is_all DeliveryType.any = false

-- ExpressDeliveryType.java
pub data ExpressDeliveryType : Type 0 where
  rabbitmq kafka nats : ExpressDeliveryType

-- Utils.calcExpressDelivery
unfoldable pub calc_express_delivery : MessageFeature → ExpressDeliveryType
calc_express_delivery MessageFeature.fast = ExpressDeliveryType.nats
calc_express_delivery _ = ExpressDeliveryType.kafka

-- Keywords.java
abbrev pub system : String
system = "SYSTEM"

abbrev pub connector : String
connector = "Connector"

abbrev pub processor : String
processor = "Processor"

-- Address.java; every field may be null
pub record Address : Type 0 where
  pub domain_name : Option String
  pub connector_name : Option String
  pub socket_id : Option ℤ

-- new Address(domainName, connectorName)
abbrev pub new_address : Option String → Option String → Address
new_address domain_name connector_name = record {
  domain_name = domain_name;
  connector_name = connector_name;
  socket_id = some (negsuc 0);
}

abbrev pub same_long : Option ℤ → Option ℤ → Bool
same_long none none = true
same_long (some a) (some b) = int_eq a b
same_long _ _ = false

-- the `equals` that `@EqualsAndHashCode` generates
unfoldable pub address_eq : Address → Address → Bool
address_eq a b =
    equals a.domain_name b.domain_name
    && equals a.connector_name b.connector_name
    && same_long a.socket_id b.socket_id

pub equals_iff : (a b : Option String) → (equals a b ≡ true) ↔ (a ≡ b)
equals_iff none none = ground arith
equals_iff none (some b) = ground arith
equals_iff (some a) none = ground arith
equals_iff (some a) (some b) = ground (arith, eq_iff a b)

pub same_long_iff : (a b : Option ℤ) → (same_long a b ≡ true) ↔ (a ≡ b)
same_long_iff none none = ground arith
same_long_iff none (some b) = ground arith
same_long_iff (some a) none = ground arith
same_long_iff (some a) (some b) = ground (arith, int_eq_iff a b)

pub address_eq_iff : (a b : Address) → (address_eq a b ≡ true) ↔ (a ≡ b)
unfolding address_eq
address_eq_iff a b = ground (
  arith,
  equals_iff a.domain_name b.domain_name,
  equals_iff a.connector_name b.connector_name,
  same_long_iff a.socket_id b.socket_id,
)
