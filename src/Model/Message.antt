-- ===== src/Model/Message.antt =====
-- Message.java, MessageContent.java, MessageContentOutput.java, MessageMeta.java and messages/*.java.
-- `content` and `meta` are never null: each place that builds a message sets both. What a payload
-- of type `Object` holds is one constructor for each class; a whole message inside a payload is its
-- head, that is all its fields but the payload, beside its own payload.
use web_socketaa_s.Prelude.{
  ℕ, String, Option, none, some, Bool, true, false, List, ℤ, pos, ◌≡◌, refl,
}
use web_socketaa_s.Model.{MessageType, MessageState, MessageFeature, DeliveryType, Address}

pub record MessageMeta : Type 0 where
  pub original_address : Option Address
  pub target_address : Option Address
  pub note : Option String
  pub ttl : Option ℤ
  pub confirm_enabled : Bool
  pub delivery_type : DeliveryType

-- The constructors MessageMeta(original) and MessageMeta(original, target), with the defaults of
-- the other fields.
abbrev pub new_meta : Option Address → Option Address → MessageMeta
new_meta original target = record {
  original_address = original;
  target_address = target;
  note = none;
  ttl = some (pos 10);
  confirm_enabled = false;
  delivery_type = DeliveryType.all;
}

pub record AuthClient : Type 0 where
  pub app_id : Option String
  pub user_id : Option String
  pub token : Option String

pub record AuthClientReply : Type 0 where
  pub app_id : Option String
  pub user_id : Option String
  pub is_authenticated : Option Bool

pub record MessageRequest : Type 0 where
  pub to : Option String
  pub content : Option String

pub record MessageForward : Type 0 where
  pub from : Option String
  pub content : Option String

pub record GroupMessage : Type 0 where
  pub to : List String
  pub content : Option String

pub record ConnectorUserId : Type 0 where
  pub user_id : String
  pub socket_id : Option ℤ

pub record GroupConnectorMessage : Type 0 where
  pub connector_user_ids : List ConnectorUserId
  pub content : MessageForward

pub record MessageHead : Type 0 where
  pub id : String
  pub version : String
  pub type : MessageType
  pub reference : Option String
  pub feature : MessageFeature
  pub confirmation_enabled : Bool
  pub from : Option String
  pub to : Option String
  pub meta : MessageMeta
  pub created_at : ℕ
  pub state : MessageState

pub data Payload : Type 0 where
  -- a value that has not been converted yet: the JSON text of an object, or null
  object : String → Payload
  null : Payload
  empty : Payload
  auth_client : AuthClient → Payload
  auth_client_reply : AuthClientReply → Payload
  user_connected : Option String → Payload
  user_disconnected : Option String → Payload
  message_request : MessageRequest → Payload
  message_forward : MessageForward → Payload
  message_confirmation : Option String → Payload
  group_message : GroupMessage → Payload
  group_connector_message : GroupConnectorMessage → Payload
  fetch_missing_messages_request : Option ℤ → Payload
  fetch_missing_messages_complete : Option ℤ → Payload
  close_connection : Option String → Payload
  message_content : MessageType → Payload → Option String → Payload
  message : MessageHead → Payload → Payload
  message_state_changed : MessageHead → Payload → MessageState → Payload

pub record MessageContent : Type 0 where
  pub type : MessageType
  pub payload : Payload
  pub reference : Option String
  pub feature : MessageFeature
  pub confirmation_enabled : Bool

pub record MessageContentOutput : Type 0 where
  pub type : MessageType
  pub payload : Payload
  pub reference : Option String

-- MessageContent.toContentOutput
unfoldable pub to_content_output : MessageContent → MessageContentOutput
to_content_output c = record { type = c.type; payload = c.payload; reference = c.reference }

-- MessageUtils.createMessageContent without a reference
abbrev pub create_message_content : MessageType → Payload → MessageFeature → MessageContent
create_message_content type payload feature = record {
  type = type;
  payload = payload;
  reference = none;
  feature = feature;
  confirmation_enabled = true;
}

pub record Message : Type 0 where
  pub id : String
  pub version : String
  pub content : MessageContent
  pub from : Option String
  pub to : Option String
  pub meta : MessageMeta
  pub created_at : ℕ
  pub state : MessageState

abbrev pub head : Message → MessageHead
head m = record {
  id = m.id;
  version = m.version;
  type = m.content.type;
  reference = m.content.reference;
  feature = m.content.feature;
  confirmation_enabled = m.content.confirmation_enabled;
  from = m.from;
  to = m.to;
  meta = m.meta;
  created_at = m.created_at;
  state = m.state;
}

abbrev pub from_head : MessageHead → Payload → Message
from_head h payload = record {
  id = h.id;
  version = h.version;
  content = record {
    type = h.type;
    payload = payload;
    reference = h.reference;
    feature = h.feature;
    confirmation_enabled = h.confirmation_enabled;
  };
  from = h.from;
  to = h.to;
  meta = h.meta;
  created_at = h.created_at;
  state = h.state;
}

-- A message as the payload of another, `data = message`.
abbrev pub as_payload : Message → Payload
as_payload m = Payload.message (head m) m.content.payload

-- What the Java runtime supplies: `UUID.randomUUID()`, the clock and `Random.nextInt(bound)`, each
-- at the n-th use.
pub record Runtime : Type 0 where
  pub uuid : ℕ → String
  pub now : ℕ → ℕ
  pub next_int : ℕ → ℕ → ℕ

-- Message.builder() … build(), at the n-th use of the runtime
unfoldable pub build :
    Runtime → ℕ → Option String → Option String → MessageContent → MessageMeta → Message
build r n from to content meta = record {
  id = r.uuid n;
  version = "0.1.0";
  content = content;
  from = from;
  to = to;
  meta = meta;
  created_at = r.now n;
  state = MessageState.created;
}

from_head-head : (m : Message) → from_head (head m) m.content.payload ≡ m
from_head-head m = refl
