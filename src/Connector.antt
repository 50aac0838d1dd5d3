-- ===== src/Connector.antt =====
-- The connector: connector/src/main/java/com/linker/connector. This file has its state, the socket
-- handlers of network/AppSocketHandler.java as objects on a heap, NetworkUserService.java and the
-- sending half of express/PostOffice.java. A handler is referred to by its socket id.
pub mod Refusal
pub mod Handshake
pub mod Users
pub mod Invariant
pub mod Safety
pub mod Delivery
pub mod Reachable
pub mod Incoming
pub mod Outgoing
pub mod Events
pub mod Tests
use web_socketaa_s.Prelude.{
  ℕ, zero, suc, ◌+◌, String, ◌≡◌, refl, Option, none, some, Bool, true, false, not, ◌&&◌, List, [],
  ◌∷◌, ◌++◌, ℤ, pos, negsuc, nat_eq, int_eq, if◌then◌else◌, keep, length, find_first, Exec, ok,
  pure, raise, deref, gets, modify, ◌>>=◌, ◌>>◌, Dict, lookup, insert, delete, null_pointer,
}
use web_socketaa_s.Text.{StringUtils}
use web_socketaa_s.Model.{
  MessageType, MessageState, MessageFeature, ExpressDeliveryType, calc_express_delivery,
  new_address, Address, system, processor,
}
use web_socketaa_s.Model.Message.{
  Message, MessageContent, MessageContentOutput, Payload, Runtime, build, to_content_output,
  new_meta, create_message_content, head, MessageMeta,
}
use web_socketaa_s.Model.Jackson.{Jackson}

-- AuthStatus.java
pub data AuthStatus : Type 0 where
  not_authenticated authenticating authenticated : AuthStatus

-- What the connector is given: the libraries, its ApplicationConfig, and whether the n-th write to
-- a socket reaches the network.
pub record Host : Type 0 where
  pub strings : StringUtils
  pub jackson : Jackson
  pub runtime : Runtime
  pub domain_name : String
  pub connector_name : String
  pub written : ℕ → ℕ → Bool

-- AppSocketHandler; `open` is false once the context is closed, `removed` once the handler has left
-- the pipeline. `sent` holds what was written to the channel, the latest first.
pub record SocketHandler : Type 0 where
  pub socket_id : ℕ
  pub user_id : Option String
  pub auth_status : AuthStatus
  pub opened : Bool
  pub removed : Bool
  pub sent : List MessageContentOutput

-- `deliveries` holds what was put onto the delivery topics, the latest first. `built` counts the
-- messages built.
pub record Connector : Type 0 where
  pub sockets : ℕ → Option SocketHandler
  pub counter : ℕ
  pub users : Dict (List ℕ)
  pub pending_users : Dict (List ℕ)
  pub deliveries : List (ExpressDeliveryType × Message)
  pub built : ℕ

abbrev pub init : Connector
init = record {
  sockets = λ i. none;
  counter = 0;
  users = [];
  pending_users = [];
  deliveries = [];
  built = 0;
}

-- `s.getSocketId().equals(socketId)`
abbrev pub has_id : Option ℤ → ℕ → Bool
has_id none i = false
has_id (some n) i = int_eq (pos i) n

-- The entry of a user, or the empty list of a new one.
abbrev pub entry : Option (List ℕ) → List ℕ
entry none = []
entry (some handlers) = handlers

-- static addUser, removeUser and getUser of NetworkUserService, over one of its two maps
unfoldable pub add_user : Dict (List ℕ) → String → ℕ → Dict (List ℕ)
add_user m user_id i = insert user_id (entry (lookup user_id m) ++ i ∷ []) m

abbrev put_or_remove : Dict (List ℕ) → String → List ℕ → Dict (List ℕ)
put_or_remove m user_id [] = delete user_id m
put_or_remove m user_id (i ∷ handlers) = insert user_id (i ∷ handlers) m

abbrev without : Dict (List ℕ) → String → Option ℤ → Option (List ℕ) → Dict (List ℕ)
without m user_id socket_id none = m
without m user_id socket_id (some handlers) =
    put_or_remove m user_id (keep (λ i. not (has_id socket_id i)) handlers)

unfoldable pub remove_user : Dict (List ℕ) → String → Option ℤ → Dict (List ℕ)
remove_user m user_id socket_id = without m user_id socket_id (lookup user_id m)

unfoldable pub get_user : Dict (List ℕ) → String → Option ℤ → Option ℕ
get_user m user_id socket_id = find_first (has_id socket_id) (entry (lookup user_id m))

-- Writes one handler back to the heap.
unfoldable pub put_socket : SocketHandler → Connector → Connector
put_socket s c = record c { sockets = λ i. if nat_eq s.socket_id i then some s else c.sockets i }

unfoldable pub socket : ℕ → Exec Connector SocketHandler
socket i c = deref (c.sockets i) c

module _ (h : Host) where
  -- AppSocketHandler.sendMessage; the result tells whether the write succeeded
  unfoldable pub send_message : ℕ → MessageContent → Exec Connector Bool
  send_message i content = do
    s ← socket i
    let done = s.opened && h.written i (length s.sent)
    if done
        then modify (put_socket (record s { sent = to_content_output content ∷ s.sent }))
        else pure tt
    pure done

-- AppSocketHandler.close, setAuthStatus and setUserId
unfoldable pub close : ℕ → Exec Connector (Unit {0})
close i = do s ← socket i; modify (put_socket (record s { opened = false }))

unfoldable pub set_auth_status : ℕ → AuthStatus → Exec Connector (Unit {0})
set_auth_status i status = do s ← socket i; modify (put_socket (record s { auth_status = status }))

unfoldable pub set_user_id : ℕ → Option String → Exec Connector (Unit {0})
set_user_id i user_id = do s ← socket i; modify (put_socket (record s { user_id = user_id }))

-- PostOffice.deliverMessage: onto the delivery topics, by the delivery of the message's feature
unfoldable pub deliver_message : Message → Exec Connector (Unit {0})
deliver_message m =
    modify
      (λ c. record c { deliveries = (calc_express_delivery m.content.feature, m) ∷ c.deliveries })

module _ (h : Host) where
  -- Message.builder() … build()
  unfoldable pub new_message :
      Option String → Option String → MessageContent → MessageMeta → Exec Connector Message
  new_message from to content meta c =
      (ok (build h.runtime c.built from to content meta), record c { built = suc c.built })

  abbrev pub own_address : Option ℤ → Address
  own_address socket_id = record {
    domain_name = some h.domain_name;
    connector_name = some h.connector_name;
    socket_id = socket_id;
  }

  -- PostOffice.deliverStateChangedMessage
  unfoldable pub deliver_state_changed_message : Message → MessageState → Exec Connector (Unit {0})
  deliver_state_changed_message m new_state = do
    changed ←
        new_message (some system) (some processor)
          (create_message_content MessageType.message_state_changed
            (Payload.message_state_changed (head m) m.content.payload new_state)
            MessageFeature.reliable)
          (new_meta (some (new_address (some h.domain_name) (some h.connector_name))) none)
    deliver_message changed
