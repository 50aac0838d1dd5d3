-- ===== src/Connector/Invariant.antt =====
-- What holds of a connector between two events: the two maps of NetworkUserService.java agree with
-- the handlers that they refer to. One rule for each primitive action.
pub mod Handlers
pub mod Replies
use web_socketaa_s.Prelude.{
  ℕ, suc, ◌+◌, ◌≤◌, ◌<◌, String, ◌≡◌, refl, Option, none, some, Bool, true, false, not, ◌&&◌, ◌||◌,
  List, [], ◌∷◌, ℤ, pos, arith, nat_eq, nat_eq_iff, if◌then◌else◌, Dict, ◌==◌, eq_iff, Exec, ok,
  throw, pure, raise, deref, modify, gets, ◌>>=◌, ◌>>◌, lookup,
}
use web_socketaa_s.Prelude.Effects.Keeps.{Keeps, keeps_rules, Keeps-deref, Keeps-modify}
use web_socketaa_s.Model.{MessageState}
use web_socketaa_s.Model.Message.{
  to_content_output, Message, MessageContent, MessageMeta, MessageContentOutput,
}
use web_socketaa_s.Connector.{
  Host, Connector, SocketHandler, AuthStatus, init, add_user, remove_user, get_user, has_id, socket,
  put_socket, send_message, close, deliver_message, new_message, deliver_state_changed_message,
}
use web_socketaa_s.Connector.Users.{listed, listed-add_user, listed-remove_user, listed-get_user}

-- The part of a handler that the maps speak of.
abbrev pub identity : Option SocketHandler → Option (AuthStatus × Option String)
identity none = none
identity (some s) = some (s.auth_status, s.user_id)

pub record Inv (c : Connector) : Type 0 where
  pub online :
      (u : String) (i : ℕ)
      → listed c.users u i ≡ true
      → identity (c.sockets i) ≡ some (AuthStatus.authenticated, some u)
  pub pending :
      (u : String) (i : ℕ)
      → listed c.pending_users u i ≡ true
      → identity (c.sockets i) ≡ some (AuthStatus.authenticating, some u)
  pub keyed : (i : ℕ) (s : SocketHandler) → c.sockets i ≡ some s → s.socket_id ≡ i
  pub numbered : (i : ℕ) → c.counter < i → c.sockets i ≡ none

pub init-Inv : Inv init
unfolding listed lookup
init-Inv = record {
  online = λ u i h. cc;
  pending = λ u i h. cc;
  keyed = λ i s h. cc;
  numbered = λ i h. refl;
}

-- An update of a handler that leaves its identity alone.
pub put_socket-Inv :
    (c : Connector) (i : ℕ) (s t : SocketHandler)
    → c.sockets i ≡ some s
    → t.socket_id ≡ s.socket_id
    → t.auth_status ≡ s.auth_status
    → t.user_id ≡ s.user_id
    → Inv c
    → Inv (put_socket t c)
unfolding put_socket
put_socket-Inv c i s t found id status user h = record {
  online = λ u j l. ground (arith, h.online u j l, h.keyed i s found);
  pending = λ u j l. ground (arith, h.pending u j l, h.keyed i s found);
  keyed = λ j r e. ground (arith, h.keyed i s found, h.keyed j r);
  numbered = λ j e. ground (arith, h.keyed i s found, h.numbered j e);
}

continue-found :
    {A : Type 0} (c : Connector) (f : SocketHandler → Exec Connector A) (o : Option SocketHandler)
    → ((s : SocketHandler) → o ≡ some s → Inv (f s c).1)
    → Inv c
    → Inv ((deref o >>= f) c).1
unfolding ◌>>=◌
continue-found c f none k v = v
continue-found c f (some s) k v = k s refl

-- What reads a handler may use that the handler is there.
pub Keeps-socket :
    {A : Type 0} (i : ℕ) (f : SocketHandler → Exec Connector A)
    → ((c : Connector) (s : SocketHandler) → c.sockets i ≡ some s → Inv c → Inv (f s c).1)
    → Keeps Inv (socket i >>= f)
unfolding socket ◌>>=◌
Keeps-socket i f k = record {
  at = λ c v. continue-found c f (c.sockets i) (λ s found. k c s found v) v;
}

pub socket-Inv : (i : ℕ) → Keeps Inv (socket i)
unfolding socket
socket-Inv i = record { at = λ c v. (Keeps-deref {I = Inv} (c.sockets i)).at c v }

pub send_message-Inv : (h : Host) (i : ℕ) (m : MessageContent) → Keeps Inv (send_message h i m)
unfolding send_message
send_message-Inv h i m = Keeps-socket i _ λ c s found v.
    let t : SocketHandler = record s { sent = to_content_output m ∷ s.sent } in
    unfold ◌>>=◌ in ground (arith, put_socket-Inv c i s t found refl refl refl v)

pub close-Inv : (i : ℕ) → Keeps Inv (close i)
unfolding close
close-Inv i = Keeps-socket i _ λ c s found v.
    let t : SocketHandler = record s { opened = false } in
    unfold ◌>>=◌ in put_socket-Inv c i s t found refl refl refl v

pub deliver_message-Inv : (m : Message) → Keeps Inv (deliver_message m)
unfolding deliver_message ◌>>=◌
deliver_message-Inv m = record {
  at = λ c v. record {
    online = v.online;
    pending = v.pending;
    keyed = v.keyed;
    numbered = v.numbered;
  };
}

pub new_message-Inv :
    (h : Host) (from to : Option String) (content : MessageContent) (meta : MessageMeta)
    → Keeps Inv (new_message h from to content meta)
unfolding new_message ◌>>=◌
new_message-Inv h from to content meta = record {
  at = λ c v. record {
    online = v.online;
    pending = v.pending;
    keyed = v.keyed;
    numbered = v.numbered;
  };
}

pub ruleset primitive_rules =
    (keeps_rules, send_message-Inv, close-Inv, deliver_message-Inv, new_message-Inv)

pub deliver_state_changed_message-Inv :
    (h : Host) (m : Message) (state : MessageState)
    → Keeps Inv (deliver_state_changed_message h m state)
unfolding deliver_state_changed_message
deliver_state_changed_message-Inv h m state = search primitive_rules
