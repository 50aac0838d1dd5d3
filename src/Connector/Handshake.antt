-- ===== src/Connector/Handshake.antt =====
-- An authentication from its request to its reply: the note that the request carries leads the reply
-- back to the handler that asked.
pub mod Tests
use web_socketaa_s.Prelude.{
  ℕ, ◌≤◌, String, ◌≡◌, refl, sym, ap, ◌∙◌, Option, none, some, Bool, true, false, ◌&&◌, ◌||◌, List,
  [], ◌∷◌, ℤ, pos, arith, nat_eq, nat_eq_iff, if◌then◌else◌, int_eq, lookup, eq_iff, ◌==◌, Exec, ok,
  throw, Result, pure, deref, modify, gets, ◌>>=◌, ◌>>◌, find_first, int_eq_iff, Bool-cases, inl,
  inr,
}
use web_socketaa_s.Prelude.Effects
use web_socketaa_s.Prelude.Effects.Keeps.{Keeps, Keeps-deref, keeps_rules, Keeps-modify, Keeps-bind}
use web_socketaa_s.Text.Numbers.{max_long, parse_long, long_to_string}
use web_socketaa_s.Text.Numbers.Decimal.{parse_long-long_to_string}
use web_socketaa_s.Model.{
  system, processor, ExpressDeliveryType, MessageFeature, calc_express_delivery,
}
use web_socketaa_s.Model.Message.{
  new_meta, Message, MessageContent, MessageMeta, AuthClient, AuthClientReply,
}
use web_socketaa_s.Connector.{
  Host, Connector, SocketHandler, AuthStatus, add_user, get_user, has_id, entry, socket, put_socket,
  send_message, set_auth_status, set_user_id, deliver_message, new_message, close, own_address,
}
use web_socketaa_s.Connector.Incoming.{auth_client_do_process, add_pending_user, is_new}
use web_socketaa_s.Connector.Outgoing.{
  auth_client_reply_do_process, on_pending, finish_authentication, parsed_note, parse_note,
}
use web_socketaa_s.Connector.Users.Refines.{get_user-within}
use web_socketaa_s.Connector.Users.{listed, listed-add_user, within}
use web_socketaa_s.Connector.Invariant.{Inv, identity}
use web_socketaa_s.Connector.Invariant.Handlers.{auth_client_do_process-Inv}
use web_socketaa_s.Connector.Invariant.Replies.{auth_client_reply_do_process-Inv}

get_user-listed :
    (m : List (String × List ℕ)) (key : String) (i : ℕ)
    → listed m key i ≡ true
    → get_user m key (some (pos i)) ≡ some i
get_user-listed m key i h = get_user-within m key i ∙ rw h refl

abbrev asked : ℕ → Message → AuthClient → Message
asked i m client = record m {
  from = client.user_id;
  meta = record m.meta { note = some (long_to_string (pos i)) };
  content = record m.content { feature = MessageFeature.reliable };
}

-- The note of the message that was delivered last.
abbrev first_note : List (ExpressDeliveryType × Message) → Option String
first_note [] = none
first_note ((type, m) ∷ rest) = m.meta.note

-- The state when the request is on its way.
abbrev waiting : ℕ → Message → AuthClient → String → SocketHandler → Connector → Connector
waiting i m client key s c =
    let named = record s { user_id = client.user_id } in
    let d =
      put_socket (record named { auth_status = AuthStatus.authenticating }) (put_socket named c) in
    record d {
      pending_users = add_user c.pending_users key i;
      deliveries = (ExpressDeliveryType.kafka, asked i m client) ∷ c.deliveries;
    }

module _ (h : Host) (i : ℕ) (key : String) where
  -- The four steps of the request, on a handler that is there.
  asks_by :
      (m : Message) (client : AuthClient) (c : Connector) (s : SocketHandler)
      → c.sockets i ≡ some s
      → nat_eq s.socket_id i ≡ true
      → client.user_id ≡ some key
      → (do
        set_user_id i client.user_id
        set_auth_status i AuthStatus.authenticating
        add_pending_user client.user_id i
        deliver_message (asked i m client))
          c
        ≡ (ok tt, waiting i m client key s c)
  unfolding socket set_user_id set_auth_status add_pending_user deliver_message ◌>>=◌ modify deref
      put_socket calc_express_delivery
  asks_by m client c s found same user = rw found (rw same (rw user refl))

  asks :
      (m : Message) (client : AuthClient) (c : Connector) (s : SocketHandler)
      → c.sockets i ≡ some s
      → s.socket_id ≡ i
      → is_new s.auth_status ≡ true
      → client.user_id ≡ some key
      → auth_client_do_process i m client c ≡ (ok tt, waiting i m client key s c)
  unfolding auth_client_do_process socket ◌>>=◌ deref
  asks m client c s found id new user =
      rw found (rw new (asks_by m client c s found ((nat_eq_iff s.socket_id i).1 id) user))

  -- The handler is online as this user.
  abbrev pub IsOnline : Connector → Type 0
  IsOnline c = listed c.users key i ≡ true

  socket-IsOnline : (j : ℕ) → Keeps IsOnline (socket j)
  unfolding socket
  socket-IsOnline j = record { at = λ c v. (Keeps-deref {I = IsOnline} (c.sockets j)).at c v }

  put_socket-IsOnline : (s : SocketHandler) → Keeps IsOnline (modify (put_socket s))
  unfolding put_socket
  put_socket-IsOnline s = Keeps-modify _ λ c v. v

  set_auth_status-IsOnline :
      (j : ℕ) (status : AuthStatus) → Keeps IsOnline (set_auth_status j status)
  unfolding set_auth_status
  set_auth_status-IsOnline j status = search (keeps_rules, socket-IsOnline, put_socket-IsOnline)

  send_message-IsOnline :
      (j : ℕ) (content : MessageContent) → Keeps IsOnline (send_message h j content)
  unfolding send_message
  send_message-IsOnline j content = search (keeps_rules, socket-IsOnline, put_socket-IsOnline)

  deliver_message-IsOnline : (m : Message) → Keeps IsOnline (deliver_message m)
  unfolding deliver_message
  deliver_message-IsOnline m = Keeps-modify _ λ c v. v

  new_message-IsOnline :
      (from to : Option String) (content : MessageContent) (meta : MessageMeta)
      → Keeps IsOnline (new_message h from to content meta)
  unfolding new_message
  new_message-IsOnline from to content meta = record { at = λ c v. v }

  announce-IsOnline :
      (m : Message) (content : MessageContent)
      → Keeps IsOnline (do
        set_auth_status i AuthStatus.authenticated
        send_message h i m.content
        connected ←
            new_message h
              (some system)
              (some processor)
              content
              (new_meta (some (own_address h (some (pos i)))) none)
        deliver_message connected)
  announce-IsOnline m content = search (
    keeps_rules, set_auth_status-IsOnline, send_message-IsOnline, new_message-IsOnline,
    deliver_message-IsOnline,
  )

  finish_authentication-IsOnline :
      (m : Message) (reply : AuthClientReply) (c : Connector)
      → reply.is_authenticated ≡ some true
      → IsOnline (finish_authentication h m reply key (pos i) i c).1
  unfolding finish_authentication ◌>>=◌ modify deref
  finish_authentication-IsOnline m reply c granted = rw granted (
      (announce-IsOnline m _).at _
        (listed-add_user c.users key key i i ∙ ground (arith, eq_iff key key, nat_eq_iff i i)))

  auth_client_reply_do_process-IsOnline :
      (m : Message) (reply : AuthClientReply) (c : Connector)
      → parse_note m.meta.note ≡ some (pos i)
      → reply.user_id ≡ some key
      → reply.is_authenticated ≡ some true
      → listed c.pending_users key i ≡ true
      → IsOnline (auth_client_reply_do_process h m reply c).1
  unfolding auth_client_reply_do_process ◌>>=◌ parsed_note deref gets on_pending
      finish_authentication
  auth_client_reply_do_process-IsOnline m reply c noted same granted waits = rw noted (
      rw same (
        rw (get_user-listed c.pending_users key i waits)
          (finish_authentication-IsOnline m reply c granted)))

  -- Where the maps of the connector agree with its handlers, let a handler that is not authenticated
  -- ask to be a user, and let `request` be the message that goes to the processors then. A reply for
  -- that user that carries the note of the request and grants makes this handler authenticated as the
  -- user, for socket ids that fit into a long.
  pub auth_client_do_process-online :
      (m : Message) (client : AuthClient) (c : Connector) (s : SocketHandler)
      (request reply : Message) (answer : AuthClientReply)
      → Inv c
      → i ≤ max_long
      → c.sockets i ≡ some s
      → is_new s.auth_status ≡ true
      → client.user_id ≡ some key
      → (let d = (auth_client_do_process i m client c).1 in
          d.deliveries ≡ (ExpressDeliveryType.kafka, request) ∷ c.deliveries)
      → reply.meta.note ≡ request.meta.note
      → answer.user_id ≡ some key
      → answer.is_authenticated ≡ some true
      → (let d = (auth_client_do_process i m client c).1 in
          identity ((auth_client_reply_do_process h reply answer d).1.sockets i)
          ≡ some (AuthStatus.authenticated, some key))
  auth_client_do_process-online m client c s request reply answer v fits found new user delivered
        noted same granted =
      let e = asks m client c s found (v.keyed i s found) new user in
      let d = (auth_client_do_process i m client c).1 in
      let waits : listed d.pending_users key i ≡ true = rw e (
        listed-add_user c.pending_users key key i i
        ∙ ground (arith, eq_iff key key, nat_eq_iff i i)) in
      let note : request.meta.note ≡ some (long_to_string (pos i)) =
        ap first_note (sym delivered ∙ ap (λ p. p.1.deliveries) e) in
      let vd = (auth_client_do_process-Inv i m client).at c v in
      ((auth_client_reply_do_process-Inv h reply answer).at d vd).online key i (
        auth_client_reply_do_process-IsOnline reply answer d
          (ap parse_note (noted ∙ note) ∙ parse_long-long_to_string i fits) same granted waits)
