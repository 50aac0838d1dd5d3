-- ===== src/Connector/Invariant/Replies.antt =====
-- AuthClientReplyMessageProcessor.java keeps the agreement of the maps and the handlers: the
-- pending handler becomes the user's, or starts again.
use web_socketaa_s.Prelude.{
  ℕ, String, ◌≡◌, refl, Option, none, some, Bool, true, false, ℤ, arith, nat_eq_iff, eq_iff, ◌>>=◌,
  ◌>>◌, Option-cases, inl, inr,
}
use web_socketaa_s.Prelude.Effects.Keeps.{Keeps, keeps_rules, Keeps-bind, Keeps-gets_bind}
use web_socketaa_s.Model.{MessageType, system, processor}
use web_socketaa_s.Model.Message.{
  Message, Payload, AuthClientReply, create_message_content, new_meta,
}
use web_socketaa_s.Connector.{
  Host, Connector, SocketHandler, AuthStatus, add_user, remove_user, get_user, has_id, put_socket,
  send_message, new_message, deliver_message, close, own_address,
}
use web_socketaa_s.Connector.Users.{
  listed, listed-add_user, listed-remove_user, listed-get_user, get_user-id,
}
use web_socketaa_s.Connector.Outgoing.{
  parse_note, finish_authentication, on_pending, auth_client_reply_do_process,
}
use web_socketaa_s.Connector.Invariant.{Inv, primitive_rules}
use web_socketaa_s.Connector.Invariant.Handlers.{set_auth_status-found, parsed_note-Inv}

-- Handler `i` is the pending handler of the user `key`, and is taken out of the pending ones.
module _ (c : Connector) (v : Inv c) (key : String) (n : Option ℤ) (i : ℕ) (s : SocketHandler)
    (found : c.sockets i ≡ some s) (waits : listed c.pending_users key i ≡ true)
    (named : has_id n i ≡ true) where
  abbrev taken : Connector
  taken = record c { pending_users = remove_user c.pending_users key n }

  taken-Inv : Inv taken
  taken-Inv = record {
    online = v.online;
    pending = λ w j l. ground (arith, v.pending w j, listed-remove_user c.pending_users key w n j);
    keyed = v.keyed;
    numbered = v.numbered;
  }

  grant-Inv : Inv (
      put_socket
        (record s { auth_status = AuthStatus.authenticated })
        (record taken { users = add_user c.users key i }))
  unfolding put_socket
  grant-Inv = record {
    online = λ w j l. ground (
      arith,
      v.online w j,
      v.keyed i s found,
      v.pending key i waits,
      listed-add_user c.users key w i j,
      nat_eq_iff j i,
      eq_iff key w,
    );
    pending = λ w j l. ground (
      arith,
      v.pending w j,
      v.keyed i s found,
      v.pending key i waits,
      listed-remove_user c.pending_users key w n j,
      eq_iff key w,
    );
    keyed = λ j r e. ground (arith, v.keyed i s found, v.keyed j r);
    numbered = λ j e. ground (arith, v.keyed i s found, v.numbered j e);
  }

  refuse-Inv : Inv (put_socket (record s { auth_status = AuthStatus.not_authenticated }) taken)
  unfolding put_socket
  refuse-Inv = record {
    online = λ w j l. ground (arith, v.online w j l, v.keyed i s found, v.pending key i waits);
    pending = λ w j l. ground (
      arith,
      v.pending w j,
      v.keyed i s found,
      v.pending key i waits,
      listed-remove_user c.pending_users key w n j,
      eq_iff key w,
    );
    keyed = λ j r e. ground (arith, v.keyed i s found, v.keyed j r);
    numbered = λ j e. ground (arith, v.keyed i s found, v.numbered j e);
  }

module _ (h : Host) (m : Message) (key : String) (socket_id : ℤ) (i : ℕ) where
  -- what follows once the handler's status is set
  announce-Inv : Keeps Inv (do
    send_message h i m.content
    connected ←
        new_message h
          (some system)
          (some processor)
          (create_message_content MessageType.user_connected
            (Payload.user_connected (some key))
            m.content.feature)
          (new_meta (some (own_address h (some socket_id))) none)
    deliver_message connected)
  announce-Inv = search primitive_rules

  hang_up-Inv : Keeps Inv (do send_message h i m.content; close i)
  hang_up-Inv = search primitive_rules

  module _ (c : Connector) (v : Inv c) (waits : listed c.pending_users key i ≡ true)
      (named : has_id (some socket_id) i ≡ true) where
    finish-found :
        (reply : AuthClientReply) (granted : Option Bool) (s : SocketHandler)
        → reply.is_authenticated ≡ granted
        → c.sockets i ≡ some s
        → Inv (finish_authentication h m reply key socket_id i c).1
    unfolding finish_authentication ◌>>=◌
    finish-found reply none s e found =
        rw e (taken-Inv c v key (some socket_id) i s found waits named)
    finish-found reply (some true) s e found = rw e (
        rw
          (set_auth_status-found
            (record c {
              pending_users = remove_user c.pending_users key (some socket_id);
              users = add_user c.users key i;
            })
            i s found AuthStatus.authenticated)
          (announce-Inv.at _ (grant-Inv c v key (some socket_id) i s found waits named)))
    finish-found reply (some false) s e found = rw e (
        rw
          (set_auth_status-found
            (record c { pending_users = remove_user c.pending_users key (some socket_id) }) i s
            found AuthStatus.not_authenticated)
          (hang_up-Inv.at _ (refuse-Inv c v key (some socket_id) i s found waits named)))

    finish_authentication-Inv :
        (reply : AuthClientReply) → Inv (finish_authentication h m reply key socket_id i c).1
    finish_authentication-Inv reply = elim (Option-cases (c.sockets i)) [
      | inl missing ↦ cc (v.pending key i waits, missing)
      | inr (s, found) ↦ finish-found reply reply.is_authenticated s refl found
    ]

on_pending-Inv :
    (h : Host) (m : Message) (reply : AuthClientReply) (key : String) (socket_id : ℤ)
    (c : Connector) (o : Option ℕ)
    → get_user c.pending_users key (some socket_id) ≡ o
    → Inv c
    → Inv (on_pending h m reply key socket_id o c).1
unfolding on_pending ◌>>=◌
on_pending-Inv h m reply key socket_id c none e v = v
on_pending-Inv h m reply key socket_id c (some i) e v =
    finish_authentication-Inv h m key socket_id i c v
      (listed-get_user c.pending_users key (some socket_id) i e)
      (get_user-id c.pending_users key (some socket_id) i e) reply

pub auth_client_reply_do_process-Inv :
    (h : Host) (m : Message) (reply : AuthClientReply)
    → Keeps Inv (auth_client_reply_do_process h m reply)
unfolding auth_client_reply_do_process
auth_client_reply_do_process-Inv h m reply =
    Keeps-bind _ _ (parsed_note-Inv (parse_note m.meta.note)) λ socket_id.
      Keeps-bind _ _ (search keeps_rules)
        λ key. Keeps-gets_bind _ _ λ c v. on_pending-Inv h m reply key socket_id c _ refl v
