-- ===== src/Connector/Invariant/Handlers.antt =====
-- Every handler of the connector keeps the agreement of the maps and the handlers.
use web_socketaa_s.Prelude.{
  ℕ, String, ◌≡◌, refl, Option, none, some, ℤ, arith, nat_eq_iff, eq_iff, ok, ◌>>=◌, ◌>>◌,
  Bool-cases, inl, inr, ap,
}
use mathlib.Core.Path.{fun_ext}
use web_socketaa_s.Prelude.Effects.Keeps.{Keeps, keeps_rules}
use web_socketaa_s.Model.Message.{Message, AuthClient}
use web_socketaa_s.Connector.{
  Connector, SocketHandler, AuthStatus, add_user, remove_user, socket, put_socket, set_user_id,
  set_auth_status, deliver_message,
}
use web_socketaa_s.Connector.Users.{listed-add_user, listed-remove_user}
use web_socketaa_s.Connector.Incoming.{converted, is_new, add_pending_user, auth_client_do_process}
use web_socketaa_s.Connector.Outgoing.{parsed_note}
use web_socketaa_s.Connector.Invariant.{Inv, Keeps-socket, deliver_message-Inv}

pub converted-Inv : {A : Type 0} (o : Option A) → Keeps Inv (converted o)
unfolding converted
converted-Inv none = search keeps_rules
converted-Inv (some a) = search keeps_rules

pub parsed_note-Inv : (o : Option ℤ) → Keeps Inv (parsed_note o)
unfolding parsed_note
parsed_note-Inv none = search keeps_rules
parsed_note-Inv (some n) = search keeps_rules

-- Removing a handler from both maps.
pub forget_user-Inv :
    (c : Connector) (u : String) (n : Option ℤ)
    → Inv c
    → Inv (record c {
      users = remove_user c.users u n;
      pending_users = remove_user c.pending_users u n;
    })
forget_user-Inv c u n v = record {
  online = λ w j l. ground (arith, v.online w j, listed-remove_user c.users u w n j);
  pending = λ w j l. ground (arith, v.pending w j, listed-remove_user c.pending_users u w n j);
  keyed = v.keyed;
  numbered = v.numbered;
}

-- A handler that is new becomes the pending handler of the user that it names.
module _ (c : Connector) (i : ℕ) (s : SocketHandler) (found : c.sockets i ≡ some s)
    (fresh : s.auth_status ≡ AuthStatus.not_authenticated) (v : Inv c) where
  abbrev asking : Option String → SocketHandler
  asking user_id = record s { user_id = user_id; auth_status = AuthStatus.authenticating }

  asking-Inv : (user_id : Option String) → Inv (put_socket (asking user_id) c)
  unfolding put_socket
  asking-Inv user_id = record {
    online = λ w j l. ground (arith, v.online w j l, v.keyed i s found);
    pending = λ w j l. ground (arith, v.pending w j l, v.keyed i s found);
    keyed = λ j r e. ground (arith, v.keyed i s found, v.keyed j r);
    numbered = λ j e. ground (arith, v.keyed i s found, v.numbered j e);
  }

  ask-Inv :
      (key : String)
      → Inv (record c {
        sockets = (put_socket (asking (some key)) c).sockets;
        pending_users = add_user c.pending_users key i;
      })
  unfolding put_socket
  ask-Inv key = record {
    online = λ w j l. ground (arith, v.online w j l, v.keyed i s found);
    pending = λ w j l. ground (
      arith,
      v.pending w j,
      v.keyed i s found,
      listed-add_user c.pending_users key w i j,
      nat_eq_iff j i,
      eq_iff key w,
    );
    keyed = λ j r e. ground (arith, v.keyed i s found, v.keyed j r);
    numbered = λ j e. ground (arith, v.keyed i s found, v.numbered j e);
  }

  -- addPendingUser, on the map of pending users after the handler was changed
  asked-Inv :
      (m : Message) (user_id : Option String)
      → Inv ((do add_pending_user user_id i; deliver_message m) (put_socket (asking user_id) c)).1
  unfolding add_pending_user put_socket ◌>>=◌
  asked-Inv m none = asking-Inv none
  asked-Inv m (some key) = (deliver_message-Inv m).at _ (unfold put_socket in ask-Inv key)

module _ (c : Connector) (i : ℕ) (s : SocketHandler) (found : c.sockets i ≡ some s) where
  set_user_id-found :
      (user_id : Option String)
      → set_user_id i user_id c ≡ (ok tt, put_socket (record s { user_id = user_id }) c)
  unfolding set_user_id socket ◌>>=◌
  set_user_id-found user_id = rw found

  pub set_auth_status-found :
      (status : AuthStatus)
      → set_auth_status i status c ≡ (ok tt, put_socket (record s { auth_status = status }) c)
  unfolding set_auth_status socket ◌>>=◌
  set_auth_status-found status = rw found

pub sockets-put_socket :
    (s : SocketHandler) (c : Connector) (i : ℕ)
    → s.socket_id ≡ i
    → (put_socket s c).sockets i ≡ some s
unfolding put_socket
sockets-put_socket s c i e = ground arith

-- The later of two writes of one handler counts.
put_socket-put_socket :
    (s t : SocketHandler) (c : Connector)
    → t.socket_id ≡ s.socket_id
    → put_socket t (put_socket s c) ≡ put_socket t c
unfolding put_socket
put_socket-put_socket s t c e =
    ap (λ (f : ℕ → Option SocketHandler). record c { sockets = f }) (fun_ext λ i. ground arith)

pub auth_client_do_process-Inv :
    (i : ℕ) (m : Message) (client : AuthClient) → Keeps Inv (auth_client_do_process i m client)
unfolding auth_client_do_process
auth_client_do_process-Inv i m client = Keeps-socket i _ λ c s found v.
    elim (Bool-cases (is_new s.auth_status)) [
      | inl new ↦ rw new (
          unfold ◌>>=◌ in
          rw (set_user_id-found c i s found client.user_id) (
            rw
              (set_auth_status-found (put_socket (record s { user_id = client.user_id }) c) i
                (record s { user_id = client.user_id })
                (sockets-put_socket _ c i (v.keyed i s found)) AuthStatus.authenticating)
              (rw
                (put_socket-put_socket (record s { user_id = client.user_id })
                  (record s { user_id = client.user_id; auth_status = AuthStatus.authenticating }) c
                  refl)
                (asked-Inv c i s found (ground arith) v _ client.user_id))))
      | inr old ↦ rw old (unfold ◌>>=◌ in v)
    ]
