-- ===== src/Connector/Refusal.antt =====
-- What a connector does for a client that has not been authenticated.
pub mod Tests
use web_socketaa_s.Prelude.{
  Bool-cases, inl, inr, suc, ℕ, String, ◌≡◌, refl, sym, ap, ◌∙◌, Option, none, some, Bool, true,
  false, not, ◌&&◌, ◌||◌, List, [], ◌∷◌, pos, arith, nat_eq, nat_eq_iff, if◌then◌else◌, length,
  Exec, ok, throw, Result, pure, deref, try_catch, modify, gets, ◌>>=◌, ◌>>◌,
}
use web_socketaa_s.Prelude.Effects
use web_socketaa_s.Model.{MessageType, MessageFeature, system}
use web_socketaa_s.Model.Message.{
  Message, MessageContent, Payload, build, to_content_output, create_message_content, new_meta,
}
use web_socketaa_s.Connector.{
  Host, Connector, SocketHandler, socket, put_socket, send_message, new_message,
}
use web_socketaa_s.Connector.Incoming.{
  is_authenticated, default_incoming_do_process, incoming_processor, process_incoming_message,
}
use web_socketaa_s.Connector.Events.{channel_read}

-- The types that anyone may send.
abbrev pub is_open_to_all : MessageType → Bool
is_open_to_all MessageType.auth_client = true
is_open_to_all MessageType.user_disconnected = true
is_open_to_all _ = false

module _ (h : Host) where
  by_default :
      (i : ℕ) (m : Message) (type : MessageType)
      → is_open_to_all type ≡ false
      → incoming_processor h i m type ≡ default_incoming_do_process h i m
  unfolding incoming_processor
  by_default i m type e = ground (arith, e)

  abbrev pub auth_required : MessageContent
  auth_required =
      create_message_content MessageType.auth_required Payload.empty MessageFeature.reliable

  -- The handler once AUTH_REQUIRED was written to it, if that can be.
  abbrev pub reminded : SocketHandler → SocketHandler
  reminded s =
      if s.opened && h.written s.socket_id (length s.sent)
      then record s { sent = to_content_output auth_required ∷ s.sent }
      else s

  abbrev after_refusal : SocketHandler → Connector → Connector
  after_refusal s c =
      record (if s.opened && h.written s.socket_id (length s.sent)
        then put_socket (record s { sent = to_content_output auth_required ∷ s.sent }) c
        else c) { built = suc c.built }

  refused :
      (m : Message) (c : Connector) (s : SocketHandler)
      → c.sockets s.socket_id ≡ some s
      → is_authenticated s.auth_status ≡ false
      → default_incoming_do_process h s.socket_id m c ≡ (ok tt, after_refusal s c)
  unfolding default_incoming_do_process socket send_message new_message ◌>>=◌ deref modify
      put_socket build
  refused m c s found new = elim (Bool-cases (s.opened && h.written s.socket_id (length s.sent))) [
    | inl reaches ↦ rw found (rw new (rw found (rw reaches refl)))
    | inr fails ↦ rw found (rw new (rw found (rw fails refl)))
  ]

  deliveries-after_refusal :
      (s : SocketHandler) (c : Connector) → (after_refusal s c).deliveries ≡ c.deliveries
  unfolding put_socket
  deliveries-after_refusal s c = ground arith

  sockets-after_refusal :
      (s : SocketHandler) (c : Connector)
      → c.sockets s.socket_id ≡ some s
      → (after_refusal s c).sockets s.socket_id ≡ some (reminded s)
  unfolding put_socket
  sockets-after_refusal s c found = ground (arith, found)

  -- A client whose handler is not authenticated and that sends anything but AUTH_CLIENT and
  -- USER_DISCONNECTED is told AUTH_REQUIRED, if the channel takes it, and nothing goes to the
  -- processors.
  pub channel_read-refuses :
      (content : MessageContent) (c : Connector) (s : SocketHandler)
      → c.sockets s.socket_id ≡ some s
      → is_authenticated s.auth_status ≡ false
      → is_open_to_all content.type ≡ false
      → (let d = (channel_read h s.socket_id content c).1 in
          (d.deliveries ≡ c.deliveries) × (d.sockets s.socket_id ≡ some (reminded s)))
  unfolding channel_read process_incoming_message new_message socket ◌>>=◌ deref build try_catch
  channel_read-refuses content c s found new gated = rw found (
      rw (by_default s.socket_id _ content.type gated) (
        rw (refused _ (record c { built = suc c.built }) s found new)
          (deliveries-after_refusal s _, sockets-after_refusal s _ found)))
