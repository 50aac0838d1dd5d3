-- ===== src/Relay/Written.antt =====
-- A message reaches a socket: DefaultOutgoingMessageProcessor.doProcess of the connector.
use web_socketaa_s.Prelude.{
  ℕ, ◌&&◌, String, ◌≡◌, ap, Option, some, Bool, true, ◌∷◌, deref, gets, modify, ◌>>=◌, arith,
  length,
}
use web_socketaa_s.Prelude.Effects.Keeps.{Keeps, keeps_rules, Keeps-modify}
use web_socketaa_s.Model.{Address}
use web_socketaa_s.Model.Message.{MessageMeta, Message, MessageContent, to_content_output}
use web_socketaa_s.Connector
use web_socketaa_s.Connector.{Connector, SocketHandler, get_user, socket, put_socket, send_message}
use web_socketaa_s.Connector.Outgoing.{default_outgoing_do_process, send_or_report, on_written}

module _ (h : Connector.Host) where
  -- The handler once the content was written to it.
  abbrev pub written_to : SocketHandler → MessageContent → SocketHandler
  written_to s content = record s { sent = to_content_output content ∷ s.sent }

  module _ (i : ℕ) (x : SocketHandler) where
    abbrev Holds : Connector → Type 0
    Holds c = c.sockets i ≡ some x

    deliver_message-Holds : (m : Message) → Keeps Holds (Connector.deliver_message m)
    unfolding Connector.deliver_message
    deliver_message-Holds m = Keeps-modify _ λ c v. v

    new_message-Holds :
        (from to : Option String) (content : MessageContent) (meta : MessageMeta)
        → Keeps Holds (Connector.new_message h from to content meta)
    unfolding Connector.new_message
    new_message-Holds from to content meta = record { at = λ c v. v }

    on_written-Holds : (m : Message) (success : Bool) → Keeps Holds (on_written h m success)
    unfolding on_written Connector.deliver_state_changed_message
    on_written-Holds m success =
        search (keeps_rules, deliver_message-Holds, new_message-Holds) depth 8

  pub default_outgoing_do_process-writes :
      (m : Message) (key : String) (address : Address) (c : Connector) (i : ℕ) (s : SocketHandler)
      → m.to ≡ some key
      → m.meta.target_address ≡ some address
      → get_user c.users key address.socket_id ≡ some i
      → c.sockets i ≡ some s
      → s.socket_id ≡ i
      → (s.opened && h.written i (length s.sent)) ≡ true
      → (default_outgoing_do_process h m c).1.sockets i ≡ some (written_to s m.content)
  unfolding default_outgoing_do_process send_or_report send_message socket ◌>>=◌ deref gets modify
      put_socket
  default_outgoing_do_process-writes m key address c i s to target listed found id reaches =
      rw (ap (deref {S = Connector}) target) (
        rw (ap (deref {S = Connector}) to) (
          rw listed (
            rw found (
              rw reaches (
                (on_written-Holds i (written_to s m.content) m
                    (s.opened && h.written i (length s.sent))).at
                  (put_socket (written_to s m.content) c) (ground (arith, id)))))))
