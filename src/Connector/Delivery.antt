-- ===== src/Connector/Delivery.antt =====
-- What DefaultOutgoingMessageProcessor.java writes, and to whom.
pub mod Accounts
use web_socketaa_s.Prelude.{
  ℕ, String, ◌≡◌, ◌≢◌, refl, sym, ap, ◌∙◌, Option, none, some, Bool, true, false, ◌&&◌, List, ◌∷◌,
  ℤ, arith, if◌then◌else◌, Exec, ok, throw, pure, ◌>>=◌, Option-cases, inl, inr, Bool-cases, ◌⊎◌,
  length, null_pointer,
}
use web_socketaa_s.Prelude.Effects
use web_socketaa_s.Prelude.Effects.{Result, Exception}
use web_socketaa_s.Model.{
  MessageType, MessageState, is_reliable, is_processed, ExpressDeliveryType, calc_express_delivery,
}
use web_socketaa_s.Model.Message.{Message, MessageContent, Payload, to_content_output, head, build}
use web_socketaa_s.Connector.{
  Host, Connector, SocketHandler, AuthStatus, get_user, put_socket, socket, send_message,
  deliver_message, new_message, deliver_state_changed_message,
}
use web_socketaa_s.Connector.Outgoing.{
  on_written, send_or_report, default_outgoing_do_process, outgoing_processor,
  process_outgoing_message, on_message_arrived,
}
use web_socketaa_s.Connector.Users.{listed-get_user}
use web_socketaa_s.Connector.Invariant.{Inv, identity}
use web_socketaa_s.Connector.Invariant.Handlers.{sockets-put_socket}

module _ (h : Host) where
  pub on_written-sockets :
      (m : Message) (success : Bool) (c : Connector)
      → (on_written h m success c).1.sockets ≡ c.sockets
  unfolding on_written deliver_state_changed_message deliver_message new_message ◌>>=◌
  on_written-sockets m success c = ground arith

  send_message-sockets :
      (i j : ℕ) (content : MessageContent) (c : Connector)
      → Inv c
      → i ≢ j
      → (send_message h i content c).1.sockets j ≡ c.sockets j
  unfolding send_message socket put_socket ◌>>=◌
  send_message-sockets i j content c v ne = elim (Option-cases (c.sockets i)) [
    | inl missing ↦ rw missing
    | inr (s, found) ↦ rw found (ground (arith, v.keyed i s found))
  ]

  after_write-sockets :
      (m : Message) (r : Result Bool) (c : Connector) (j : ℕ)
      → (Effects.continue (on_written h m) (r, c)).1.sockets j ≡ c.sockets j
  after_write-sockets m (ok success) c j =
      ap (λ (f : ℕ → Option SocketHandler). f j) (on_written-sockets m success c)
  after_write-sockets m (throw e) c j = refl

  send_or_report-sockets :
      (m : Message) (o : Option ℕ) (j : ℕ) (c : Connector)
      → Inv c
      → o ≢ some j
      → (send_or_report h m o c).1.sockets j ≡ c.sockets j
  unfolding send_or_report ◌>>=◌
  send_or_report-sockets m none j c v ne =
      unfold deliver_state_changed_message deliver_message new_message in ground arith
  send_or_report-sockets m (some i) j c v ne =
      let (r, d) = send_message h i m.content c in
      after_write-sockets m r d j ∙ send_message-sockets i j m.content c v (λ e. ne (ap some e))

  -- A message without a target address or a receiver throws; any other is sent or reported.
  pub default_outgoing_cases :
      (m : Message) (c : Connector)
      → ((e : Exception) × (default_outgoing_do_process h m c ≡ (throw e, c)))
        ⊎ ((key : String) × (n : Option ℤ) × (m.to ≡ some key)
            × (default_outgoing_do_process h m c ≡ send_or_report h m (get_user c.users key n) c))
  unfolding default_outgoing_do_process ◌>>=◌
  default_outgoing_cases m c = elim (Option-cases m.meta.target_address) [
    | inl absent ↦ inl (null_pointer, simp absent)
    | inr (target, there) ↦ elim (Option-cases m.to) [
      | inl nobody ↦ inl (null_pointer, simp (there, nobody))
      | inr (key, addressed) ↦ inr (key, target.socket_id, addressed, simp (there, addressed))
    ]
  ]

  -- With maps that agree with the handlers, a message is written to no handler but one that is
  -- authenticated as the user that the message is for: every other handler is left as it was.
  pub default_outgoing_do_process-sockets :
      (m : Message) (c : Connector) (j : ℕ)
      → Inv c
      → identity (c.sockets j) ≢ some (AuthStatus.authenticated, m.to)
      → (default_outgoing_do_process h m c).1.sockets j ≡ c.sockets j
  default_outgoing_do_process-sockets m c j v other = elim (default_outgoing_cases m c) [
    | inl (e, thrown) ↦ rw thrown
    | inr (key, n, addressed, sent) ↦ rw sent (
        send_or_report-sockets m (get_user c.users key n) j c v (λ chosen. other (
          v.online key j (listed-get_user c.users key n j chosen)
          ∙ ap (λ (u : Option String). some (AuthStatus.authenticated, u)) (sym addressed))))
  ]
