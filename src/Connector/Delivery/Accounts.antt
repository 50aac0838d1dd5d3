-- ===== src/Connector/Delivery/Accounts.antt =====
-- What becomes of a reliable chat message that PostOffice.onMessageArrived of the connector is given.
use web_socketaa_s.Prelude.{
  ℕ, String, ◌≡◌, refl, ap, ◌∙◌, Option, none, some, Bool, true, false, ◌&&◌, List, ◌∷◌, ℤ, arith,
  if◌then◌else◌, Exec, ok, throw, pure, ◌>>=◌, Option-cases, inl, inr, Bool-cases, ◌⊎◌, length,
}
use web_socketaa_s.Prelude.Effects
use web_socketaa_s.Prelude.Effects.{Result, Exception}
use web_socketaa_s.Model.{
  MessageType, MessageState, is_reliable, is_processed, ExpressDeliveryType, calc_express_delivery,
}
use web_socketaa_s.Model.Message.{Message, MessageContent, Payload, to_content_output, head, build}
use web_socketaa_s.Connector.{
  Host, Connector, SocketHandler, get_user, put_socket, socket, send_message, deliver_message,
  new_message, deliver_state_changed_message,
}
use web_socketaa_s.Connector.Outgoing.{
  on_written, send_or_report, default_outgoing_do_process, outgoing_processor,
  process_outgoing_message, on_message_arrived,
}
use web_socketaa_s.Connector.Users.{listed-get_user}
use web_socketaa_s.Connector.Invariant.{Inv}
use web_socketaa_s.Connector.Invariant.Handlers.{sockets-put_socket}
use web_socketaa_s.Connector.Delivery.{on_written-sockets, default_outgoing_cases}

module _ (h : Host) where
  -- A message written to a handler: it is the latest that the handler has sent, and nothing else of
  -- the handler has changed.
  abbrev pub Written : Connector → Connector → ℕ → Message → Type 0
  Written c c' i m =
      (s : SocketHandler) × (c.sockets i ≡ some s)
      × (c'.sockets i ≡ some (record s { sent = to_content_output m.content ∷ s.sent }))

  -- The latest delivery to the processors is a state change of the message, to a state other than
  -- PROCESSED, by the reliable delivery.
  abbrev pub Reported : Connector → Message → Type 0
  Reported c' m =
      (r : Message) × (rest : List (ExpressDeliveryType × Message)) × (state : MessageState)
      × (c'.deliveries ≡ (ExpressDeliveryType.kafka, r) ∷ rest)
      × (r.content.type ≡ MessageType.message_state_changed)
      × (r.content.payload ≡ Payload.message_state_changed (head m) m.content.payload state)
      × (is_processed state ≡ false)

  deliver_state_changed_message-Reported :
      (m : Message) (state : MessageState) (c : Connector)
      → is_processed state ≡ false
      → Reported (deliver_state_changed_message h m state c).1 m
  unfolding deliver_state_changed_message deliver_message new_message calc_express_delivery build
      ◌>>=◌
  deliver_state_changed_message-Reported m state c e = (_, _, state, refl, refl, refl, e)

  abbrev Accounted : Connector → Connector → Message → Type 0
  Accounted c c' m = ((i : ℕ) × Written c c' i m) ⊎ Reported c' m

  on_written-ok : (m : Message) (b : Bool) (c : Connector) → (on_written h m b c).0 ≡ ok tt
  unfolding on_written deliver_state_changed_message deliver_message new_message ◌>>=◌
  on_written-ok m b c = ground arith

  deliver_state_changed_message-ok :
      (m : Message) (state : MessageState) (c : Connector)
      → (deliver_state_changed_message h m state c).0 ≡ ok tt
  unfolding deliver_state_changed_message deliver_message new_message ◌>>=◌
  deliver_state_changed_message-ok m state c = refl

  -- Whether the next write to a handler reaches the network.
  abbrev reaches : SocketHandler → ℕ → Bool
  reaches s i = s.opened && h.written i (length s.sent)

  send_message-found :
      (i : ℕ) (s : SocketHandler) (content : MessageContent) (c : Connector)
      → c.sockets i ≡ some s
      → send_message h i content c ≡ (
          if reaches s i
          then (ok true, put_socket (record s { sent = to_content_output content ∷ s.sent }) c)
          else (ok false, c))
  unfolding send_message socket ◌>>=◌
  send_message-found i s content c found = rw found (ground arith)

  module _ (m : Message) (c : Connector) (reliable : is_reliable m.content.feature ≡ true) where
    failed_write : Reported (on_written h m false c).1 m
    unfolding on_written
    failed_write = elim (Bool-cases m.meta.confirm_enabled) [
      | inl wanted ↦
          simp wanted (deliver_state_changed_message-Reported m MessageState.network_error c refl)
      | inr unwanted ↦
          simp (unwanted, reliable)
            (deliver_state_changed_message-Reported m MessageState.network_error c refl)
    ]

    written-Accounted :
        (i : ℕ) (s : SocketHandler)
        → c.sockets i ≡ some s
        → s.socket_id ≡ i
        → ((send_or_report h m (some i) c).0 ≡ ok tt)
          × Accounted c (send_or_report h m (some i) c).1 m
    unfolding send_or_report ◌>>=◌
    written-Accounted i s found id =
        rw (send_message-found i s m.content c found) (elim (Bool-cases (reaches s i)) [
          | inl done ↦ rw done (
            on_written-ok m true _,
            inl (
              i,
              (
                s,
                found,
                ap (λ (f : ℕ → Option SocketHandler). f i) (on_written-sockets h m true _)
                    ∙ sockets-put_socket _ c i id,
              ),
            ),
          )
          | inr lost ↦ rw lost (on_written-ok m false c, inr failed_write)
        ])

    none-Accounted :
        ((send_or_report h m none c).0 ≡ ok tt) × Accounted c (send_or_report h m none c).1 m
    unfolding send_or_report
    none-Accounted = rw reliable (
      deliver_state_changed_message-ok m MessageState.address_not_found c,
      inr (deliver_state_changed_message-Reported m MessageState.address_not_found c refl),
    )

    found-Accounted :
        (o : Option ℕ) (key : String) (n : Option ℤ)
        → get_user c.users key n ≡ o
        → Inv c
        → ((send_or_report h m o c).0 ≡ ok tt) × Accounted c (send_or_report h m o c).1 m
    found-Accounted none key n e v = none-Accounted
    found-Accounted (some i) key n e v = elim (Option-cases (c.sockets i)) [
      | inl missing ↦ cc (v.online key i (listed-get_user c.users key n i e), missing)
      | inr (s, there) ↦ written-Accounted i s there (v.keyed i s there)
    ]

    caught-Accounted :
        (report : Exception → Exec Connector (Unit {0})) (p : Result (Unit {0}) × Connector)
        → (p.0 ≡ ok tt) × Accounted c p.1 m
        → Accounted c (Effects.caught report p).1 m
    caught-Accounted report (ok tt, d) a = a.1
    caught-Accounted report (throw e, d) a = cc (a.0)

    -- The catch of PostOffice.onMessageArrived.
    abbrev reporting : Exception → Exec Connector (Unit {0})
    reporting e =
        if is_reliable m.content.feature
        then deliver_state_changed_message h m MessageState.connector_error
        else pure tt

    chat_lem :
        m.content.type ≡ MessageType.message
        → on_message_arrived h (some m) c
          ≡ Effects.caught reporting (default_outgoing_do_process h m c)
    unfolding on_message_arrived process_outgoing_message outgoing_processor ◌>>=◌
    chat_lem chat = simp chat

    thrown-Accounted : (e : Exception) → Accounted c (Effects.caught reporting (throw e, c)).1 m
    thrown-Accounted e =
        rw reliable
          (inr (deliver_state_changed_message-Reported m MessageState.connector_error c refl))

    default_outgoing-Accounted :
        Inv c → Accounted c (Effects.caught reporting (default_outgoing_do_process h m c)).1 m
    default_outgoing-Accounted v = elim (default_outgoing_cases h m c) [
      | inl (e, thrown) ↦ rw thrown (thrown-Accounted e)
      | inr (key, n, addressed, sent) ↦
          rw sent (caught-Accounted reporting _ (found-Accounted _ key n refl v))
    ]

    -- With maps that agree with the handlers, a reliable chat message that arrives is accounted for:
    -- it is written to a handler, or a state change other than PROCESSED goes back to the
    -- processors, also where the connector throws.
    pub on_message_arrived-accounts :
        Inv c
        → m.content.type ≡ MessageType.message
        → ((i : ℕ) × Written c (on_message_arrived h (some m) c).1 i m)
          ⊎ Reported (on_message_arrived h (some m) c).1 m
    on_message_arrived-accounts v chat = rw (chat_lem chat) (default_outgoing-Accounted v)
