-- ===== src/Connector/Reachable.antt =====
-- The connector after any events: connections, reads, timeouts, disconnections and arrivals.
use web_socketaa_s.Prelude.{
  ℕ, suc, refl, none, some, true, false, List, [], ◌∷◌, pos, arith, if◌then◌else◌, pure, ◌>>=◌,
}
use web_socketaa_s.Prelude.Effects.Keeps.{Keeps}
use web_socketaa_s.Model.{MessageType, MessageFeature, system, processor}
use web_socketaa_s.Model.Message.{MessageContent, Payload, create_message_content, new_meta}
use web_socketaa_s.Connector.{Host, Connector, SocketHandler, put_socket, new_message, own_address}
use web_socketaa_s.Connector.Incoming.{process_incoming_message}
use web_socketaa_s.Connector.Events.{
  init_channel, authentication_timeout, channel_read, handler_removed, is_not_authenticated, Event,
  connects, reads, times_out, leaves, arrives, on_event, after,
}
use web_socketaa_s.Connector.Invariant.{
  Inv, put_socket-Inv, Keeps-socket, primitive_rules, socket-Inv,
}
use web_socketaa_s.Connector.Safety.{process_incoming_message-Inv, on_message_arrived-Inv}

init_channel-Inv : Keeps Inv init_channel
unfolding init_channel put_socket ◌>>=◌
init_channel-Inv = record {
  at = λ c v. record {
    online = λ u i l. ground (arith, v.online u i l, v.numbered (suc c.counter));
    pending = λ u i l. ground (arith, v.pending u i l, v.numbered (suc c.counter));
    keyed = λ i s e. ground (arith, v.keyed i s);
    numbered = λ i l. ground (arith, v.numbered i);
  };
}

authentication_timeout-Inv : (i : ℕ) → Keeps Inv (authentication_timeout i)
unfolding authentication_timeout
authentication_timeout-Inv i = search (primitive_rules, socket-Inv) depth 8

module _ (h : Host) where
  channel_read-Inv : (i : ℕ) (content : MessageContent) → Keeps Inv (channel_read h i content)
  unfolding channel_read
  channel_read-Inv i content =
      search (primitive_rules, socket-Inv, process_incoming_message-Inv) depth 8

  goodbye-Inv :
      (i : ℕ) (s : SocketHandler)
      → Keeps Inv (
          if is_not_authenticated s.auth_status then pure tt else do
            m ←
                new_message h
                  (some system)
                  (some processor)
                  (create_message_content MessageType.user_disconnected
                    (Payload.user_disconnected s.user_id)
                    MessageFeature.reliable)
                  (new_meta (some (own_address h (some (pos i)))) none)
            process_incoming_message h i m)
  goodbye-Inv i s = search (primitive_rules, process_incoming_message-Inv)

  handler_removed-Inv : (i : ℕ) → Keeps Inv (handler_removed h i)
  unfolding handler_removed
  handler_removed-Inv i = Keeps-socket i _ λ c s found v.
      let t : SocketHandler = record s { opened = false; removed = true } in
      unfold ◌>>=◌ in (goodbye-Inv i s).at _ (put_socket-Inv c i s t found refl refl refl v)

  on_event-Inv : (e : Event) → Keeps Inv (on_event h e)
  unfolding on_event
  on_event-Inv connects = init_channel-Inv
  on_event-Inv (reads i content) = channel_read-Inv i content
  on_event-Inv (times_out i) = authentication_timeout-Inv i
  on_event-Inv (leaves i) = handler_removed-Inv i
  on_event-Inv (arrives m) = on_message_arrived-Inv h m

  -- From a connector whose maps agree with its handlers, any events lead to one that does too:
  -- each handler that is listed for a user is authenticated as that user, each handler that is
  -- pending for a user is authenticating as that user, and a handler is found under its own socket
  -- id, which is no greater than the counter.
  pub after-Inv : (c : Connector) (es : List Event) → Inv c → Inv (after h c es)
  unfolding after
  after-Inv c [] v = v
  after-Inv c (e ∷ es) v = after-Inv (on_event h e c).1 es ((on_event-Inv e).at c v)
