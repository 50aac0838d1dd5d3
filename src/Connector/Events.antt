-- ===== src/Connector/Events.antt =====
-- What happens to a connector: the callbacks of network/AppSocketHandler.java and of
-- network/SocketChannelInitializer.java, and the arrival of a message from the queues. An event for
-- a handler that does not exist changes nothing.
use web_socketaa_s.Prelude.{
  ℕ, suc, Option, none, some, Bool, true, false, not, if◌then◌else◌, ◌&&◌, pos, List, [], ◌∷◌, Exec,
  pure, try_catch, modify, ◌>>=◌, ◌>>◌,
}
use web_socketaa_s.Model.{MessageType, MessageFeature, system, processor}
use web_socketaa_s.Model.Message.{
  Message, MessageContent, Payload, create_message_content, new_meta,
}
use web_socketaa_s.Connector.{
  Host, Connector, AuthStatus, socket, put_socket, send_message, close, new_message, own_address,
}
use web_socketaa_s.Connector.Incoming.{is_authenticated, process_incoming_message}
use web_socketaa_s.Connector.Outgoing.{on_message_arrived}

-- SocketChannelInitializer.initChannel and AppSocketHandler(++counter): a new connection
unfoldable pub init_channel : Exec Connector (Unit {0})
init_channel = modify (λ c.
    put_socket
      (record {
        socket_id = suc c.counter;
        user_id = none;
        auth_status = AuthStatus.not_authenticated;
        opened = true;
        removed = false;
        sent = [];
      })
      (record c { counter = suc c.counter }))

-- the task that handlerAdded schedules, fifteen seconds later
unfoldable pub authentication_timeout : ℕ → Exec Connector (Unit {0})
authentication_timeout i = do
  s ← socket i
  if not (is_authenticated s.auth_status) && not s.removed then close i else pure tt

abbrev pub is_not_authenticated : AuthStatus → Bool
is_not_authenticated AuthStatus.not_authenticated = true
is_not_authenticated _ = false

module _ (h : Host) where
  -- AppSocketHandler.channelRead0
  unfoldable pub channel_read : ℕ → MessageContent → Exec Connector (Unit {0})
  channel_read i content = do
    s ← socket i
    m ← new_message h s.user_id none content (new_meta (some (own_address h (some (pos i)))) none)
    try_catch (process_incoming_message h i m) (λ e. do
      send_message h i (
          create_message_content MessageType.deliver_failed
            (Payload.message_content content.type content.payload content.reference)
            MessageFeature.reliable)
      pure tt)

  -- AppSocketHandler.handlerRemoved, after the context was closed
  unfoldable pub handler_removed : ℕ → Exec Connector (Unit {0})
  handler_removed i = do
    s ← socket i
    modify (put_socket (record s { opened = false; removed = true }))
    if is_not_authenticated s.auth_status then pure tt else do
      m ←
          new_message h (some system) (some processor)
            (create_message_content MessageType.user_disconnected
              (Payload.user_disconnected s.user_id) MessageFeature.reliable)
            (new_meta (some (own_address h (some (pos i)))) none)
      process_incoming_message h i m

pub data Event : Type 0 where
  connects : Event
  reads : ℕ → MessageContent → Event
  times_out : ℕ → Event
  leaves : ℕ → Event
  arrives : Option Message → Event

module _ (h : Host) where
  unfoldable pub on_event : Event → Exec Connector (Unit {0})
  on_event connects = init_channel
  on_event (reads i content) = channel_read h i content
  on_event (times_out i) = authentication_timeout i
  on_event (leaves i) = handler_removed h i
  on_event (arrives m) = on_message_arrived h m

  -- The connector after some events. An exception ends its event, not the connector.
  unfoldable pub after : Connector → List Event → Connector
  after c [] = c
  after c (e ∷ es) = after (on_event e c).1 es
