-- ===== src/Processor/Service.antt =====
-- MessageProcessorService.java and the receiving half of express/PostOffice.java: a message that
-- arrives is touched, dropped if it is no longer alive, prepared, wrapped if it belongs to another
-- domain, and processed. `process` calls itself through the handlers, so it takes fuel.
pub mod Termination
pub mod Settled
pub mod Grouped
pub mod Connections
pub mod Ending
pub mod Total
pub mod Every
pub mod Completion
pub mod Kept
pub mod Arrived
use web_socketaa_s.Prelude.{
  ℕ, zero, suc, String, Option, none, some, not, ◌&&◌, ℤ, if◌then◌else◌, pure, raise, try_catch,
  gets, ◌>>=◌, ◌>>◌, illegal_argument, out_of_fuel,
}
use web_socketaa_s.Text.{is_blank}
use web_socketaa_s.Model.{MessageType, MessageState, is_internal}
use web_socketaa_s.Model.Message.{
  Message, Payload, AuthClient, MessageRequest, GroupMessage, create_message_content, new_meta,
  as_payload, from_head,
}
use web_socketaa_s.Model.Ttl.{touch_message, is_message_alive}
use web_socketaa_s.Processor.{Host, Task, on_object, new_message}
use web_socketaa_s.Processor.Office.{
  set_to, change, domain_address, resolve_domain_name, is_current_domain_message, persist_message,
}
use web_socketaa_s.Processor.Handlers.{
  auth_client_do_process, close_connection_do_process, custom_do_process, confirmation_do_process,
  user_connected_do_process, user_disconnected_do_process,
}
use web_socketaa_s.Processor.Handlers.Internal.{
  internal_do_process, state_changed_do_process, fetch_do_process,
}
use web_socketaa_s.Processor.Handlers.Groups.{group_do_process}

-- The processor of a message, with the payload that it has read.
pub data Job : Type 0 where
  auth_client : AuthClient → Job
  close_connection : Option String → Job
  group : GroupMessage → Job
  confirmation : Job
  chat : MessageRequest → Job
  fetch : Option ℤ → Job
  internal : Message → Job
  state_changed : Message → MessageState → Job
  user_connected user_disconnected : Option String → Job

-- No processor has the type; the payload cannot be read; or the job.
pub data Reading : Type 0 where
  unknown unreadable : Reading
  job : Job → Reading

abbrev pub read {ℓ} : {A : Type ℓ} → (A → Job) → Option A → Reading
read f none = unreadable
read f (some a) = job (f a)

module _ (h : Host) where
  -- getMessageProcessor, and MessageProcessor.getData
  unfoldable pub reading : MessageType → Payload → Reading
  reading MessageType.auth_client p = read auth_client (h.jackson.to_auth_client p)
  reading MessageType.close_connection p = read close_connection (h.jackson.to_close_connection p)
  reading MessageType.group_message p = read group (h.jackson.to_group_message p)
  reading MessageType.message_confirmation p =
      read (λ _. confirmation) (h.jackson.to_message_confirmation p)
  reading MessageType.message p = read chat (h.jackson.to_message_request p)
  reading MessageType.fetch_missing_messages_request p = read fetch (h.jackson.to_fetch_request p)
  reading MessageType.internal_message p =
      read (λ (i, q). internal (from_head i q)) (h.jackson.to_message p)
  reading MessageType.message_state_changed p =
      read (λ (i, q, state). state_changed (from_head i q) state) (h.jackson.to_state_changed p)
  reading MessageType.user_connected p = read user_connected (h.jackson.to_user_connected p)
  reading MessageType.user_disconnected p =
      read user_disconnected (h.jackson.to_user_disconnected p)
  reading _ p = unknown

  -- doPreprocess: the receiver is in the payload of some types
  unfoldable pub preprocess : Job → Message → Message
  preprocess (chat request) m = set_to request.to m
  preprocess (close_connection user_id) m = set_to user_id m
  preprocess (internal inner) m = if is_blank h.strings m.to then set_to inner.to m else m
  preprocess _ m = m

  -- doProcess of each processor
  unfoldable pub do_process : Task → Job → Task
  do_process again (auth_client client) = auth_client_do_process h client
  do_process again (close_connection user_id) = close_connection_do_process h user_id
  do_process again (group g) = group_do_process h again g
  do_process again confirmation = confirmation_do_process h
  do_process again (chat request) = custom_do_process h request
  do_process again (fetch count) = fetch_do_process h count
  do_process again (internal inner) = internal_do_process h again inner
  do_process again (state_changed m state) = state_changed_do_process h again m state
  do_process again (user_connected user_id) = user_connected_do_process h again user_id
  do_process again (user_disconnected user_id) = user_disconnected_do_process h again user_id

  -- processCrossDomainMessage
  unfoldable pub process_cross_domain_message : Task → Task
  process_cross_domain_message again = do
    m ← gets (λ w. w.self)
    if is_internal m.content.type then again else do
      wrapped ←
          new_message h m.from m.to
            (create_message_content MessageType.internal_message (as_payload m) m.content.feature)
            (new_meta m.meta.original_address (some (domain_address (resolve_domain_name h m))))
      on_object wrapped again

  unfoldable pub process_reading : Task → Reading → Task
  process_reading again unknown = pure tt
  process_reading again unreadable = raise illegal_argument
  process_reading again (job j) = do
    change (preprocess j)
    m ← gets (λ w. w.self)
    if not (is_internal m.content.type) && not (is_current_domain_message h m)
        then process_cross_domain_message again
        else do_process again j

  -- one round of MessageProcessorService.process
  unfoldable pub process_once : Task → Task
  process_once again = do
    change touch_message
    m ← gets (λ w. w.self)
    if not (is_message_alive m)
        then pure tt
        else process_reading again (reading m.content.type m.content.payload)

  -- MessageProcessorService.process
  unfoldable pub process : ℕ → Task
  process zero = raise out_of_fuel
  process (suc fuel) = process_once (process fuel)

  -- PostOffice.onMessageArrived(message, from): what cannot be processed is persisted
  unfoldable pub on_message_arrived : ℕ → Message → Task
  on_message_arrived fuel m =
      on_object m (try_catch (process fuel) (λ _. persist_message MessageState.processor_error))
