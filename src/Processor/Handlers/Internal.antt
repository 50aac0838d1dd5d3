-- ===== src/Processor/Handlers/Internal.antt =====
-- InternalMessageProcessor.java, MessageStateChangedMessageProcessor.java and
-- FetchMissingMessagesMessageProcessor.java.
pub mod Failed
pub mod Tests
use web_socketaa_s.Prelude.{
  ℕ, suc, ◌-◌, String, Option, some, not, ◌&&◌, List, [], ◌∷◌, pos, ℤ, if◌then◌else◌, Exec, pure,
  raise, deref, gets, modify, ◌>>=◌, ◌>>◌, length, leb, illegal_argument,
}
use web_socketaa_s.Text.{is_blank, equals_ignore_case}
use web_socketaa_s.Model.{
  MessageType, MessageState, MessageFeature, is_message, is_processed, is_address_not_found, system,
  Address,
}
use web_socketaa_s.Model.Message.{Message, Payload, create_message_content}
use web_socketaa_s.Processor.{Host, World, Task, on_object, new_message, original_address_meta}
use web_socketaa_s.Processor.Channels.{remove_nullable}
use web_socketaa_s.Processor.Store.{find_missing_messages, remove}
use web_socketaa_s.Processor.Office.{
  change, is_current_domain_message, persist_message, deliver_message,
}
use web_socketaa_s.Processor.Handlers.{key_of}

unfoldable pub target_domain_name : Option Address → Exec World (Option String)
target_domain_name target = do address ← deref target; pure address.domain_name

-- Math.min(MAX_COUNT, count); a page needs at least one element
unfoldable pub page_size : ℤ → Exec World ℕ
page_size (pos (suc n)) = pure (if leb 2000 (suc n) then 2000 else suc n)
page_size _ = raise illegal_argument

module _ (h : Host) where
  -- InternalMessageProcessor.doProcess: the inner message here, or the whole one further on
  unfoldable pub internal_do_process : Task → Message → Task
  internal_do_process again inner = do
    m ← gets (λ w. w.self)
    if is_current_domain_message h m then on_object inner again else deliver_message h

  -- sendConfirmationMessageToSender
  unfoldable pub send_confirmation_message_to_sender : Task → Message → Task
  send_confirmation_message_to_sender again m =
      if not (is_blank h.strings m.content.reference) && m.content.confirmation_enabled
      then (do
        confirmation ←
            new_message h (some system) m.from
              (create_message_content MessageType.message_confirmation
                (Payload.message_confirmation m.content.reference) MessageFeature.reliable)
              (original_address_meta h)
        on_object confirmation again)
      else pure tt

  -- processTargetNotFound: forget the address that was tried, and deliver once more
  unfoldable pub process_target_not_found : Message → Task
  process_target_not_found m = do
    key ← key_of m.to
    modify (λ w. record w { channels = remove_nullable key m.meta.target_address w.channels })
    on_object m (deliver_message h)

  -- MessageStateChangedMessageProcessor.doProcess, on the message whose state has changed
  unfoldable pub state_changed_do_process : Task → Message → MessageState → Task
  state_changed_do_process again m state =
      if is_address_not_found state then process_target_not_found m else do
        on_object m (persist_message state)
        if is_processed state && is_message m.content.type
            then (do
              domain ← target_domain_name m.meta.target_address
              if equals_ignore_case h.strings domain (some h.domain_name)
                  then send_confirmation_message_to_sender again m
                  else pure tt)
            else pure tt

  -- the loop over the page: each message is delivered, then removed
  unfoldable pub deliver_page : List Message → Task
  deliver_page [] = pure tt
  deliver_page (m ∷ ms) = do
    on_object m (deliver_message h)
    modify (λ w. record w { messages = remove m w.messages })
    deliver_page ms

  -- sendCompleteMessage; the reply shares its meta with the request
  unfoldable pub send_complete_message : ℕ → Task
  send_complete_message left_count = do
    request ← gets (λ w. w.self)
    reply ←
        new_message h (some system) request.from
          (create_message_content MessageType.fetch_missing_messages_complete
            (Payload.fetch_missing_messages_complete (some (pos left_count)))
            MessageFeature.reliable)
          request.meta
    modify (λ w. record w { self = reply })
    deliver_message h
    change (λ sent. record request { meta = sent.meta })

  -- FetchMissingMessagesMessageProcessor.doProcess. The lock of the user is held throughout.
  unfoldable pub fetch_do_process : Option ℤ → Task
  fetch_do_process requested = do
    count ← deref requested
    size ← page_size count
    user_id ← gets (λ w. w.self.from)
    page ← gets (λ w. find_missing_messages user_id size w.messages)
    deliver_page page.content
    send_complete_message (page.total - length page.content)
