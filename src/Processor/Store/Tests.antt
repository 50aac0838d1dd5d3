-- ===== src/Processor/Store/Tests.antt =====
-- The repository with three messages, two of which wait for their receiver.
use web_socketaa_s.Prelude.{ℕ, zero, suc, ◌-◌, none, some, List, [], ◌∷◌}
use web_socketaa_s.Model.{MessageType, MessageState, MessageFeature}
use web_socketaa_s.Model.Message.{
  Message, Payload, Runtime, build, create_message_content, new_meta,
}
use web_socketaa_s.Processor.Store.{find_missing_messages}
use web_socketaa_s.Processor.Store.Paged.{Paged, find_missing_messages-Paged}

abbrev runtime : Runtime
runtime = record {
  uuid = λ n. elim n [ zero ↦ "a" | suc k ↦ "b" ];
  now = λ n. 10 - n;
  next_int = λ n bound. 0;
}

abbrev waiting : ℕ → Message
waiting n =
    record (build runtime n (some "ANZ-2") (some "ANZ-1")
      (create_message_content MessageType.message Payload.empty MessageFeature.reliable)
      (new_meta none none)) { state = MessageState.address_not_found }

abbrev messages : List Message
messages = waiting 0 ∷ waiting 1 ∷ []

find_missing_messages-Paged_example :
    Paged (some "ANZ-1") 1 messages (find_missing_messages (some "ANZ-1") 1 messages)
find_missing_messages-Paged_example = find_missing_messages-Paged (some "ANZ-1") 1 messages
