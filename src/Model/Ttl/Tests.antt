-- ===== src/Model/Ttl/Tests.antt =====
-- The time to live of a concrete message.
use web_socketaa_s.Prelude.{refl, ◌≡◌, none, some, arith, ltb}
use web_socketaa_s.Model.{MessageType, MessageFeature}
use web_socketaa_s.Model.Message.{Message, Payload, build, new_meta, create_message_content}
use web_socketaa_s.Model.Ttl.{is_message_alive, touched, is_message_alive-touched}

abbrev fresh : Message
fresh =
    build (record { uuid = λ n. "id"; now = λ n. n; next_int = λ n bound. 0 }) 0 none (some "ANZ-1")
      (create_message_content MessageType.message Payload.empty MessageFeature.fast)
      (new_meta none none)

is_message_alive-touched_example : is_message_alive (touched 10 fresh) ≡ ltb 10 10
unfolding build
is_message_alive-touched_example = is_message_alive-touched fresh 10 10 refl (omega arith)
