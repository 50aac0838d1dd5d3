-- ===== src/Processor/Service/Settled.antt =====
-- MessageProcessorService.process ends on the types whose handlers make at most one more message of
-- another type: all but the internal messages and the connection messages.
use web_socketaa_s.Prelude.{ℕ, suc, ◌≡◌, refl, Option, none, some, Bool, true, false, modify, arith}
use web_socketaa_s.Prelude.Effects.Keeps.{Keeps}
use web_socketaa_s.Model.{MessageType, is_internal}
use web_socketaa_s.Model.Message.{Payload}
use web_socketaa_s.Model.Ttl.{touch_message}
use web_socketaa_s.Processor.{Host, World, Task}
use web_socketaa_s.Processor.Office.{change}
use web_socketaa_s.Processor.Service.{
  Job, Reading, unknown, unreadable, job, reading, do_process, process_reading, process,
}
use web_socketaa_s.Processor.Ends.{Ends, Any, any, Ends-pure, Ends-raise}
use web_socketaa_s.Processor.Ends.Handlers.{argument-ne, deliver_message-Ends}
use web_socketaa_s.Processor.Service.Termination.{Wrap, job-Ends, process-Wrap, process_once-Ends}
use web_socketaa_s.Processor.Service.{read}
use web_socketaa_s.Processor.Handlers.{confirmation_do_process}
use web_socketaa_s.Processor.Ends.Handlers.{
  auth_client_do_process-Ends, close_connection_do_process-Ends, custom_do_process-Ends,
  fetch_do_process-Ends,
}

-- The types of the jobs that do not process another message.
abbrev pub is_single : MessageType → Bool
is_single MessageType.auth_client = true
is_single MessageType.close_connection = true
is_single MessageType.message_confirmation = true
is_single MessageType.message = true
is_single MessageType.fetch_missing_messages_request = true
is_single _ = false

single-outside : (type : MessageType) → is_single type ≡ true → is_internal type ≡ false
single-outside type e = ground arith

pub record Single (w : World) : Type 0 where
  pub single : is_single w.self.content.type ≡ true

touch-Single : Keeps Single (change touch_message)
unfolding touch_message modify
touch-Single = record { at = λ w p. record { single = p.single } }

module _ (h : Host) where
  -- The jobs that do not process another message.
  abbrev is_direct : Job → Bool
  is_direct (Job.auth_client client) = true
  is_direct (Job.close_connection user_id) = true
  is_direct Job.confirmation = true
  is_direct (Job.chat request) = true
  is_direct (Job.fetch count) = true
  is_direct _ = false

  do_process_direct :
      (again : Task) (j : Job) → is_direct j ≡ true → Ends Any (do_process h again j)
  unfolding do_process confirmation_do_process
  do_process_direct again (Job.auth_client client) d = auth_client_do_process-Ends h client
  do_process_direct again (Job.close_connection user_id) d =
      close_connection_do_process-Ends h user_id
  do_process_direct again Job.confirmation d = deliver_message-Ends h
  do_process_direct again (Job.chat request) d = custom_do_process-Ends h request
  do_process_direct again (Job.fetch count) d = fetch_do_process-Ends h count
  do_process_direct again (Job.group g) d = cc
  do_process_direct again (Job.internal inner) d = cc
  do_process_direct again (Job.state_changed inner state) d = cc
  do_process_direct again (Job.user_connected user_id) d = cc
  do_process_direct again (Job.user_disconnected user_id) d = cc

  abbrev IsDirect : Reading → Type 0
  IsDirect (job j) = is_direct j ≡ true
  IsDirect _ = Unit

  read-IsDirect :
      {A : Type 0} (f : A → Job) (o : Option A)
      → ((a : A) → is_direct (f a) ≡ true)
      → IsDirect (read f o)
  read-IsDirect f none d = tt
  read-IsDirect f (some a) d = d a

  reading-IsDirect :
      (type : MessageType) (p : Payload) → is_single type ≡ true → IsDirect (reading h type p)
  unfolding reading
  reading-IsDirect MessageType.auth_client p e = read-IsDirect _ _ (λ a. refl)
  reading-IsDirect MessageType.close_connection p e = read-IsDirect _ _ (λ a. refl)
  reading-IsDirect MessageType.message_confirmation p e = read-IsDirect _ _ (λ a. refl)
  reading-IsDirect MessageType.message p e = read-IsDirect _ _ (λ a. refl)
  reading-IsDirect MessageType.fetch_missing_messages_request p e = read-IsDirect _ _ (λ a. refl)
  reading-IsDirect _ p e = cc

  module _ (again : Task) (e : Ends (Wrap h) again) where
    process_reading-Single : (r : Reading) → IsDirect r → Ends Single (process_reading h again r)
    unfolding process_reading
    process_reading-Single unknown d = Ends-pure tt
    process_reading-Single unreadable d = Ends-raise _ argument-ne
    process_reading-Single (job j) d = record {
      at = λ w p.
          job-Ends h again e j w (single-outside w.self.content.type p.single)
            (λ c. (do_process_direct again j d).at _ any);
    }

  pub process-Single : (n : ℕ) → Ends Single (process h (suc (suc n)))
  unfolding process
  process-Single n =
      let again = process h (suc n) in
      process_once-Ends h again Single touch-Single (λ w p.
        (process_reading-Single again (process-Wrap h n) _
            (reading-IsDirect _ w.self.content.payload p.single)).at
          w p)
