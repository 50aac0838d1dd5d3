-- ===== src/Processor/Service/Total.antt =====
-- MessageProcessorService.process ends on group messages, state changes and internal messages.
use web_socketaa_s.Prelude.{
  ℕ, suc, ◌≡◌, ◌≢◌, ap, ◌∙◌, Option, true, false, not, ◌&&◌, if◌then◌else◌, throw, out_of_fuel,
  modify, ◌>>=◌, arith,
}
use web_socketaa_s.Model.{MessageType, is_internal}
use web_socketaa_s.Model.Message.{Message, Payload}
use web_socketaa_s.Model.Ttl.{touch_message, rounds}
use web_socketaa_s.Processor.{Host, World, Task}
use web_socketaa_s.Processor.Office.{is_current_domain_message}
use web_socketaa_s.Processor.Handlers.Internal.{internal_do_process}
use web_socketaa_s.Processor.Service.{Job, job, read, reading, do_process, process_reading, process}
use web_socketaa_s.Processor.Service.Termination.{process-Wrap, process_once-alive}
use web_socketaa_s.Processor.Service.Settled.{Single, process-Single}
use web_socketaa_s.Processor.Service.Grouped.{ForeignGroup, process-ForeignGroup}
use web_socketaa_s.Processor.Ends.{Ends, Any, any}
use web_socketaa_s.Processor.Ends.Handlers.{deliver_message-Ends}
use web_socketaa_s.Processor.Service.Ending.{kind-Ends}
use web_socketaa_s.Processor.Service.Termination.{preprocess-type}
use web_socketaa_s.Processor.Service.{process_cross_domain_message}
use web_socketaa_s.Processor.Ends.{Holds, Ends-bind, Ends-if, Ends-gets, Ends-on_object, Keeps-Any}

-- The message being processed has a type.
pub record OfType (type : MessageType) (w : World) : Type 0 where
  pub typed : w.self.content.type ≡ type

module _ (h : Host) where
  pub grouped-Ends :
      {A : Type 0} (type : MessageType) (f : A → Job) (convert : Payload → Option A)
      → is_internal type ≡ false
      → ((p : Payload) → reading h type p ≡ read f (convert p))
      → ((again : Task)
          → Ends Single again
          → Ends (ForeignGroup h) again
          → (a : A) → Ends Any (do_process h again (f a)))
      → (n : ℕ) → Ends (OfType type) (process h (suc (suc (suc n))))
  unfolding process touch_message
  grouped-Ends type f convert plain reads ends n =
      let again = process h (suc (suc n)) in
      process_once-alive h again (OfType type) (λ w p alive.
        kind-Ends h type f convert (rounds (touch_message w.self)) again plain reads
          (process-Wrap h (suc n))
          (λ a v q. (ends again (process-Single h n) (process-ForeignGroup h n) a).at _ any)
          (record w { self = touch_message w.self })
          (record { typed = p.typed; left = omega arith }))

  module _ (again : Task) (inner : Message) (e : Ends (Holds inner) again) where
    internal_do_process-Ends : Ends Any (internal_do_process h again inner)
    unfolding internal_do_process
    internal_do_process-Ends =
        Ends-bind _ _ (Ends-gets _) (Keeps-Any _)
          λ m. Ends-if _ _ _ (Ends-on_object inner again e) (deliver_message-Ends h)

    inner-Ends :
        (w : World)
        → is_internal w.self.content.type ≡ true
        → ((if not (is_internal w.self.content.type) && not (is_current_domain_message h w.self)
              then process_cross_domain_message h again
              else do_process h again (Job.internal inner))
            w).0
          ≢ throw out_of_fuel
    unfolding do_process
    inner-Ends w inside = rw inside (internal_do_process-Ends.at w any)

    pub internal-Ends :
        (w : World)
        → is_internal w.self.content.type ≡ true
        → (process_reading h again (job (Job.internal inner)) w).0 ≢ throw out_of_fuel
    unfolding process_reading ◌>>=◌ modify
    internal-Ends w inside =
        inner-Ends _ (ap is_internal (preprocess-type h (Job.internal inner) w.self) ∙ inside)
