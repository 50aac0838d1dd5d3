-- ===== src/Processor/Service/Kept.antt =====
-- What a message for another domain becomes: an internal message that holds it, which is delivered.
use web_socketaa_s.Prelude.{
  ℕ, suc, String, ◌≡◌, refl, ap, ◌∙◌, some, true, false, Result, ok, throw, modify, ◌>>=◌, ◌⊎◌, inr,
}
use web_socketaa_s.Prelude.Effects.Keeps.{Keeps-modify}
use web_socketaa_s.Model.{MessageType, is_internal, is_reliable}
use web_socketaa_s.Model.Message.{
  Message, MessageHead, MessageRequest, Payload, as_payload, build, create_message_content,
  new_meta, head, from_head,
}
use web_socketaa_s.Model.Ttl.{touch_message, is_message_alive}
use web_socketaa_s.Processor.{Host, World, Task, on_object, new_message}
use web_socketaa_s.Processor.Office.{
  domain_address, resolve_domain_name, is_current_domain_message, deliver_message,
}
use web_socketaa_s.Processor.Handlers.{custom_do_process}
use web_socketaa_s.Processor.Handlers.Internal.{internal_do_process}
use web_socketaa_s.Processor.Accounts.{
  Ready, Accounted, Outcome, Leads, Leads-bind, deliver_message-Leads,
}
use web_socketaa_s.Processor.Service.{
  Job, job, reading, do_process, process_cross_domain_message, process_reading, process_once,
  process, read,
}
use web_socketaa_s.Processor.Service.Termination.{Wrap, preprocess-foreign}

-- The message with the id; a message that holds it; or either.
abbrev pub Itself : String → String → Payload → Type 0
Itself id i p = i ≡ id

abbrev pub Holder : String → String → Payload → Type 0
Holder id i p = (m : MessageHead) × (q : Payload) × (p ≡ Payload.message m q) × (m.id ≡ id)

abbrev pub Carries : String → String → Payload → Type 0
Carries id i p = Itself id i p ⊎ Holder id i p

module _ (h : Host) (id : String) (n : ℕ) where
  pub custom_do_process-Leads :
      (r : MessageRequest)
      → Leads (Ready (Itself id) n) (Accounted (Itself id) n) (custom_do_process h r)
  unfolding custom_do_process
  custom_do_process-Leads r =
      Leads-bind _ _
        (Keeps-modify _ λ w p. record { own = p.own; reliable = p.reliable; grown = p.grown })
        λ _.
          Leads-bind _ _
            (Keeps-modify _ λ w p. record { own = p.own; reliable = p.reliable; grown = p.grown })
            λ _. deliver_message-Leads (Itself id) n h

  pub once_alive :
      (again : Task) (w : World)
      → is_message_alive (touch_message w.self) ≡ true
      → process_once h again w
        ≡ process_reading h again
            (reading h w.self.content.type w.self.content.payload)
            (record w { self = touch_message w.self })
  unfolding process_once ◌>>=◌ modify touch_message
  once_alive again w alive = rw alive refl

  wrapped_lem :
      (again : Task) (inner : Message) (w : World)
      → Wrap h w
      → process_reading h again (job (Job.internal inner)) w ≡ deliver_message h w
  unfolding process_reading ◌>>=◌ modify do_process internal_do_process
  wrapped_lem again inner w p =
      rw (preprocess-foreign h inner w.self p.foreign) (rw p.inside (rw p.foreign refl))

  -- The internal message that is built for a message of another domain, and the state in which it
  -- is delivered.
  abbrev wrapped : World → Message
  wrapped w =
      build h.runtime w.used w.self.from w.self.to
        (create_message_content MessageType.internal_message (as_payload w.self)
          w.self.content.feature)
        (new_meta w.self.meta.original_address
          (some (domain_address (resolve_domain_name h w.self))))

  abbrev wrapping : World → World
  wrapping w = record w { used = suc w.used; self = touch_message (wrapped w) }

  wrapped_delivered :
      (fuel : ℕ) (w : World)
      → is_current_domain_message h w.self ≡ false
      → process h (suc fuel) (record w { used = suc w.used; self = wrapped w })
        ≡ deliver_message h (wrapping w)
  unfolding process build touch_message reading is_current_domain_message resolve_domain_name
      is_message_alive
  wrapped_delivered fuel w foreign =
      once_alive (process h fuel) (record w { used = suc w.used; self = wrapped w }) refl
      ∙ ap (λ r. process_reading h (process h fuel) r (wrapping w))
          (ap (read (λ (i, q). Job.internal (from_head i q)))
            (h.jackson.message_lem (head w.self) w.self.content.payload))
      ∙ wrapped_lem (process h fuel) w.self (wrapping w)
          (record { inside = refl; foreign = foreign })

  wrapping-Ready : (w : World) → Ready (Itself id) n w → Ready (Holder id) n (wrapping w)
  unfolding touch_message build
  wrapping-Ready w p = record {
    own = (head w.self, w.self.content.payload, refl, p.own);
    reliable = p.reliable;
    grown = p.grown;
  }

  restored :
      (m : Message) (p : Result (Unit {0}) × World)
      → m.id ≡ id
      → is_reliable m.content.feature ≡ true
      → Outcome (Ready (Holder id) n) (Accounted (Holder id) n) p
      → Outcome (Ready (Itself id) n) (Accounted (Carries id) n) (p.0, record (p.1) { self = m })
  restored m (ok tt, w) own reliable (s, holds, kept) = (s, inr holds, kept)
  restored m (throw e, w) own reliable p = record {
    own = own;
    reliable = reliable;
    grown = p.grown;
  }

  pub cross-Outcome :
      (fuel : ℕ) (w : World)
      → is_internal w.self.content.type ≡ false
      → is_current_domain_message h w.self ≡ false
      → Ready (Itself id) n w
      → Outcome
          (Ready (Itself id) n)
          (Accounted (Carries id) n)
          (process_cross_domain_message h (process h (suc fuel)) w)
  unfolding process_cross_domain_message ◌>>=◌ new_message on_object
  cross-Outcome fuel w plain foreign p = rw plain (
      rw (wrapped_delivered fuel w foreign) (
        restored w.self _ p.own p.reliable
          ((deliver_message-Leads (Holder id) n h).at (wrapping w) (wrapping-Ready w p))))
