-- ===== src/Processor/Service/Ending.antt =====
-- MessageProcessorService.process ends on messages whose type has one kind of job, and on connection
-- messages.
use web_socketaa_s.Prelude.{
  ℕ, zero, suc, ◌≤◌, String, ◌≡◌, ◌≢◌, ap, ◌∙◌, Option, none, some, false, throw, out_of_fuel,
  arith,
}
use web_socketaa_s.Model.{MessageType, is_internal}
use web_socketaa_s.Model.Message.{Message, Payload}
use web_socketaa_s.Model.Ttl.{touch_message, rounds, rounds-touch_message}
use web_socketaa_s.Processor.{Host, World, Task}
use web_socketaa_s.Processor.Service.{
  Job, read, reading, preprocess, do_process, process_reading, process,
}
use web_socketaa_s.Processor.Service.Termination.{Wrap, job-Ends, process-Wrap, process_once-alive}
use web_socketaa_s.Processor.Service.Connections.{Typed}
use web_socketaa_s.Processor.Ends.{Ends, Any, any, Ends-raise}
use web_socketaa_s.Processor.Ends.Handlers.{argument-ne}

module _ (h : Host) where
  -- A message whose type has jobs of one kind that end in the current domain ends.
  pub kind-Ends :
      {A : Type 0} (type : MessageType) (f : A → Job) (convert : Payload → Option A) (n : ℕ)
      (again : Task)
      → is_internal type ≡ false
      → ((p : Payload) → reading h type p ≡ read f (convert p))
      → Ends (Wrap h) again
      → ((a : A) (w : World)
          → Typed type n w
          → (do_process h again (f a) (record w { self = preprocess h (f a) w.self })).0
            ≢ throw out_of_fuel)
      → (w : World) → Typed type n w
      → (process_reading h again (reading h w.self.content.type w.self.content.payload) w).0
        ≢ throw out_of_fuel
  kind-Ends {A = A} type f convert n again plain reads wrap k w p =
      rw (ap (λ t. reading h t w.self.content.payload) p.typed ∙ reads w.self.content.payload)
        (read-Ends (convert w.self.content.payload))
    where
      read-Ends : (o : Option A) → (process_reading h again (read f o) w).0 ≢ throw out_of_fuel
      read-Ends none = unfold process_reading in (Ends-raise {P = Any} _ argument-ne).at w any
      read-Ends (some a) =
          job-Ends h again wrap (f a) w (ap is_internal p.typed ∙ plain) (λ current. k a w p)

  -- A connection message ends after as many rounds as its time to live allows.
  pub connection-Ends :
      (type : MessageType) (f : Option String → Job) (convert : Payload → Option (Option String))
      → is_internal type ≡ false
      → ((p : Payload) → reading h type p ≡ read f (convert p))
      → ((n : ℕ) (again : Task)
          → Ends (Typed type n) again
          → (a : Option String) → Ends (Typed type n) (do_process h again (f a)))
      → ((a : Option String) (m : Message) → preprocess h (f a) m ≡ m)
      → (n : ℕ) → Ends (Typed type n) (process h (suc (suc n)))
  unfolding process touch_message
  connection-Ends type f convert plain reads ends still zero =
      process_once-alive h _ (Typed type 0)
        (λ w p alive. absurd (zero_ne (rounds-touch_message w.self alive) p.left))
    where
      zero_ne : {a b : ℕ} → a ≡ suc b → a ≤ 0 → ⊥
      zero_ne e l = omega (arith, e, l)
  connection-Ends type f convert plain reads ends still (suc n) =
      process_once-alive h _ (Typed type (suc n)) (λ w p alive.
        kind-Ends type f convert n (process h (suc (suc n))) plain reads (process-Wrap h (suc n))
          (λ a v q.
            rw (still a v.self)
              ((ends n _ (connection-Ends type f convert plain reads ends still n) a).at v q))
          (record w { self = touch_message w.self })
          (touched_once w p (rounds-touch_message w.self alive)))
    where
      touched_once :
          (w : World)
          → Typed type (suc n) w
          → rounds w.self ≡ suc (rounds (touch_message w.self))
          → Typed type n (record w { self = touch_message w.self })
      touched_once w p e = record {
        typed = unfold touch_message in p.typed;
        left = omega (arith, e, p.left);
      }
