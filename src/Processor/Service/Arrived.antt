-- ===== src/Processor/Service/Arrived.antt =====
-- A reliable chat message that arrives at a processor leaves as a delivery, by itself or inside an
-- internal message for another domain, or stays in the repository.
use web_socketaa_s.Prelude.{
  ℕ, zero, suc, ◌≤◌, String, ◌≡◌, refl, ap, Option, none, some, true, false, not, ◌&&◌,
  if◌then◌else◌, Result, ok, throw, raise, modify, ◌>>=◌, arith, inl, inr, length, Bool-cases,
  try_catch,
}
use web_socketaa_s.Prelude.Effects
use web_socketaa_s.Model.{MessageType, MessageState, is_internal, is_reliable}
use web_socketaa_s.Model.Message.{Message, MessageRequest}
use web_socketaa_s.Model.Ttl.{touch_message, is_message_alive}
use web_socketaa_s.Processor.{Host, World, on_object}
use web_socketaa_s.Processor.Store.{find_by_id-save_self}
use web_socketaa_s.Processor.Office.{is_current_domain_message, persist_message}
use web_socketaa_s.Processor.Accounts.{Ready, Accounted, Outcome}
use web_socketaa_s.Processor.Service.{
  Job, reading, preprocess, do_process, process_cross_domain_message, process_reading, process,
  on_message_arrived, read,
}
use web_socketaa_s.Processor.Service.Kept.{
  Itself, Carries, custom_do_process-Leads, once_alive, cross-Outcome,
}

module _ (h : Host) (id : String) (n : ℕ) where
  unwrapped :
      (p : Result (Unit {0}) × World)
      → Outcome (Ready (Itself id) n) (Accounted (Itself id) n) p
      → Outcome (Ready (Itself id) n) (Accounted (Carries id) n) p
  unwrapped (ok tt, w) (s, own, kept) = (s, inl own, kept)
  unwrapped (throw e, w) p = p

  chat_dispatch :
      (fuel : ℕ) (r : MessageRequest) (w : World)
      → is_internal w.self.content.type ≡ false
      → Ready (Itself id) n w
      → Outcome (Ready (Itself id) n) (Accounted (Carries id) n) (
          (if not (is_internal w.self.content.type) && not (is_current_domain_message h w.self)
              then process_cross_domain_message h (process h (suc fuel))
              else do_process h (process h (suc fuel)) (Job.chat r))
            w)
  unfolding do_process
  chat_dispatch fuel r w plain p = elim (Bool-cases (is_current_domain_message h w.self)) [
    | inl current ↦ rw (plain, current) (unwrapped _ ((custom_do_process-Leads h id n r).at w p))
    | inr foreign ↦ rw (plain, foreign) (cross-Outcome h id n fuel w plain foreign p)
  ]

  chat_reading :
      (fuel : ℕ) (o : Option MessageRequest) (w : World)
      → is_internal w.self.content.type ≡ false
      → Ready (Itself id) n w
      → Outcome
          (Ready (Itself id) n)
          (Accounted (Carries id) n)
          (process_reading h (process h (suc fuel)) (read Job.chat o) w)
  unfolding process_reading ◌>>=◌ modify preprocess raise
  chat_reading fuel none w plain p = p
  chat_reading fuel (some r) w plain p =
      chat_dispatch fuel r _ plain (record { own = p.own; reliable = p.reliable; grown = p.grown })

  reading-chat :
      (w : World)
      → w.self.content.type ≡ MessageType.message
      → reading h w.self.content.type w.self.content.payload
        ≡ read Job.chat (h.jackson.to_message_request w.self.content.payload)
  unfolding reading
  reading-chat w chat = rw chat refl

  chat_processed :
      (fuel : ℕ) (w : World)
      → w.self.content.type ≡ MessageType.message
      → is_message_alive (touch_message w.self) ≡ true
      → Ready (Itself id) n w
      → Outcome (Ready (Itself id) n) (Accounted (Carries id) n) (process h (suc (suc fuel)) w)
  unfolding process touch_message
  chat_processed fuel w chat alive p = rw (once_alive h id n (process h (suc fuel)) w alive) (
      rw (reading-chat w chat) (
        chat_reading fuel _ (record w { self = touch_message w.self }) (ap is_internal chat)
          (record { own = p.own; reliable = p.reliable; grown = p.grown })))

  -- PostOffice.onMessageArrived catches what the processing throws.
  caught_kept :
      (p : Result (Unit {0}) × World)
      → Outcome (Ready (Itself id) n) (Accounted (Carries id) n) p
      → Accounted
          (Carries id)
          n
          (Effects.caught (λ _. persist_message MessageState.processor_error) p).1
  unfolding persist_message
  caught_kept (ok tt, w) a = a
  caught_kept (throw e, w) p = (
    record w.self { state = MessageState.processor_error },
    inl p.own,
    inr (rw p.reliable (find_by_id-save_self _ w.messages)),
  )

module _ (h : Host) where
  -- With a fuel of at least 2, a reliable chat message that is alive after it was touched is not
  -- lost when it arrives: afterwards, after all earlier deliveries, it or an internal message that
  -- holds it is the latest delivery, or one of them is in the repository.
  pub on_message_arrived-Accounted :
      (fuel : ℕ) (m : Message) (w : World)
      → 2 ≤ fuel
      → m.content.type ≡ MessageType.message
      → is_reliable m.content.feature ≡ true
      → is_message_alive (touch_message m) ≡ true
      → Accounted (Carries m.id) (length w.deliveries) (on_message_arrived h fuel m w).1
  unfolding on_message_arrived on_object try_catch
  on_message_arrived-Accounted zero m w le chat reliable alive = absurd (none_below le)
    where
      none_below : 2 ≤ 0 → ⊥
      none_below l = omega (arith, l)
  on_message_arrived-Accounted (suc zero) m w le chat reliable alive = absurd (none_below le)
    where
      none_below : 2 ≤ 1 → ⊥
      none_below l = omega (arith, l)
  on_message_arrived-Accounted (suc (suc fuel)) m w le chat reliable alive =
      caught_kept h m.id (length w.deliveries) _ (
        chat_processed h m.id (length w.deliveries) fuel (record w { self = m }) chat alive
          (record { own = refl; reliable = reliable; grown = omega arith }))
