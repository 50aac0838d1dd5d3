-- ===== src/Processor/Service/Completion.antt =====
-- MessageProcessorService.process ends on every message.
use web_socketaa_s.Prelude.{
  ℕ, zero, suc, ◌≤◌, ◌<◌, ◌≡◌, ◌≢◌, refl, ap, ◌∙◌, none, some, throw, out_of_fuel, arith, inl, inr,
  Option-cases,
}
use web_socketaa_s.Model.{MessageType, is_internal}
use web_socketaa_s.Model.Message.{Message, MessageHead, Payload, from_head}
use web_socketaa_s.Processor.{Host, World}
use web_socketaa_s.Processor.Service.{Job, unknown, unreadable, job, read, reading, process}
use web_socketaa_s.Processor.Service.Settled.{is_single}
use web_socketaa_s.Processor.Service.Every.{
  Enough, single-Enough, unknown-Enough, unreadable-Enough, internal-Enough, grouped_message-Enough,
  state_changed-Enough, user_connected-Enough, user_disconnected-Enough,
}

module _ (h : Host) (size : Payload → ℕ)
    (smaller : (p : Payload) (i : MessageHead) (q : Payload)
      → h.jackson.to_message p ≡ some (i, q)
      → size q < size p) where
  reading-internal :
      (m : Message) (i : MessageHead) (q : Payload)
      → m.content.type ≡ MessageType.internal_message
      → h.jackson.to_message m.content.payload ≡ some (i, q)
      → reading h m.content.type m.content.payload ≡ job (Job.internal (from_head i q))
  unfolding reading
  reading-internal m i q e read = rw e (rw read refl)

  reading-unreadable :
      (m : Message)
      → m.content.type ≡ MessageType.internal_message
      → h.jackson.to_message m.content.payload ≡ none
      → reading h m.content.type m.content.payload ≡ unreadable
  unfolding reading
  reading-unreadable m e read = rw e (rw read refl)

  reading-unknown :
      (m : Message) (type : MessageType)
      → m.content.type ≡ type
      → ((p : Payload) → reading h type p ≡ unknown)
      → Enough h m 1
  reading-unknown m type e u = unknown-Enough h m (λ p. ap (λ t. reading h t p) e ∙ u p)

  ends_below :
      (bound : ℕ) (m : Message) (type : MessageType)
      → m.content.type ≡ type
      → size m.content.payload < bound
      → (n : ℕ) × Enough h m n
  unfolding reading
  ends_below zero m type e small = absurd (impossible small)
    where
      impossible : {a : ℕ} → a < 0 → ⊥
      impossible l = omega (arith, l)
  ends_below (suc bound) m MessageType.internal_message e small =
      elim (Option-cases (h.jackson.to_message m.content.payload)) [
        | inl bad ↦ (1, unreadable-Enough h m (reading-unreadable m e bad))
        | inr ((i, q), read) ↦
            let (n, enough) =
              ends_below bound (from_head i q) i.type refl
                (omega (arith, small, smaller m.content.payload i q read)) in
            (
              suc n,
              internal-Enough h m (from_head i q) n (ap is_internal e)
                  (reading-internal m i q e read) enough,
            )
      ]
  ends_below (suc bound) m MessageType.auth_client e small = (2, single-Enough h m (ap is_single e))
  ends_below (suc bound) m MessageType.close_connection e small =
      (2, single-Enough h m (ap is_single e))
  ends_below (suc bound) m MessageType.message_confirmation e small =
      (2, single-Enough h m (ap is_single e))
  ends_below (suc bound) m MessageType.message e small = (2, single-Enough h m (ap is_single e))
  ends_below (suc bound) m MessageType.fetch_missing_messages_request e small =
      (2, single-Enough h m (ap is_single e))
  ends_below (suc bound) m MessageType.group_message e small = (3, grouped_message-Enough h m e)
  ends_below (suc bound) m MessageType.message_state_changed e small =
      (3, state_changed-Enough h m e)
  ends_below (suc bound) m MessageType.user_connected e small = (_, user_connected-Enough h m e)
  ends_below (suc bound) m MessageType.user_disconnected e small =
      (_, user_disconnected-Enough h m e)
  ends_below (suc bound) m type e small = (1, reading-unknown m type e (λ p. refl))

  -- Where a message inside a payload is smaller than the payload, there is for each message a fuel
  -- from which on its processing, from any state, does not run out of fuel.
  pub process_ends :
      (m : Message)
      → (n : ℕ) × ((fuel : ℕ) (w : World)
          → n ≤ fuel
          → w.self ≡ m
          → (process h fuel w).0 ≢ throw out_of_fuel)
  process_ends m = ends_below (suc (size m.content.payload)) m m.content.type refl (omega arith)
