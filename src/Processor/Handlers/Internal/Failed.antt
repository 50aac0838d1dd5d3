-- ===== src/Processor/Handlers/Internal/Failed.antt =====
-- What MessageStateChangedMessageProcessor does with a message that a connector could not deliver.
use web_socketaa_s.Prelude.{
  ℕ, String, ◌≡◌, refl, ap, some, true, false, List, [], ◌∷◌, Result, ok, throw, pure, deref,
  modify, ◌>>=◌, arith, inl, inr, length, Bool-cases,
}
use web_socketaa_s.Prelude.Effects
use web_socketaa_s.Model.{MessageState, Address, is_reliable, is_processed, is_address_not_found}
use web_socketaa_s.Model.Message.{Message}
use web_socketaa_s.Processor.{Host, World, Task, on_object}
use web_socketaa_s.Processor.Store.{find_by_id-save_self}
use web_socketaa_s.Processor.Office.{
  is_current_domain_message, populate_target_address, persist_message, send_to_addresses,
  send_or_persist, send_to_connector, get_route_target_addresses, deliver_message,
}
use web_socketaa_s.Processor.Accounts.{Accounted, Outcome, deliver_message-Leads}
use web_socketaa_s.Processor.Handlers.{key_of}
use web_socketaa_s.Processor.Handlers.Internal.{process_target_not_found, state_changed_do_process}
use web_socketaa_s.Processor.Service.Kept.{Itself}

send_to_addresses-returns :
    (addresses : List Address) (w : World) → (send_to_addresses addresses w).0 ≡ ok tt
unfolding send_to_addresses
send_to_addresses-returns [] w = refl
send_to_addresses-returns (a ∷ addresses) w = send_to_addresses-returns addresses _

send_or_persist-returns :
    (addresses : List Address) (w : World) → (send_or_persist addresses w).0 ≡ ok tt
unfolding send_or_persist persist_message
send_or_persist-returns [] w = refl
send_or_persist-returns (a ∷ addresses) w = send_to_addresses-returns (a ∷ addresses) w

returned_outcome :
    (P Q : World → Type 0) (p : Result (Unit {0}) × World) → p.0 ≡ ok tt → Outcome P Q p → Q p.1
returned_outcome P Q (ok a, w) e q = q
returned_outcome P Q (throw x, w) e q = cc e

module _ (h : Host) where
  deliver_message-returns :
      (w : World)
      → is_current_domain_message h (populate_target_address h w.self) ≡ true
      → (deliver_message h w).0 ≡ ok tt
  unfolding deliver_message send_to_connector ◌>>=◌ modify get_route_target_addresses
  deliver_message-returns w current = rw current (send_or_persist-returns _ _)

  -- Accounted for, and returned.
  abbrev pub Settled : Message → ℕ → Result (Unit {0}) × World → Type 0
  Settled m n p = (p.0 ≡ ok tt) × Accounted (Itself m.id) n p.1

  redelivered :
      (m : Message) (w : World)
      → is_reliable m.content.feature ≡ true
      → is_current_domain_message h (populate_target_address h m) ≡ true
      → Settled m (length w.deliveries) (on_object m (deliver_message h) w)
  unfolding on_object
  redelivered m w reliable current =
      let v : World = record w { self = m } in
      let returns = deliver_message-returns v current in
      let (s, own, kept) = returned_outcome _ _ (deliver_message h v) returns (
        (deliver_message-Leads (Itself m.id) (length w.deliveries) h).at v
          (record { own = refl; reliable = reliable; grown = omega arith })) in
      (returns, (s, own, kept))

  stored :
      (m : Message) (state : MessageState) (w : World)
      → is_reliable m.content.feature ≡ true
      → is_processed state ≡ false
      → Settled m (length w.deliveries) (on_object m (persist_message state) w)
  unfolding on_object persist_message
  stored m state w reliable unprocessed = (
    refl,
    (
      record m { state = state },
      refl,
      inr (rw reliable (rw unprocessed (find_by_id-save_self _ w.messages))),
    ),
  )

  module _ (again : Task) (m : Message) (key : String) (w : World)
      (reliable : is_reliable m.content.feature ≡ true) (to : m.to ≡ some key)
      (current : is_current_domain_message h (populate_target_address h m) ≡ true) where
    target_not_found : Settled m (length w.deliveries) (process_target_not_found h m w)
    unfolding process_target_not_found key_of deref ◌>>=◌ modify pure
    target_not_found = rw (ap key_of to) (redelivered m _ reliable current)

    ended :
        (p : Result (Unit {0}) × World)
        → Settled m (length w.deliveries) p
        → Settled m (length w.deliveries) (Effects.continue (λ _. pure tt) p)
    unfolding pure
    ended (ok a, v) settled = settled
    ended (throw e, v) (returns, kept) = cc returns

    -- A reliable message that has a receiver, and whose target address or, without one, whose receiver
    -- belongs to this domain, is not lost where its state has changed to anything but PROCESSED: its
    -- processing returns, and afterwards the message is the latest delivery, after all earlier ones, or
    -- is in the repository.
    pub state_changed_do_process-Settled :
        (state : MessageState)
        → is_processed state ≡ false
        → Settled m (length w.deliveries) (state_changed_do_process h again m state w)
    unfolding state_changed_do_process ◌>>=◌ pure
    state_changed_do_process-Settled state unprocessed =
        elim (Bool-cases (is_address_not_found state)) [
          | inl missing ↦ rw missing target_not_found
          | inr other ↦ rw other (rw unprocessed (ended _ (stored m state w reliable unprocessed)))
        ]
