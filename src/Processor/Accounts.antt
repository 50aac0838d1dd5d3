-- ===== src/Processor/Accounts.antt =====
-- A reliable message that PostOffice.deliverMessage is given leaves as a delivery or stays in the
-- repository, unless it throws.

use std.Path.{subst}
use web_socketaa_s.Prelude.{
  sym, ap, ◌∙◌, ℕ, ◌≤◌, String, ◌≡◌, refl, Option, some, Bool, true, false, List, [], ◌∷◌,
  if◌then◌else◌, Exec, Result, ok, throw, Exception, raise, ◌>>=◌, arith, ◌⊎◌, inl, inr, length,
}
use web_socketaa_s.Prelude.Effects
use web_socketaa_s.Prelude.Effects.Keeps.{Keeps, keeps_rules, Keeps-modify}
use web_socketaa_s.Model.{MessageState, Address, DeliveryType, is_reliable, calc_express_delivery}
use web_socketaa_s.Model.Message.{Message, Payload}
use web_socketaa_s.Processor.{Host, World, Delivery}
use web_socketaa_s.Processor.Store.{find_by_id, find_by_id-save_self}
use web_socketaa_s.Processor.Office.{
  change, set_to, set_target_address, persist_message, send_to_addresses, send_or_persist, returned,
  adjust_delivery_type, populate_target_address, get_route_target_addresses, send_to_connector,
  deliver_message_outside_domain, deliver_message,
}

-- A reliable message, of which `K` holds, is about to be delivered; there are at least `n` deliveries.
pub record Ready (K : String → Payload → Type 0) (n : ℕ) (w : World) : Type 0 where
  pub own : K w.self.id w.self.content.payload
  pub reliable : is_reliable w.self.content.feature ≡ true
  pub grown : n ≤ length w.deliveries

-- A message of which `K` holds is the latest delivery, after at least `n` others, or is in the
-- repository.
abbrev pub Accounted : (String → Payload → Type 0) → ℕ → World → Type 0
Accounted K n w =
    (s : Message) × K s.id s.content.payload
    × (((d : Delivery) × (rest : List Delivery) × (w.deliveries ≡ d ∷ rest)
          × (d.message ≡ s)
          × (n ≤ length rest))
        ⊎ (find_by_id s.id w.messages ≡ some s))

abbrev pub Outcome : {A : Type 0} → (World → Type 0) → (World → Type 0) → Result A × World → Type 0
Outcome P Q (ok a, w) = Q w
Outcome P Q (throw e, w) = P w

-- From `P`, the action returns in `Q` or throws in `P`.
pub record Leads {A : Type 0} (P Q : World → Type 0) (task : Exec World A) : Type 0 where
  pub at : (w : World) → P w → Outcome P Q (task w)

module _ {P Q : World → Type 0} where
  pub Leads-raise : {A : Type 0} (e : Exception) → Leads P Q (raise {A = A} e)
  unfolding raise
  Leads-raise e = record { at = λ w p. p }

  pub Leads-if :
      {A : Type 0} (b : Bool) (m n : Exec World A)
      → Leads P Q m
      → Leads P Q n
      → Leads P Q (if b then m else n)
  Leads-if true m n lm ln = lm
  Leads-if false m n lm ln = ln

  continue-Leads :
      {A B : Type 0} (f : A → Exec World B) (r : Result A) (w : World)
      → ((a : A) → Leads P Q (f a))
      → P w
      → Outcome P Q (Effects.continue f (r, w))
  continue-Leads f (ok a) w k p = (k a).at w p
  continue-Leads f (throw e) w k p = p

  pub Leads-bind :
      {A B : Type 0} (m : Exec World A) (f : A → Exec World B)
      → Keeps P m
      → ((a : A) → Leads P Q (f a))
      → Leads P Q (m >>= f)
  unfolding ◌>>=◌
  Leads-bind m f keep k = record {
    at = λ w p. let (r, w') = m w in continue-Leads f r w' k (keep.at w p);
  }

pub ruleset leads_rules = (Leads-raise, Leads-if, Leads-bind)

-- The state after one delivery of PostOffice.sendToAddresses.
abbrev sent_to : Address → World → World
sent_to address w =
    let m = set_target_address (some address) w.self in
    record w {
      self = m;
      deliveries =
          record {
            type = calc_express_delivery m.content.feature;
            target = address.connector_name;
            message = m;
          }
          ∷ w.deliveries;
    }

module _ (K : String → Payload → Type 0) (n : ℕ) where
  persist_message-Leads :
      Leads (Ready K n) (Accounted K n) (persist_message MessageState.address_not_found)
  unfolding persist_message
  persist_message-Leads = record {
    at = λ w p. (
      record w.self { state = MessageState.address_not_found },
      p.own,
      inr (rw p.reliable (find_by_id-save_self _ w.messages)),
    );
  }

  send_to_addresses-Leads :
      (address : Address) (addresses : List Address)
      → Leads (Ready K n) (Accounted K n) (send_to_addresses (address ∷ addresses))
  unfolding send_to_addresses
  send_to_addresses-Leads address [] = record {
    at = λ w p. (_, p.own, inl (_, w.deliveries, refl, refl, p.grown));
  }
  send_to_addresses-Leads address (next ∷ addresses) = record {
    at = λ w p.
        (send_to_addresses-Leads next addresses).at (sent_to address w)
          (record { own = p.own; reliable = p.reliable; grown = omega (arith, p.grown) });
  }

  send_or_persist-Leads :
      (addresses : List Address) → Leads (Ready K n) (Accounted K n) (send_or_persist addresses)
  unfolding send_or_persist
  send_or_persist-Leads [] = persist_message-Leads
  send_or_persist-Leads (address ∷ addresses) = send_to_addresses-Leads address addresses

  change-Keeps :
      (f : Message → Message)
      → ((m : Message) → (f m).id ≡ m.id)
      → ((m : Message) → (f m).content ≡ m.content)
      → Keeps (Ready K n) (change f)
  change-Keeps f id content = Keeps-modify _ (λ w p. record {
    own =
        subst (λ i. K i (f w.self).content.payload) (sym (id w.self))
          (subst (λ c. K w.self.id c.payload) (sym (content w.self)) p.own);
    reliable = ap (λ c. is_reliable c.feature) (content w.self) ∙ p.reliable;
    grown = p.grown;
  })

  returned-Keeps : (r : Result (Option String)) → Keeps (Ready K n) (returned r)
  unfolding returned
  returned-Keeps (ok a) = search keeps_rules
  returned-Keeps (throw e) = search keeps_rules

  module _ (h : Host) where
    route-Keeps :
        (to : Option String) (type : DeliveryType)
        → Keeps (Ready K n) (get_route_target_addresses h to type)
    unfolding get_route_target_addresses
    route-Keeps to type = record {
      at = λ w p. record { own = p.own; reliable = p.reliable; grown = p.grown };
    }

    adjust-Keeps : Keeps (Ready K n) (change (adjust_delivery_type h))
    unfolding adjust_delivery_type
    adjust-Keeps = change-Keeps _ (λ m. ground arith) (λ m. ground arith)

    populate-Keeps : Keeps (Ready K n) (change (populate_target_address h))
    unfolding populate_target_address
    populate-Keeps = change-Keeps _ (λ m. ground arith) (λ m. ground arith)

    set_to-Keeps : (to : Option String) → Keeps (Ready K n) (change (set_to to))
    set_to-Keeps to = change-Keeps _ (λ m. refl) (λ m. refl)

    send_to_connector-Leads : Leads (Ready K n) (Accounted K n) (send_to_connector h)
    unfolding send_to_connector
    send_to_connector-Leads = Leads-bind _ _ adjust-Keeps λ _.
        Leads-bind _ _ (search keeps_rules)
          λ m. Leads-bind _ _ (route-Keeps _ _) λ addresses. send_or_persist-Leads addresses

    outside-Leads : Leads (Ready K n) (Accounted K n) (deliver_message_outside_domain h)
    unfolding deliver_message_outside_domain
    outside-Leads = Leads-bind _ _ (search keeps_rules) λ m. Leads-if _ _ _ (Leads-raise _) (
        Leads-bind _ _ (search keeps_rules) λ target. Leads-bind _ _ (returned-Keeps _) λ next.
          Leads-if _ _ _ (Leads-raise _)
            (Leads-bind _ _ (set_to-Keeps _) λ _. send_to_connector-Leads))

    pub deliver_message-Leads : Leads (Ready K n) (Accounted K n) (deliver_message h)
    unfolding deliver_message
    deliver_message-Leads = Leads-bind _ _ populate-Keeps λ _.
        Leads-bind _ _ (search keeps_rules)
          λ m. Leads-if _ _ _ send_to_connector-Leads outside-Leads
