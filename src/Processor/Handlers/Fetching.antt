-- ===== src/Processor/Handlers/Fetching.antt =====
-- What the loop of FetchMissingMessagesMessageProcessor does with a page of a user who has no
-- address at that time.
pub mod Delivers
pub mod Emptied
pub mod Fetched
pub mod Tests
use web_socketaa_s.Prelude.{
  String, ◌≡◌, refl, ap, ◌∙◌, none, some, Bool, true, false, List, [], ◌∷◌, Result, ok, throw, pure,
  modify, ◌>>=◌, ◌>>◌, arith, lookup, eq_iff, All, Bool-cases, inl, inr, ◌==◌, if◌then◌else◌,
}
use web_socketaa_s.Prelude.Effects
use web_socketaa_s.Model.Message.{Message}
use web_socketaa_s.Processor.{Host, World, on_object}
use web_socketaa_s.Processor.Store.{find_by_id, save, remove, find_by_id-save, find_by_id-remove}
use web_socketaa_s.Processor.Office.{
  is_current_domain_message, is_connector_user, adjust_delivery_type, populate_target_address,
  get_route_target_addresses, send_to_connector, send_or_persist, persist_message, deliver_message,
}
use web_socketaa_s.Processor.Handlers.Internal.{deliver_page}

module _ (h : Host) where
  -- The receiver is a user without a channel.
  pub record IsOffline (key : String) (w : World) : Type 0 where
    pub named : h.strings.blank key ≡ false
    pub user : is_connector_user h (some key) ≡ false
    pub offline : lookup key w.channels ≡ none

  pub to-adjust_delivery_type : (m : Message) → (adjust_delivery_type h m).to ≡ m.to
  unfolding adjust_delivery_type
  to-adjust_delivery_type m = ground arith

  pub to-populate_target_address : (m : Message) → (populate_target_address h m).to ≡ m.to
  unfolding populate_target_address
  to-populate_target_address m = ground arith

  -- A message that was not delivered, and what became of the others in the repository.
  record Undelivered (m : Message) (w : World) (p : Result (Unit {0}) × World) : Type 0 where
    returned : p.0 ≡ ok tt
    channels : p.1.channels ≡ w.channels
    deliveries : p.1.deliveries ≡ w.deliveries
    others :
        (id : String) → (m.id == id) ≡ false → find_by_id id p.1.messages ≡ find_by_id id w.messages

  id-adjust_delivery_type : (m : Message) → (adjust_delivery_type h m).id ≡ m.id
  unfolding adjust_delivery_type
  id-adjust_delivery_type m = ground arith

  id-populate_target_address : (m : Message) → (populate_target_address h m).id ≡ m.id
  unfolding populate_target_address
  id-populate_target_address m = ground arith

  saved_if :
      (stored : Bool) (x m : Message) (id : String) (xs : List Message)
      → x.id ≡ m.id
      → (m.id == id) ≡ false
      → find_by_id id (if stored then save x xs else xs) ≡ find_by_id id xs
  saved_if true x m id xs same apart =
      find_by_id-save x id xs ∙ rw (ap (λ i. i == id) same ∙ apart) refl
  saved_if false x m id xs same apart = refl

  nowhere :
      (key : String) (w : World)
      → w.self.to ≡ some key
      → IsOffline key w
      → Undelivered w.self w (send_to_connector h w)
  unfolding send_to_connector ◌>>=◌ modify get_route_target_addresses send_or_persist
      persist_message
  nowhere key w to o = rw (to-adjust_delivery_type w.self ∙ to) (
      rw (o.named, o.user, o.offline)
        (record {
          returned = refl;
          channels = refl;
          deliveries = refl;
          others =
              λ id apart. saved_if _ _ w.self id w.messages (id-adjust_delivery_type w.self) apart;
        }))

  undelivered :
      (key : String) (m : Message) (w : World)
      → m.to ≡ some key
      → is_current_domain_message h (populate_target_address h m) ≡ true
      → IsOffline key w
      → Undelivered m w (on_object m (deliver_message h) w)
  unfolding deliver_message on_object ◌>>=◌ modify
  undelivered key m w to current o = rw current (
      let u =
        nowhere key (record w { self = populate_target_address h m })
          (to-populate_target_address m ∙ to)
          (record { named = o.named; user = o.user; offline = o.offline }) in
      record {
        returned = u.returned;
        channels = u.channels;
        deliveries = u.deliveries;
        others = λ id apart. u.others id (ap (λ i. i == id) (id-populate_target_address m) ∙ apart);
      })

  -- Nothing was delivered, and none of the messages is in the repository.
  record Lost (ms : List Message) (w v : World) : Type 0 where
    deliveries : v.deliveries ≡ w.deliveries
    stays : (id : String) → find_by_id id w.messages ≡ none → find_by_id id v.messages ≡ none
    gone : All (λ m. find_by_id m.id v.messages ≡ none) ms

  abbrev cleared : Message → World → World
  cleared m v = record v { messages = remove m v.messages }

  removed :
      (m : Message) (v : World) (id : String)
      → ((m.id == id) ≡ false → find_by_id id v.messages ≡ none)
      → find_by_id id (remove m v.messages) ≡ none
  removed m v id others = find_by_id-remove m id v.messages ∙ elim (Bool-cases (m.id == id)) [
    | inl same ↦ rw same refl
    | inr apart ↦ rw apart (others apart)
  ]

  continue-Lost :
      (m : Message) (ms : List Message) (w : World) (p : Result (Unit {0}) × World)
      → Undelivered m w p
      → Lost ms (cleared m p.1) (deliver_page h ms (cleared m p.1)).1
      → Lost
          (m ∷ ms)
          w
          (Effects.continue
            (λ _. do modify (λ v. record v { messages = remove m v.messages }); deliver_page h ms)
            p).1
  unfolding modify ◌>>=◌
  continue-Lost m ms w (throw e, v) u l = cc (u.returned)
  continue-Lost m ms w (ok a, v) u l = record {
    deliveries = l.deliveries ∙ u.deliveries;
    stays = λ id absent. l.stays id (removed m v id λ apart. u.others id apart ∙ absent);
    gone = (l.stays m.id (removed m v m.id λ apart. cc (apart, (eq_iff m.id m.id).1 refl)), l.gone);
  }

  deliver_page-Lost :
      (key : String) (ms : List Message) (w : World)
      → All
          (λ m.
            (m.to ≡ some key) × (is_current_domain_message h (populate_target_address h m) ≡ true))
          ms
      → IsOffline key w
      → Lost ms w (deliver_page h ms w).1
  unfolding deliver_page ◌>>=◌ pure
  deliver_page-Lost key [] w all o = record {
    deliveries = refl;
    stays = λ id absent. absent;
    gone = tt;
  }
  deliver_page-Lost key (m ∷ ms) w ((to, current), all) o =
      let p = on_object m (deliver_message h) w in
      let u = undelivered key m w to current o in
      continue-Lost m ms w p u (
        deliver_page-Lost key ms (cleared m p.1) all (record {
          named = o.named;
          user = o.user;
          offline = ap (λ channels. lookup key channels) u.channels ∙ o.offline;
        }))

  -- Where all messages of a page are for one user, and for the domain of the processor by their target
  -- addresses or, without one, by the user, and the user has no channel and a name that is neither blank
  -- nor a connector's, nothing is delivered, and none of the messages is in the repository afterwards.
  pub deliver_page-loses :
      (key : String) (ms : List Message) (w : World)
      → All
          (λ m.
            (m.to ≡ some key) × (is_current_domain_message h (populate_target_address h m) ≡ true))
          ms
      → IsOffline key w
      → ((deliver_page h ms w).1.deliveries ≡ w.deliveries)
        × All (λ m. find_by_id m.id (deliver_page h ms w).1.messages ≡ none) ms
  deliver_page-loses key ms w all o =
      let l = deliver_page-Lost key ms w all o in (l.deliveries, l.gone)
