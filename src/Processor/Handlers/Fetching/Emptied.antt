-- ===== src/Processor/Handlers/Fetching/Emptied.antt =====
-- The whole loop of FetchMissingMessagesMessageProcessor, for a user who is connected.
use std.Path.{subst}
use web_socketaa_s.Prelude.{
  ℕ, ◌<◌, String, ◌≡◌, refl, sym, ap, ◌∙◌, some, Bool, true, List, [], ◌∷◌, ◌++◌, Result, ok, throw,
  pure, modify, ◌>>=◌, ◌>>◌, arith, eq_iff, exists_in, All, append_assoc, ◌==◌,
}
use web_socketaa_s.Prelude.Effects
use web_socketaa_s.Model.Message.{Message}
use web_socketaa_s.Processor.{Host, World, Task, Delivery, on_object}
use web_socketaa_s.Processor.Store.{remove}
use web_socketaa_s.Processor.Office.{
  is_current_domain_message, populate_target_address, deliver_message,
}
use web_socketaa_s.Processor.Handlers.Internal.{deliver_page}
use web_socketaa_s.Processor.Handlers.Fetching.Delivers.{
  Sends, IsConnected, is_about, exists_in-append, deliver_message-Sends,
}

-- The repository without some messages.
abbrev pub without : List Message → List Message → List Message
without [] messages = messages
without (m ∷ ms) messages = without ms (remove m messages)

abbrev pub is_among : List Message → Delivery → Bool
is_among ms d = exists_in (λ m. m.id == d.message.id) ms

-- Each of the messages was delivered, nothing else was, and they have left the repository.
pub record Emptied (ms : List Message) (w : World) (p : Result (Unit {0}) × World) : Type 0 where
  pub new : List Delivery
  pub returned : p.0 ≡ ok tt
  pub self : p.1.self ≡ w.self
  pub channels : p.1.channels ≡ w.channels
  pub messages : p.1.messages ≡ without ms w.messages
  pub delivered : p.1.deliveries ≡ new ++ w.deliveries
  pub all : All (λ m. exists_in (is_about m.id) new ≡ true) ms
  pub only : All (λ d. is_among ms d ≡ true) new

All-append : {A : Type 0} (P : A → Type 0) (xs ys : List A) → All P xs → All P ys → All P (xs ++ ys)
All-append P [] ys px py = py
All-append P (x ∷ xs) ys (here, px) py = (here, All-append P xs ys px py)

All-map :
    {A : Type 0} {P Q : A → Type 0} (f : (a : A) → P a → Q a) (xs : List A) → All P xs → All Q xs
All-map f [] all = tt
All-map f (x ∷ xs) (here, all) = (f x here, All-map f xs all)

module _ (h : Host) where
  -- A message to the user that belongs to the domain of the processor.
  abbrev pub IsFor : String → Message → Type 0
  IsFor key m =
      (m.to ≡ some key) × (is_current_domain_message h (populate_target_address h m) ≡ true)

  abbrev rest_of : List Message → Message → Task
  rest_of ms m = do modify (λ w. record w { messages = remove m w.messages }); deliver_page h ms

  continue-Emptied :
      (m : Message) (ms : List Message) (w : World) (p : Result (Unit {0}) × World)
      → Sends m w p
      → p.1.self ≡ w.self
      → Emptied ms
          (record p.1 { messages = remove m p.1.messages })
          (deliver_page h ms (record p.1 { messages = remove m p.1.messages }))
      → Emptied (m ∷ ms) w (Effects.continue (λ _. rest_of ms m) p)
  unfolding ◌>>=◌ modify
  continue-Emptied m ms w (throw e, v) s self more = cc (s.returned)
  continue-Emptied m ms w (ok a, v) s self more = record {
    new = more.new ++ s.new;
    returned = more.returned;
    self = more.self ∙ self;
    channels = more.channels ∙ s.channels;
    messages = more.messages ∙ ap (λ xs. without ms (remove m xs)) s.messages;
    delivered =
        more.delivered
        ∙ ap (λ ds. more.new ++ ds) s.delivered
        ∙ sym (append_assoc more.new s.new w.deliveries);
    all = (
      exists_in-append (is_about m.id) more.new s.new ∙ rw s.once (ground arith),
      All-map (λ x there. exists_in-append (is_about x.id) more.new s.new ∙ rw there refl) ms
          more.all,
    );
    only =
        All-append _ more.new s.new (All-map (λ d there. ground (arith, there)) more.new more.only)
          (All-map (λ d (same, content). ground (arith, (eq_iff m.id d.message.id).1 (sym same)))
            s.new s.about);
  }

  module _ (bounded : (n bound : ℕ) → 0 < bound → h.runtime.next_int n bound < bound)
      (key : String) where
    -- Where the messages are for one user of this domain who is connected, the loop returns, has made
    -- deliveries of each of them and of no other message, and has removed them from the repository, and
    -- nothing else from it.
    pub deliver_page-Emptied :
        (ms : List Message) (w : World)
        → IsConnected h key w.channels
        → All (IsFor key) ms
        → Emptied ms w (deliver_page h ms w)
    unfolding deliver_page ◌>>=◌ pure on_object
    deliver_page-Emptied [] w c all = record {
      new = [];
      returned = refl;
      self = refl;
      channels = refl;
      messages = refl;
      delivered = refl;
      all = tt;
      only = tt;
    }
    deliver_page-Emptied (m ∷ ms) w c ((to, current), all) =
        let p = on_object m (deliver_message h) w in
        let s = deliver_message-Sends h bounded key m w c to current in
        let v : World = record p.1 { messages = remove m p.1.messages } in
        continue-Emptied m ms w p s refl (
          deliver_page-Emptied ms v
            (subst (λ channels. IsConnected h key channels) (sym s.channels) c) all)
