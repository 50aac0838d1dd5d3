-- ===== src/Processor/Handlers/Fetching/Fetched.antt =====
-- FetchMissingMessagesMessageProcessor.doProcess as a whole, for a user who is connected.
use std.Path.{subst}
use web_socketaa_s.Prelude.{
  ℕ, suc, ◌<◌, ◌-◌, String, ◌≡◌, refl, sym, ap, ◌∙◌, none, some, true, List, ◌++◌, pos, leb,
  if◌then◌else◌, Result, ok, throw, pure, deref, gets, modify, ◌>>=◌, arith, exists_in, All, length,
}
use web_socketaa_s.Prelude.Effects
use web_socketaa_s.Text.{equals_ignore_case}
use web_socketaa_s.Model.{MessageType, MessageFeature, system}
use web_socketaa_s.Model.Message.{Message, MessageContent, Payload, build, create_message_content}
use web_socketaa_s.Processor.{Host, World, Delivery, on_object, new_message}
use web_socketaa_s.Processor.Store.{Page, find_missing_messages}
use web_socketaa_s.Processor.Store.Paged.{Paged, find_missing_messages-Paged}
use web_socketaa_s.Processor.Office.{
  change, domain_of, is_current_domain_message, populate_target_address, resolve_domain_name,
}
use web_socketaa_s.Processor.Handlers.Internal.{
  deliver_page, send_complete_message, page_size, fetch_do_process,
}
use web_socketaa_s.Processor.Handlers.Fetching.Delivers.{
  Sends, IsConnected, IsCopy, is_about, deliver_message-Sends,
}
use web_socketaa_s.Processor.Handlers.Fetching.Emptied.{
  Emptied, IsFor, is_among, without, deliver_page-Emptied,
}

-- What the user is told at the end.
abbrev pub complete : ℕ → MessageContent
complete left =
    create_message_content MessageType.fetch_missing_messages_complete
      (Payload.fetch_missing_messages_complete (some (pos left))) MessageFeature.reliable

-- The number of messages left was delivered, and nothing else happened.
pub record Told (left : ℕ) (w : World) (p : Result (Unit {0}) × World) : Type 0 where
  pub id : String
  pub new : List Delivery
  pub returned : p.0 ≡ ok tt
  pub channels : p.1.channels ≡ w.channels
  pub messages : p.1.messages ≡ w.messages
  pub delivered : p.1.deliveries ≡ new ++ w.deliveries
  pub copies : All (IsCopy id (complete left)) new
  pub once : exists_in (is_about id) new ≡ true

-- The page was delivered and removed, and the user was told afterwards how many messages are left.
pub record Fetched (page : List Message) (left : ℕ) (w : World) (p : Result (Unit {0}) × World)
    : Type 0 where
  pub id : String
  pub page_deliveries : List Delivery
  pub replies : List Delivery
  pub returned : p.0 ≡ ok tt
  pub channels : p.1.channels ≡ w.channels
  pub messages : p.1.messages ≡ without page w.messages
  pub delivered : p.1.deliveries ≡ replies ++ (page_deliveries ++ w.deliveries)
  pub all : All (λ m. exists_in (is_about m.id) page_deliveries ≡ true) page
  pub only : All (λ d. is_among page d ≡ true) page_deliveries
  pub copies : All (IsCopy id (complete left)) replies
  pub once : exists_in (is_about id) replies ≡ true

module _ (h : Host) (key : String)
    (bounded : (n bound : ℕ) → 0 < bound → h.runtime.next_int n bound < bound)
    (local : equals_ignore_case h.strings (some h.domain_name) (domain_of h (some key))
      ≡ true) where
  abbrev reply : ℕ → World → Message
  reply left w = build h.runtime w.used (some system) w.self.from (complete left) w.self.meta

  reply-IsFor :
      (left : ℕ) (w : World)
      → w.self.from ≡ some key
      → w.self.meta.target_address ≡ none
      → IsFor h key (reply left w)
  unfolding build populate_target_address is_current_domain_message resolve_domain_name
  reply-IsFor left w from untargeted = (from, rw untargeted (rw from (rw local (ground arith))))

  done :
      (left n : ℕ) (m : Message) (f : Message → Message) (w : World) (p : Result (Unit {0}) × World)
      → m.content ≡ complete left
      → Sends m (record w { used = n }) (p.0, record p.1 { self = w.self })
      → Told left w (Effects.continue (λ _. change f) p)
  unfolding modify
  done left n m f w (throw e, t) content s = cc (s.returned)
  done left n m f w (ok a, t) content s = record {
    id = m.id;
    new = s.new;
    returned = refl;
    channels = s.channels;
    messages = s.messages;
    delivered = s.delivered;
    copies = subst (λ c. All (IsCopy m.id c) s.new) content s.about;
    once = s.once;
  }

  send_complete_message-Told :
      (left : ℕ) (w : World)
      → IsConnected h key w.channels
      → w.self.from ≡ some key
      → w.self.meta.target_address ≡ none
      → Told left w (send_complete_message h left w)
  unfolding send_complete_message ◌>>=◌ gets modify new_message on_object build
  send_complete_message-Told left w c from untargeted =
      let m = reply left w in
      let (to, current) = reply-IsFor left w from untargeted in
      let v : World = record w { used = suc w.used } in
      done left (suc w.used) m _ w _ refl (deliver_message-Sends h bounded key m v c to current)

  continue-Fetched :
      (page : List Message) (left : ℕ) (w : World) (p : Result (Unit {0}) × World)
      → Emptied page w p
      → Told left p.1 (send_complete_message h left p.1)
      → Fetched page left w (Effects.continue (λ _. send_complete_message h left) p)
  continue-Fetched page left w (throw e, v) emptied told = cc (emptied.returned)
  continue-Fetched page left w (ok a, v) emptied told = record {
    id = told.id;
    page_deliveries = emptied.new;
    replies = told.new;
    returned = told.returned;
    channels = told.channels ∙ emptied.channels;
    messages = told.messages ∙ emptied.messages;
    delivered = told.delivered ∙ ap (λ ds. told.new ++ ds) emptied.delivered;
    all = emptied.all;
    only = emptied.only;
    copies = told.copies;
    once = told.once;
  }

  abbrev asked_page : ℕ → World → Page
  asked_page n w =
      find_missing_messages w.self.from (if leb 2000 (suc n) then 2000 else suc n) w.messages

  -- Let a user of this domain who is connected, and whose name is neither blank nor a connector's, ask
  -- for a number of missing messages that is at least one, in a request without a target address, and
  -- let the messages of the page be for this domain, by their target addresses or, without one, by the
  -- user; an index that is drawn is below its bound. The
  -- page is one of the messages to the user whose state is ADDRESS_NOT_FOUND or NETWORK_ERROR, the
  -- earliest ones, at most 2000 and at most as many as were asked for. The processing returns. It has
  -- made deliveries of each message of the page and of no other, after them deliveries that tell the
  -- user how many of those messages stay behind, and no others; it has removed the messages of the page
  -- from the repository, and nothing else.
  pub fetch_do_process-Fetched :
      (n : ℕ) (w : World)
      → IsConnected h key w.channels
      → w.self.from ≡ some key
      → w.self.meta.target_address ≡ none
      → All
          (IsFor h key)
          (find_missing_messages w.self.from
            (if leb 2000 (suc n) then 2000 else suc n)
            w.messages).content
      → (page : Page) × (paged : Paged w.self.from
          (if leb 2000 (suc n) then 2000 else suc n)
          w.messages
          page)
        × Fetched page.content (length paged.rest) w (fetch_do_process h (some (pos (suc n))) w)
  unfolding fetch_do_process page_size ◌>>=◌ gets deref pure
  fetch_do_process-Fetched n w c from untargeted all =
      let size = if leb 2000 (suc n) then 2000 else suc n in
      let page = asked_page n w in
      let paged = find_missing_messages-Paged w.self.from size w.messages in
      let p = deliver_page h page.content w in
      let e = deliver_page-Emptied h bounded key page.content w c all in
      let left = page.total - length page.content in
      let fetched = continue-Fetched page.content left w p e (
        send_complete_message-Told left p.1
          (subst (λ channels. IsConnected h key channels) (sym e.channels) c)
          (ap (λ m. m.from) e.self ∙ from) (ap (λ m. m.meta.target_address) e.self ∙ untargeted)) in
      let behind : left ≡ length paged.rest = omega (arith, paged.counted) in
      (
        page,
        paged,
        subst (λ k. Fetched page.content k w (fetch_do_process h (some (pos (suc n))) w)) behind
            fetched,
      )
