-- ===== src/Processor/Service/Grouped.antt =====
-- The group messages and the state changes end: they process single messages, and group messages
-- for other domains.
use web_socketaa_s.Prelude.{
  ℕ, suc, String, ◌≡◌, refl, ap, ◌∙◌, Option, none, some, true, false, List, [], ◌∷◌, if◌then◌else◌,
  modify, arith, ◌⊎◌, inl, inr, Bool-cases,
}
use web_socketaa_s.Prelude.Effects.Keeps.{Keeps}
use web_socketaa_s.Model.{Address, MessageType, MessageState, is_internal}
use web_socketaa_s.Model.Message.{Message, Payload, build}
use web_socketaa_s.Model.Ttl.{touch_message}
use web_socketaa_s.Processor.{Host, World, Task, on_object}
use web_socketaa_s.Processor.Office.{change, is_current_domain_message, resolve_domain_name}
use web_socketaa_s.Processor.Service.{Job, Reading, reading, preprocess, process_reading, process}
use web_socketaa_s.Processor.Ends.{
  Ends, Ends-if, Ends-gets, Any, ends_rules, Ends-pure, Ends-raise, Ends-bind, Ends-on_object,
  Ends-new_message, Ends-weaken, Keeps-Any,
}
use web_socketaa_s.Processor.Ends.Handlers.{argument-ne}
use web_socketaa_s.Processor.Service.Termination.{Wrap, job-Ends, process-Wrap, process_once-Ends}
use web_socketaa_s.Processor.Service.{read}
use web_socketaa_s.Processor.Service.Settled.{Single, is_single}
use web_socketaa_s.Processor.Handlers.Groups.{
  Groups, group_do_process, process_domains, process_other_domain, process_current_domain,
  send_to_connectors, group_by_connector, process_user_address_not_found,
}
use web_socketaa_s.Processor.Handlers.Internal.{
  state_changed_do_process, send_confirmation_message_to_sender, target_domain_name,
}
use web_socketaa_s.Processor.Ends.Handlers.{process_target_not_found-Ends, persist_message-Ends}
use web_socketaa_s.Model.Message.{GroupMessage, ConnectorUserId, MessageContent, MessageMeta}
use web_socketaa_s.Text.{equals_ignore_case}
use web_socketaa_s.Processor.Office.{domain_address}
use web_socketaa_s.Model.Message.{create_message_content, new_meta}
use web_socketaa_s.Model.{processor}
use web_socketaa_s.Processor.Ends.Handlers.{route-Ends, deliver_message-Ends-on}

-- A group message for another domain.
pub record ForeignGroup (h : Host) (w : World) : Type 0 where
  pub group : w.self.content.type ≡ MessageType.group_message
  pub foreign : is_current_domain_message h w.self ≡ false

touch-ForeignGroup : (h : Host) → Keeps (ForeignGroup h) (change touch_message)
unfolding touch_message modify is_current_domain_message resolve_domain_name
touch-ForeignGroup h = record { at = λ w p. record { group = p.group; foreign = p.foreign } }

on_object-Ends :
    {P Q : World → Type 0} (m : Message) (task : Task)
    → Ends Q task
    → ((w : World) → Q (record w { self = m }))
    → Ends P (on_object m task)
unfolding on_object
on_object-Ends m task e q = record { at = λ w p. e.at _ (q w) }

build-Single :
    (h : Host) (n : ℕ) (from to : Option String) (content : MessageContent) (meta : MessageMeta)
    (w : World)
    → is_single content.type ≡ true
    → Single (record w { self = build h.runtime n from to content meta })
unfolding build
build-Single h n from to content meta w e = record { single = e }

visible_processor : (h : Host) → h.strings.blank processor ≡ false
visible_processor h = h.strings.blank_visible _ "rocessor" (omega arith) (omega arith)

build-ForeignGroup :
    (h : Host) (n : ℕ) (domain : Option String) (m : Message) (g : GroupMessage)
    (users : List String) (w : World)
    → equals_ignore_case h.strings (some h.domain_name) domain ≡ false
    → ForeignGroup h (record w {
      self =
          record (build h.runtime n m.from
            (some processor)
            (create_message_content MessageType.group_message
              (Payload.group_message (record { to = users; content = g.content }))
              m.content.feature)
            (new_meta m.meta.original_address (some (domain_address domain)))) {
              created_at = m.created_at;
            };
    })
unfolding build is_current_domain_message resolve_domain_name
build-ForeignGroup h n domain m g users w other = record {
  group = refl;
  foreign = rw (visible_processor h) other;
}

module _ (h : Host) where
  foreign_job :
      (again : Task) (r : Reading) (o : Option GroupMessage)
      → r ≡ read Job.group o
      → Ends (Wrap h) again
      → Ends (ForeignGroup h) (process_reading h again r)
  foreign_job again r none is e = rw is (unfold process_reading in Ends-raise _ argument-ne)
  foreign_job again r (some g) is e = rw is record {
    at = λ w p.
        job-Ends h again e (Job.group g) w (ap is_internal p.group)
          (λ current. unfold preprocess in cc (p.foreign, current));
  }

  reading-group :
      (p : Payload)
      → reading h MessageType.group_message p ≡ read Job.group (h.jackson.to_group_message p)
  unfolding reading
  reading-group p = refl

  pub process-ForeignGroup : (n : ℕ) → Ends (ForeignGroup h) (process h (suc (suc n)))
  unfolding process
  process-ForeignGroup n =
      let again = process h (suc n) in
      process_once-Ends h again (ForeignGroup h) (touch-ForeignGroup h) (λ w p.
        (foreign_job again _ (h.jackson.to_group_message w.self.content.payload)
            (ap (λ t. reading h t w.self.content.payload) p.group
              ∙ reading-group w.self.content.payload)
            (process-Wrap h n)).at
          w p)

  module _ (again : Task) (single : Ends Single again) where
    send_confirmation-Ends :
        (m : Message) → Ends Any (send_confirmation_message_to_sender h again m)
    unfolding send_confirmation_message_to_sender
    send_confirmation-Ends m =
        Ends-if _ _ _
          (Ends-new_message h _ _ _ _ _
            (λ n. on_object-Ends _ again single (λ w. build-Single h n _ _ _ _ w refl)))
          (Ends-pure tt)

    target_domain_name-Ends : (o : Option Address) → Ends Any (target_domain_name o)
    unfolding target_domain_name
    target_domain_name-Ends o = search ends_rules

    pub state_changed-Ends :
        (m : Message) (state : MessageState) → Ends Any (state_changed_do_process h again m state)
    unfolding state_changed_do_process
    state_changed-Ends m state = Ends-if _ _ _ (process_target_not_found-Ends h m) (
        Ends-bind _ _ (Ends-on_object m _ (Ends-weaken _ (persist_message-Ends state)))
          (Keeps-Any _)
          λ _.
            Ends-if _ _ _
              (Ends-bind _ _ (target_domain_name-Ends _) (Keeps-Any _)
                λ d. Ends-if _ _ _ (send_confirmation-Ends m) (Ends-pure tt))
              (Ends-pure tt))

    address_not_found-Ends :
        (user : String) (m : Message) (g : GroupMessage)
        → Ends Any (process_user_address_not_found h again user m g)
    unfolding process_user_address_not_found
    address_not_found-Ends user m g =
        Ends-new_message h _ _ _ _ _
          (λ n. on_object-Ends _ again single (λ w. build-Single h n _ _ _ _ w refl))

    group_by_connector-Ends :
        (m : Message) (g : GroupMessage) (users : List String) (groups : Groups ConnectorUserId)
        → Ends Any (group_by_connector h again m g users groups)
    unfolding group_by_connector
    group_by_connector-Ends m g [] groups = Ends-pure groups
    group_by_connector-Ends m g (user ∷ users) groups =
        Ends-bind _ _ (route-Ends h (some user) _) (Keeps-Any _) λ addresses.
          Ends-bind _ _ (Ends-if _ _ _ (address_not_found-Ends user m g) (Ends-pure tt))
            (Keeps-Any _) λ _. group_by_connector-Ends m g users _

    send_to_connectors-Ends :
        (m : Message) (g : GroupMessage) (groups : Groups ConnectorUserId)
        → Ends Any (send_to_connectors h m g groups)
    unfolding send_to_connectors
    send_to_connectors-Ends m g [] = Ends-pure tt
    send_to_connectors-Ends m g ((name, users) ∷ groups) = Ends-new_message h _ _ _ _ _ λ n.
        Ends-bind _ _ (deliver_message-Ends-on h _) (Keeps-Any _)
          λ _. send_to_connectors-Ends m g groups

    process_current_domain-Ends :
        (m : Message) (g : GroupMessage) (users : List String)
        → Ends Any (process_current_domain h again m g users)
    unfolding process_current_domain
    process_current_domain-Ends m g users =
        Ends-bind _ _ (group_by_connector-Ends m g users []) (Keeps-Any _)
          λ groups. send_to_connectors-Ends m g groups

    module _ (grouped : Ends (ForeignGroup h) again) where
      process_other_domain-Ends :
          (domain : Option String) (m : Message) (g : GroupMessage) (users : List String)
          → equals_ignore_case h.strings (some h.domain_name) domain ≡ false
          → Ends Any (process_other_domain h again domain m g users)
      unfolding process_other_domain
      process_other_domain-Ends domain m g users other = Ends-new_message h _ _ _ _ _ (λ n.
          on_object-Ends _ again grouped (λ w. build-ForeignGroup h n domain m g users w other))

      process_domains-Ends :
          (m : Message) (g : GroupMessage) (groups : Groups String)
          → Ends Any (process_domains h again m g groups)
      unfolding process_domains
      process_domains-Ends m g [] = Ends-pure tt
      process_domains-Ends m g ((domain, users) ∷ groups) =
          Ends-bind _ _ (domain-Ends (Bool-cases _)) (Keeps-Any _)
            λ _. process_domains-Ends m g groups
        where
          domain-Ends :
              (equals_ignore_case h.strings (some h.domain_name) domain ≡ true)
                ⊎ (equals_ignore_case h.strings (some h.domain_name) domain ≡ false)
              → Ends Any (
                  if equals_ignore_case h.strings (some h.domain_name) domain
                  then process_current_domain h again m g users
                  else process_other_domain h again domain m g users)
          domain-Ends (inl own) = rw own (process_current_domain-Ends m g users)
          domain-Ends (inr other) = rw other (process_other_domain-Ends domain m g users other)

      pub group-Ends : (g : GroupMessage) → Ends Any (group_do_process h again g)
      unfolding group_do_process
      group-Ends g = Ends-bind _ _ (Ends-gets _) (Keeps-Any _) λ m. process_domains-Ends m g _
