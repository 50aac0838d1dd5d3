-- ===== src/Domains/Crossing.antt =====
-- The way of a message into another domain: the processor wraps it, the other domain's tunnel takes
-- the wrapper's content as a client, and the processor there unwraps it.
pub mod Tests
use web_socketaa_s.Prelude.{
  ℕ, suc, ◌≡◌, refl, sym, ap, ◌∙◌, Option, none, some, Bool, true, false, not, ◌||◌, List, ◌∷◌,
  Result, ok, ◌>>=◌, modify, gets, pure, if◌then◌else◌, arith, Bool-cases, inl, inr,
}
use web_socketaa_s.Text.{is_blank, equals_ignore_case}
use web_socketaa_s.Model.{MessageType, is_internal}
use web_socketaa_s.Model.Message.{
  Message, MessageContent, Payload, build, to_content_output, create_message_content, new_meta,
  as_payload, from_head, head,
}
use web_socketaa_s.Model.Ttl.{touch_message, is_message_alive}
use web_socketaa_s.Processor.{Host, World, Task, on_object, new_message}
use web_socketaa_s.Processor.Office.{
  domain_of, domain_address, is_current_domain_message, resolve_domain_name, set_to,
}
use web_socketaa_s.Processor.Handlers.Internal.{internal_do_process}
use web_socketaa_s.Processor.Service.{
  Job, job, read, reading, preprocess, do_process, process_reading, process_once, process,
  process_cross_domain_message,
}
use web_socketaa_s.Domains.Tunnel
use web_socketaa_s.Domains.Tunnel.{
  DomainTunnel, converted, on_message_arrived, on_message, handle_internal_message,
}

-- What the tunnel hands to the PostOffice of its processor for a message inside a wrapper.
abbrev rewrapped : Tunnel.Host → Message → DomainTunnel → Message
rewrapped t m s =
    build t.runtime s.used m.from m.to
      (create_message_content MessageType.internal_message (as_payload m) m.content.feature)
      (new_meta m.meta.original_address none)

-- A receiver that is set already is set again without effect.
to_itself : (b : Bool) (m : Message) → (if b then set_to m.to m else m) ≡ m
to_itself true m = refl
to_itself false m = refl

module _ (h : Host) (m : Message) where
  -- The receiver of the message belongs to the domain of this processor.
  abbrev pub IsAtHome : Type 0
  IsAtHome = equals_ignore_case h.strings (some h.domain_name) (domain_of h m.to) ≡ true

  rewrapped-IsCurrent :
      (t : Tunnel.Host) (s : DomainTunnel)
      → IsAtHome
      → is_current_domain_message h (touch_message (rewrapped t m s)) ≡ true
  unfolding is_current_domain_message resolve_domain_name touch_message build
  rewrapped-IsCurrent t s home = rw home (ground arith)

  unwraps :
      (t : Tunnel.Host) (s : DomainTunnel) (fuel : ℕ) (w : World)
      → IsAtHome
      → process h (suc fuel) (record w { self = rewrapped t m s })
        ≡ on_object m (process h fuel) (record w { self = touch_message (rewrapped t m s) })
  unfolding process process_once ◌>>=◌ modify gets build touch_message is_message_alive reading
      process_reading do_process preprocess internal_do_process
  unwraps t s fuel w home = rw (h.jackson.message_lem (head m) m.content.payload) (
      rw (to_itself (is_blank h.strings m.to) (touch_message (rewrapped t m s)))
        (rw (rewrapped-IsCurrent t s home) refl))

-- The wrapper that a processor makes of the message that it is processing.
abbrev wrapper : Host → World → Message
wrapper h w =
    let m = w.self in
    build h.runtime w.used m.from m.to
      (create_message_content MessageType.internal_message (as_payload m) m.content.feature)
      (new_meta m.meta.original_address (some (domain_address (resolve_domain_name h m))))

-- A message `m` of another domain, processed at `here`, crosses to the processor `there` unchanged.
pub record Crosses (here there : Host) (t : Tunnel.Host) (again : Task) (w : World)
    (s : DomainTunnel) (fuel : ℕ) : Type 0 where
  pub sent : Message
  pub handed : Message
  -- it is wrapped into the message `sent`, which is processed in its place
  pub wraps :
      process_cross_domain_message here again w
      ≡ on_object sent again (record w { used = suc w.used })
  -- what a connector writes of `sent` makes the tunnel hand over one message to its processor
  pub arrives :
      (on_message_arrived t (to_content_output sent.content) sent.content.type s).1.arrived
      ≡ handed ∷ s.arrived
  -- which goes on with the message as it was
  pub unwrapped :
      (v : World)
      → process there (suc fuel) (record v { self = handed })
        ≡ on_object w.self (process there fuel) (record v { self = touch_message handed })

-- Where the message that is processed is not an internal one, and the processor there finds that its
-- receiver belongs to its own domain, the message crosses: what is processed in its place is one
-- message, whose content, once a connector has written it to the tunnel of the other domain, makes
-- the tunnel hand over one message, and processing that there, with a fuel of at least one, is
-- processing the message as it was.
pub process_cross_domain_message-Crosses :
    (here there : Host) (t : Tunnel.Host) (again : Task) (w : World) (s : DomainTunnel) (fuel : ℕ)
    → is_internal w.self.content.type ≡ false
    → IsAtHome there w.self
    → Crosses here there t again w s fuel
unfolding process_cross_domain_message ◌>>=◌ new_message on_message_arrived on_message
    handle_internal_message converted to_content_output build
process_cross_domain_message-Crosses here there t again w s fuel plain home = record {
  sent = wrapper here w;
  handed = rewrapped t w.self s;
  wraps = rw plain refl;
  arrives = rw (t.jackson.message_lem (head w.self) w.self.content.payload) refl;
  unwrapped = λ v. unwraps there w.self t s fuel v home;
}
