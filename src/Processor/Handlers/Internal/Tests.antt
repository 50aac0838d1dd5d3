-- ===== src/Processor/Handlers/Internal/Tests.antt =====
-- A message that did not find its receiver at the address to which it was sent.
use web_socketaa_s.Prelude.{refl, some, length}
use web_socketaa_s.Model.{MessageState, new_address}
use web_socketaa_s.Model.Message.{Message, build}
use web_socketaa_s.Processor.Office.{
  is_current_domain_message, populate_target_address, resolve_domain_name, set_target_address,
}
use web_socketaa_s.Processor.Service.{process}
use web_socketaa_s.Processor.Handlers.Internal.{state_changed_do_process}
use web_socketaa_s.Processor.Handlers.Internal.Failed.{Settled, state_changed_do_process-Settled}
use web_socketaa_s.Processor.Tests.{host, chat, world}

abbrev tried : Message
tried = set_target_address (some (new_address (some "domain-01") (some "Connector-01"))) chat

state_changed_do_process-Settled_example :
    Settled host tried
      (length world.deliveries)
      (state_changed_do_process host (process host 2) tried MessageState.address_not_found world)
unfolding build is_current_domain_message populate_target_address resolve_domain_name
state_changed_do_process-Settled_example =
    state_changed_do_process-Settled host (process host 2) tried "ANZ-1" world refl refl refl
      MessageState.address_not_found refl
