-- ===== src/Processor.antt =====
-- The processor: processor/src/main/java/com/linker/processor. This file has what a processor is
-- given and what it changes. Its handlers are in the children.
pub mod Channels
pub mod Store
pub mod Office
pub mod Handlers
pub mod Service
pub mod Ends
pub mod Accounts
pub mod Tests
use web_socketaa_s.Prelude.{
  ℕ, suc, String, Option, none, some, List, [], ◌∷◌, Exec, Result, ok, ◌>>=◌, modify, Dict,
  Exception, throw, out_of_fuel, ◌≢◌,
}
use web_socketaa_s.Text.{StringUtils}
use web_socketaa_s.Model.{ExpressDeliveryType, Address, new_address}
use web_socketaa_s.Model.Message.{
  Message, MessageContent, MessageMeta, AuthClient, AuthClientReply, Runtime, build, new_meta,
}
use web_socketaa_s.Model.Jackson.{Jackson}
use web_socketaa_s.Apps.{ClientApp}

-- How a POST to a client application's authentication URL ends: OkHttp refuses the url with an
-- IllegalArgumentException, it is not sent (an IOException), it fails later, or it brings a reply.
pub data Posted : Type 0 where
  bad_url not_sent failed : Posted
  replied : AuthClientReply → Posted

-- What the processor is given: the libraries, its ApplicationConfig, the client applications by
-- name, the next domain towards a domain (DomainService.getNextDomainName, which may throw), the
-- client applications' authentication services, and the addresses that Redis gives back for a
-- channel to whose set of addresses null was added.
pub record Host : Type 0 where
  pub strings : StringUtils
  pub jackson : Jackson
  pub runtime : Runtime
  pub domain_name : String
  pub processor_name : String
  pub apps : String → Option ClientApp
  pub next_domain : Option String → Result (Option String)
  pub post : String → AuthClient → Posted
  pub addresses_with_null : List Address → List Address
  -- the model's own exception does not come from outside
  pub next_domain_ends : (domain : Option String) → next_domain domain ≢ throw out_of_fuel

-- UserChannel.java; the set of addresses is a list without duplicates
pub record UserChannel : Type 0 where
  pub username : String
  pub addresses : List Address
  pub created_at : ℕ

-- One call of ExpressDelivery.deliverMessage: the queue, the topic and the message.
pub record Delivery : Type 0 where
  pub type : ExpressDeliveryType
  pub target : Option String
  pub message : Message

-- The user channels in Redis, the messages in Mongo, the deliveries (the latest first), and how
-- often the runtime was used. `self` is the message object that is being processed: the handlers
-- change it in place, and what they have changed is there when an exception is caught.
pub record World : Type 0 where
  pub channels : Dict UserChannel
  pub messages : List Message
  pub deliveries : List Delivery
  pub used : ℕ
  pub self : Message

abbrev pub Task : Type 0
Task = Exec World (Unit {0})

-- Runs an action on another message object: the own one is `self` again afterwards.
unfoldable pub on_object : Message → Task → Task
on_object m task w = let (r, w') = task (record w { self = m }) in (r, record w' { self = w.self })

module _ (h : Host) where
  -- Message.builder() … build()
  unfoldable pub new_message :
      Option String → Option String → MessageContent → MessageMeta → Exec World Message
  new_message from to content meta w =
      (ok (build h.runtime w.used from to content meta), record w { used = suc w.used })

  -- ProcessorUtils.getOriginalAddressMeta
  abbrev pub original_address_meta : MessageMeta
  original_address_meta =
      new_meta (some (new_address (some h.domain_name) (some h.processor_name))) none
