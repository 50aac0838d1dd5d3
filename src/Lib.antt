-- ===== src/Lib.antt =====
-- WebSocketaaS: a service that passes messages between users over WebSocket and TCP. A user is
-- connected to a connector; connectors and processors exchange messages over Kafka (reliable) and
-- NATS (fast); a processor routes a message to the connectors of its receiver, or, if the receiver
-- belongs to another domain, wraps it into an internal message for the next domain on the way. The
-- processors of a domain are clients of the connectors of the neighbouring domains.
--
-- Which file models which part (paths of Java files are below src/main/java/com/linker of their
-- module):
--   Prelude, Text      what all files share: Boolean tests, integers, lists, dictionaries, the monad
--                      of state and exceptions `Exec` with its invariants `Keeps`, and the text
--                      functions of Apache commons-lang as an interface with laws. Text/Plain and
--                      Model/Jackson/Plain are concrete ones, for running the model.
--   Model              linker-common-lib: MessageType, MessageState, MessageFeature, Address, Utils;
--                      Model/Message the messages and their payloads; Model/Ttl the time to live
--                      (MessageUtils); Model/Jackson the conversion of payloads, which is a library's.
--   Connector          the connector: the maps of NetworkUserService over a heap of AppSocketHandlers,
--                      PostOffice; Connector/Incoming and Outgoing the message processors, Events
--                      what happens to a connector, one function for each handler.
--   Processor          the processor: its state is the user channels (Channels), the stored messages
--                      (Store) and the deliveries. Processor/Office is PostOffice and ProcessorUtils,
--                      Handlers the message processors, Service MessageProcessorService. `self` is
--                      the message object that is being processed, since the handlers change it.
--                      A handler's theorems stand below it: Handlers/Auth who is let in, Fetching what a
--                      user fetches, Groups how receivers are split, Internal what failed. The
--                      pages of missing messages are below Store.
--   Relay              how the two fit together: the way of a chat message within a domain.
--   Apps               ClientApp, NameRecord and ClientAppService: the domain of a user, the cache.
--   Domains            DomainGraphService; Domains/Start the start of the tunnels, Domains/Tunnel
--                      DomainTunnel and the callbacks of DomainService, Domains/Crossing how processor
--                      and tunnel fit together. A processor takes the next domain as a parameter;
--                      `next_domain` fills it.
--   Express            KafkaExpressDelivery and RedisKafkaCache.
--   WebClient          the client class in test-script/scripts/main.a33065cf4013369c6b4b.js.
--   Loader             the module loader in test-script/scripts/runtime.ec2944dd8b20ec099bf3.js.
--
-- A handler that throws leaves the state it had reached. A Java null is `none`; a dereferenced null
-- is `null_pointer`. Sets and maps are lists in the order of insertion. Random choices, ids and the
-- clock are parameters, numbered by use. Time to live is an `int` that wraps at -2^31.
--
-- Fuel: only MessageProcessorService.process calls itself through its handlers, so it takes fuel. Two
-- rounds are enough for a message that makes no other, three for group messages and state changes;
-- a connection message takes as many more as its time to live allows, an internal message one more
-- than the message that it holds. `require` of the loader calls itself through the bodies of modules;
-- it ends with more fuel than there are modules.
--
-- Not modelled: Netty, Kafka, NATS, Redis, Mongo, OkHttp and Spring, the codecs, start-up and
-- configuration, the controllers of the meta server, what modules of the page export, threads (the
-- lock of a user is held throughout its block). MongoTemplate.count is taken to count all messages that
-- meet the criteria, whatever the size of the page, as Page.getTotalElements is meant; what Redis gives
-- back for a set of addresses with null in it is a parameter. The shortest paths are JGraphT's, with their
-- documented properties as hypotheses.
pub mod Apps
pub mod Connector
pub mod Domains
pub mod Express
pub mod Loader
pub mod Model
pub mod Prelude
pub mod Processor
pub mod Relay
pub mod Text
pub mod WebClient
