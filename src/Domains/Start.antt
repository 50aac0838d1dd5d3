-- ===== src/Domains/Start.antt =====
-- The start of the tunnels: Domain.getTcpUrl, DomainGraphService.loadGraph and
-- getCurrentLinkedDomains, DomainTunnelService.loadDomains, DomainTunnel.doConnect, MetaServerService.getDomainGraph and
-- DomainService.init. The graph is JGraphT's, and the answer of the meta server is a parameter.
pub mod Mapped
pub mod Linked
pub mod Tests
use web_socketaa_s.Prelude.{
  String, Option, none, some, Bool, true, false, not, List, [], ◌∷◌, if◌then◌else◌, find_first,
  Result, ok, throw, Exception, Dict, lookup, insert, illegal_state, null_pointer, ◌==◌, map, ℤ,
}
use web_socketaa_s.Text.{StringUtils, is_blank}

-- Domain.java; the set of urls is a list without duplicates
pub record Domain : Type 0 where
  pub name : String
  pub urls : List String

pub record DomainLink : Type 0 where
  pub n1 : String
  pub n2 : String

pub record DomainGraph : Type 0 where
  pub domains : List Domain
  pub links : List DomainLink

-- What the processor is given: its configuration, what the meta server answers to a request for the
-- graph, JGraphT's neighborSetOf on a graph of these vertices and links, which may refuse the links,
-- whether a url starts with `tcp`, the host and the port of `new URI(url)`, which has none where it
-- throws a URISyntaxException, and Netty's Bootstrap.connect, which throws where it cannot take the
-- host or the port. The connection itself is made later.
pub record Setup : Type 0 where
  pub strings : StringUtils
  pub domain_name : String
  pub meta_server_url : Option String
  pub answer : Result DomainGraph
  pub neighbor_set_of : List String → List DomainLink → String → Result (List String)
  pub is_tcp : String → Bool
  pub uri : String → Option (Option String × ℤ)
  pub connect : Option String → ℤ → Result (Unit {0})

-- A tunnel to a domain, and the tcp url of the domain, if it has one.
pub record Tunnel : Type 0 where
  pub domain : Domain
  pub url : Option String

abbrev pub and_then : {A B : Type 0} → Result A → (A → Result B) → Result B
and_then (throw e) f = throw e
and_then (ok a) f = f a

-- Collectors.toMap: a key that is there already is refused
abbrev pub put_new : {V : Type 0} → String → V → Option V → Dict V → Result (Dict V)
put_new key v none d = ok (insert key v d)
put_new key v (some w) d = throw illegal_state

-- Collectors.toMap over a stream whose elements are made one by one
unfoldable pub to_map :
    {A V : Type 0} → (A → String) → (A → Result V) → List A → Dict V → Result (Dict V)
to_map key make [] d = ok d
to_map key make (a ∷ xs) d =
    and_then (make a) λ v. and_then (put_new (key a) v (lookup (key a) d) d) (to_map key make xs)

-- domainMap::get
unfoldable pub gets : Dict Domain → List String → List (Option Domain)
gets d [] = []
gets d (name ∷ names) = lookup name d ∷ gets d names

abbrev named : Option Domain → Result String
named none = throw null_pointer
named (some d) = ok d.name

module _ (h : Setup) where
  -- Domain.getTcpUrl
  unfoldable pub get_tcp_url : Domain → Option String
  get_tcp_url d = find_first h.is_tcp d.urls

  -- MetaServerService.isMetaServerEnabled and getDomainGraph
  abbrev pub is_meta_server_enabled : Bool
  is_meta_server_enabled = not (is_blank h.strings h.meta_server_url)

  abbrev pub asked : Result DomainGraph → Result (Option DomainGraph)
  asked (throw e) = throw e
  asked (ok g) = ok (some g)

  unfoldable pub get_domain_graph : Result (Option DomainGraph)
  get_domain_graph = if is_meta_server_enabled then asked h.answer else ok none

  abbrev connect_to : Option (Option String × ℤ) → Result (Unit {0})
  connect_to none = ok tt
  connect_to (some (host, port)) = h.connect host port

  -- DomainTunnel.doConnect: only a URISyntaxException is caught
  unfoldable pub do_connect : Option String → Result (Unit {0})
  do_connect none = ok tt
  do_connect (some url) = connect_to (h.uri url)

  abbrev pub tunnel_to : Domain → Tunnel
  tunnel_to d = record { domain = d; url = get_tcp_url d }

  -- DomainTunnelService.createTunnel
  unfoldable pub create_tunnel : Domain → Result Tunnel
  unfolding do_connect
  create_tunnel d = and_then (do_connect (get_tcp_url d)) λ connected. ok (tunnel_to d)

  -- the stream of loadDomains: each tunnel is created and put into the map before the next; a domain
  -- that is null has no url
  unfoldable pub put_tunnels : List (Option Domain) → Dict Tunnel → Result (Dict Tunnel)
  put_tunnels [] d = ok d
  put_tunnels (none ∷ ds) d = throw null_pointer
  put_tunnels (some domain ∷ ds) d =
      and_then (create_tunnel domain)
        λ t. and_then (put_new domain.name t (lookup domain.name d) d) (put_tunnels ds)

  -- DomainTunnelService.loadDomains
  unfoldable pub load_domains : List (Option Domain) → Result (Dict Tunnel)
  load_domains ds = put_tunnels ds []

  -- DomainGraphService.loadGraph, and getCurrentLinkedDomains over the map of domains
  unfoldable pub get_current_linked_domains :
      DomainGraph → Dict Domain → Result (List (Option Domain))
  get_current_linked_domains g domain_map =
      and_then (named (lookup h.domain_name domain_map)) λ name.
        and_then (h.neighbor_set_of (map (λ d. d.name) g.domains) g.links name)
          λ names. ok (gets domain_map names)

  unfoldable pub linked_tunnels : DomainGraph → Result (Dict Tunnel)
  linked_tunnels g =
      and_then (to_map (λ d. d.name) ok g.domains [])
        λ domain_map. and_then (get_current_linked_domains g domain_map) load_domains

  abbrev started : Option DomainGraph → Result (Dict Tunnel)
  started none = ok []
  started (some g) = linked_tunnels g

  -- DomainService.init: the tunnels by the names of their domains
  unfoldable pub init : Result (Dict Tunnel)
  init = and_then get_domain_graph started
