-- ===== src/Domains.antt =====
-- services/DomainGraphService.java of the processor: the next domain on a shortest path. The graph
-- and its shortest paths are JGraphT's.
pub mod Crossing
pub mod Start
pub mod Hops
pub mod Tunnel
pub mod Tests
use web_socketaa_s.Prelude.{
  String, Option, none, some, List, [], ◌∷◌, Result, ok, throw, null_pointer, ◌≢◌, out_of_fuel,
}

-- `path` once the graph is loaded: the vertices of the shortest path to a domain, `none` where
-- JGraphT has none or does not know the domain.
abbrev pub Paths : Type 0
Paths = String → Option (List String)

abbrev vertices : Option (List String) → List String
vertices none = []
vertices (some names) = names

-- computePath: without a graph, the handler of the exception fails too
unfoldable pub compute_path : Option Paths → String → Result (List String)
compute_path none to = throw null_pointer
compute_path (some path) to = ok (vertices (path to))

unfoldable pub second_or_only : List String → Option String
second_or_only [] = none
second_or_only (name ∷ []) = some name
second_or_only (name ∷ next ∷ names) = some next

abbrev next_of : Result (List String) → Result (Option String)
next_of (throw e) = throw e
next_of (ok names) = ok (second_or_only names)

-- getNextDomainName
unfoldable pub get_next_domain_name : Option Paths → String → Result (Option String)
unfolding compute_path second_or_only
get_next_domain_name path to = next_of (compute_path path to)

-- DomainService.getNextDomainName, for a domain that may be null: the graph has no such vertex.
unfoldable pub next_domain : Option Paths → Option String → Result (Option String)
next_domain none domain = throw null_pointer
next_domain (some path) none = ok none
next_domain (some path) (some domain) = get_next_domain_name (some path) domain

pub next_domain_ends :
    (path : Option Paths) (domain : Option String) → next_domain path domain ≢ throw out_of_fuel
unfolding next_domain get_next_domain_name compute_path
next_domain_ends none domain e = cc
next_domain_ends (some path) none e = cc
next_domain_ends (some path) (some domain) e = cc
