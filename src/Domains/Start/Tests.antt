-- ===== src/Domains/Start/Tests.antt =====
-- domain-01 between two others.
use web_socketaa_s.Prelude.{
  String, refl, Option, ℤ, Result, throw, illegal_argument, arith, some, none, pos, List, [], ◌∷◌,
  ok, if◌then◌else◌, ◌==◌,
}
use web_socketaa_s.Text.Plain.{plain}
use web_socketaa_s.Domains.Start.{Domain, DomainLink, DomainGraph, Setup, init}
use web_socketaa_s.Domains.Start.Linked.{Tunneled, IsOpen, init-Tunneled}

abbrev domain : String → Domain
domain name = record { name = name; urls = "ws://a" ∷ "tcp://a:8089" ∷ [] }

abbrev graph : DomainGraph
graph = record {
  domains = domain "domain-02" ∷ domain "domain-01" ∷ domain "domain-03" ∷ [];
  links =
      record { n1 = "domain-01"; n2 = "domain-02" }
      ∷ record { n1 = "domain-03"; n2 = "domain-01" }
      ∷ [];
}

-- The other ends of the links of a vertex.
abbrev neighbors : List DomainLink → String → List String
neighbors [] name = []
neighbors (l ∷ ls) name =
    let rest = neighbors ls name in
    if l.n1 == name then l.n2 ∷ rest else if l.n2 == name then l.n1 ∷ rest else rest

-- Without a host there is nothing to connect to.
abbrev connect : Option String → ℤ → Result (Unit {0})
connect none port = throw illegal_argument
connect (some host) port = ok tt

abbrev setup : Setup
setup = record {
  strings = plain;
  domain_name = "domain-01";
  meta_server_url = some "http://meta";
  answer = ok graph;
  neighbor_set_of = λ vertices links name. ok (neighbors links name);
  is_tcp = λ url. url == "tcp://a:8089";
  uri = λ url. if url == "tcp://a:8089" then some (some "a", pos 8089) else none;
  connect = connect;
}

accepted : (d : Domain) → IsOpen setup d
accepted d url (some host) port found parsed = refl
accepted d url none port found parsed = absurd (ground (arith, parsed))

init-Tunneled_example : Tunneled setup graph ("domain-02" ∷ "domain-03" ∷ []) (init setup)
init-Tunneled_example =
    init-Tunneled setup graph (domain "domain-01") ("domain-02" ∷ "domain-03" ∷ []) refl refl
      (refl, (refl, (refl, tt))) refl refl (refl, (refl, tt)) (refl, (refl, tt))
      (
        accepted (domain "domain-02"),
        (accepted (domain "domain-01"), (accepted (domain "domain-03"), tt)),
      )
