-- ===== src/Domains/Start/Linked.antt =====
-- Which tunnels a processor has after its start.
use mathlib.Core.Path.{fun_ext}
use std.Path.{subst}
use web_socketaa_s.Prelude.{
  find_first-holds, ◌≢◌, String, ◌≡◌, refl, sym, ap, ◌∙◌, Option, none, some, Bool, true, false,
  ◌||◌, List, [], ◌∷◌, if◌then◌else◌, Result, ok, Dict, lookup, ◌==◌, eq_iff, map, exists_in,
  find_first, ℤ, arith, Bool-cases, Option-cases, inl, inr, All,
}
use web_socketaa_s.Domains.Start.{
  asked, get_domain_graph, linked_tunnels, get_current_linked_domains, load_domains, and_then,
  put_new, put_tunnels, to_map, gets, create_tunnel, do_connect, get_tcp_url, tunnel_to,
  is_meta_server_enabled, init, Domain, DomainGraph, Setup, Tunnel,
}
use web_socketaa_s.Domains.Start.Mapped.{Fresh, first_or, Made, to_map-Mapped}

abbrev pub has_name : String → Domain → Bool
has_name k d = d.name == k

abbrev pub is_named : String → String → Bool
is_named k name = name == k

-- The domains of some names, and where each of them was found.
record Found (P : Domain → Type 0) (domains : List Domain) (names : List String)
    (domain_map : Dict Domain) : Type 0 where
  linked : List Domain
  returned : gets domain_map names ≡ map some linked
  names_of : map (λ d. d.name) linked ≡ names
  each : All P linked
  holds :
      (k : String)
      → find_first (has_name k) linked
        ≡ (if exists_in (is_named k) names then find_first (has_name k) domains else none)

some_first :
    (k : String) (ds : List Domain)
    → exists_in (has_name k) ds ≡ true
    → find_first (has_name k) ds ≢ none
some_first k [] there e = cc there
some_first k (d ∷ ds) there e = ground (arith, there, e, some_first k ds)

All-find_first :
    (P : Domain → Type 0) (p : Domain → Bool) (ds : List Domain) (d : Domain)
    → All P ds
    → find_first p ds ≡ some d
    → P d
All-find_first P p [] d all e = absurd (cc e)
All-find_first P p (x ∷ ds) d (here, all) e = elim (Bool-cases (p x)) [
  | inl chosen ↦ subst P (cc (rw chosen at e)) here
  | inr other ↦ All-find_first P p ds d all (rw other at e)
]

module _ (P : Domain → Type 0) (domains : List Domain) (each : All P domains)
    (domain_map : Dict Domain)
    (same : (k : String) → lookup k domain_map ≡ find_first (has_name k) domains) where
  one_more :
      (k name : String) (d : Domain) (names : List String) (o : Option Domain)
      → find_first (has_name name) domains ≡ some d
      → o ≡ (if exists_in (is_named k) names then find_first (has_name k) domains else none)
      → (if d.name == k then some d else o)
        ≡ (if exists_in (is_named k) (name ∷ names) then find_first (has_name k) domains else none)
  one_more k name d names o e rest =
      let n : d.name ≡ name =
        (eq_iff d.name name).0 (find_first-holds (has_name name) domains d e) in
      elim (Bool-cases (name == k)) [
        | inl here ↦ rw (ap (λ x. x == k) n) (
            rw here
              (sym (ap (λ x. find_first (has_name x) domains) (sym ((eq_iff name k).0 here)) ∙ e)))
        | inr apart ↦ rw (ap (λ x. x == k) n) (rw apart rest)
      ]

  found :
      (names : List String)
      → All (λ name. exists_in (has_name name) domains ≡ true) names
      → Found P domains names domain_map
  unfolding gets
  found [] all = record {
    linked = [];
    returned = refl;
    names_of = refl;
    each = tt;
    holds = λ k. refl;
  }
  found (name ∷ names) (there, all) =
      let rest = found names all in
      elim (Option-cases (find_first (has_name name) domains)) [
        | inl missing ↦ absurd (some_first name domains there missing)
        | inr (d, e) ↦ record {
          linked = d ∷ rest.linked;
          returned = rw (same name ∙ e) (ap (λ os. some d ∷ os) rest.returned);
          each = (All-find_first P (has_name name) domains d each e, rest.each);
          names_of =
              ap (λ n. n ∷ map (λ d. d.name) rest.linked)
                ((eq_iff d.name name).0 (find_first-holds (has_name name) domains d e))
              ∙ ap (λ ns. name ∷ ns) rest.names_of;
          holds = λ k. one_more k name d names _ e (rest.holds k);
        }
      ]

module _ {V : Type 0} (value : Domain → V) where
  abbrev pub tunnelled : Option Domain → Option V
  tunnelled none = none
  tunnelled (some d) = some (value d)

  looked_up :
      (k : String) (o : Option Domain)
      → first_or (λ (d : Domain). d.name) value [] k o ≡ tunnelled o
  unfolding lookup
  looked_up k none = refl
  looked_up k (some d) = refl

  tunnelled_if :
      (b : Bool) (o : Option Domain)
      → tunnelled (if b then o else none) ≡ (if b then tunnelled o else none)
  tunnelled_if true o = refl
  tunnelled_if false o = refl

as_it_is : (o : Option Domain) → tunnelled (λ d. d) o ≡ o
as_it_is none = refl
as_it_is (some d) = refl

-- The tunnels after a start: one to each of the domains of these names.
pub record Tunneled (h : Setup) (g : DomainGraph) (names : List String) (r : Result (Dict Tunnel))
    : Type 0 where
  pub tunnels : Dict Tunnel
  pub returned : r ≡ ok tunnels
  pub holds :
      (k : String)
      → lookup k tunnels ≡ (
          if exists_in (is_named k) names
          then tunnelled (tunnel_to h) (find_first (has_name k) g.domains)
          else none)

-- No name twice.
abbrev pub Distinct : List String → Type 0
Distinct [] = Unit
Distinct (name ∷ names) = (exists_in (is_named name) names ≡ false) × Distinct names

exists_in-map :
    (k : String) (ds : List Domain)
    → exists_in (has_name k) ds ≡ exists_in (is_named k) (map (λ d. d.name) ds)
exists_in-map k [] = refl
exists_in-map k (d ∷ ds) = ap (λ b. (d.name == k) || b) (exists_in-map k ds)

Distinct-Fresh :
    {V : Type 0} (value : Domain → V) (ds : List Domain)
    → Distinct (map (λ d. d.name) ds)
    → Fresh (λ d. d.name) value ds []
unfolding lookup
Distinct-Fresh value [] distinct = tt
Distinct-Fresh value (d ∷ ds) (apart, distinct) =
    (refl, exists_in-map d.name ds ∙ apart, Distinct-Fresh value ds distinct)

-- Netty takes the host and the port of the tcp url of a domain, if it has one that is a URI.
abbrev pub IsOpen : Setup → Domain → Type 0
IsOpen h d =
    (url : String) (host : Option String) (port : ℤ)
    → get_tcp_url h d ≡ some url
    → h.uri url ≡ some (host, port)
    → h.connect host port ≡ ok tt

connected :
    (h : Setup) (o : Option String)
    → ((url : String) (host : Option String) (port : ℤ)
        → o ≡ some url
        → h.uri url ≡ some (host, port)
        → h.connect host port ≡ ok tt)
    → do_connect h o ≡ ok tt
unfolding do_connect
connected h none accepted = refl
connected h (some url) accepted = elim (Option-cases (h.uri url)) [
  | inl malformed ↦ rw malformed refl
  | inr ((host, port), e) ↦ rw e (accepted url host port refl e)
]

create_tunnel-Made :
    (h : Setup) (d : Domain) → IsOpen h d → Made (λ d. d.name) (tunnel_to h) (create_tunnel h) d
unfolding create_tunnel
create_tunnel-Made h d accepted = rw (connected h (get_tcp_url h d) accepted) refl

all-Made :
    {V : Type 0} (P : Domain → Type 0) (value : Domain → V) (make : Domain → Result V)
    → ((d : Domain) → P d → make d ≡ ok (value d))
    → (ds : List Domain) → All P ds
    → All (λ d. make d ≡ ok (value d)) ds
all-Made P value make f [] all = tt
all-Made P value make f (d ∷ ds) (here, all) = (f d here, all-Made P value make f ds all)

itself : (ds : List Domain) → All (λ d. ok d ≡ ok d) ds
itself [] = tt
itself (d ∷ ds) = (refl, itself ds)

-- Over domains that are not null, the stream is that of `to_map`.
put_tunnels-some :
    (h : Setup) (ds : List Domain) (d : Dict Tunnel)
    → put_tunnels h (map some ds) d ≡ to_map (λ x. x.name) (create_tunnel h) ds d
unfolding put_tunnels to_map
put_tunnels-some h [] d = refl
put_tunnels-some h (x ∷ ds) d =
    ap
      (λ (f : Dict Tunnel → Result (Dict Tunnel)).
        and_then (create_tunnel h x) λ t. and_then (put_new x.name t (lookup x.name d) d) f)
      (fun_ext (put_tunnels-some h ds))

module _ (h : Setup) (g : DomainGraph) (here : Domain) (names : List String) where
  linked_tunnels-Tunneled :
      Distinct (map (λ d. d.name) g.domains)
      → find_first (has_name h.domain_name) g.domains ≡ some here
      → h.neighbor_set_of (map (λ d. d.name) g.domains) g.links h.domain_name ≡ ok names
      → Distinct names
      → All (λ name. exists_in (has_name name) g.domains ≡ true) names
      → All (IsOpen h) g.domains
      → Tunneled h g names (linked_tunnels h g)
  unfolding linked_tunnels get_current_linked_domains load_domains
  linked_tunnels-Tunneled distinct own neighbors apart known accepted =
      let m =
        to_map-Mapped (λ d. d.name) (λ d. d) ok g.domains [] (itself g.domains)
          (Distinct-Fresh (λ d. d) g.domains distinct) in
      let same : (k : String) → lookup k m.dict ≡ find_first (has_name k) g.domains = λ k.
        m.holds k
        ∙ looked_up (λ d. d) k (find_first (has_name k) g.domains)
        ∙ as_it_is (find_first (has_name k) g.domains) in
      let f = found (IsOpen h) g.domains accepted m.dict same names known in
      let t =
        to_map-Mapped (λ d. d.name) (tunnel_to h) (create_tunnel h) f.linked []
          (all-Made (IsOpen h) (tunnel_to h) (create_tunnel h) (create_tunnel-Made h) f.linked
            f.each)
          (Distinct-Fresh (tunnel_to h) f.linked (subst Distinct (sym f.names_of) apart)) in
      let n : here.name ≡ h.domain_name =
        (eq_iff here.name h.domain_name).0
          (find_first-holds (has_name h.domain_name) g.domains here own) in
      rw m.returned (
        rw (same h.domain_name ∙ own) (
          rw (ap (h.neighbor_set_of (map (λ d. d.name) g.domains) g.links) n ∙ neighbors) (
            rw (f.returned, put_tunnels-some h f.linked [])
              (record {
                tunnels = t.dict;
                returned = t.returned;
                holds = λ k.
                    t.holds k
                    ∙ looked_up (tunnel_to h) k (find_first (has_name k) f.linked)
                    ∙ ap (tunnelled (tunnel_to h)) (f.holds k)
                    ∙ tunnelled_if (tunnel_to h) (exists_in (is_named k) names)
                        (find_first (has_name k) g.domains);
              }))))

-- Where the meta server is enabled and answers with a graph in which no domain has another's name, the
-- own domain stands, the neighbors of the own domain are different domains of the graph, and Netty
-- takes the host and the port of each domain's tcp url that is a URI, the start of a processor
-- returns, and it has a tunnel under each neighbor's name, to the domain of this name, and under no
-- other name.
pub init-Tunneled :
    (h : Setup) (g : DomainGraph) (here : Domain) (names : List String)
    → is_meta_server_enabled h ≡ true
    → h.answer ≡ ok g
    → Distinct (map (λ d. d.name) g.domains)
    → find_first (has_name h.domain_name) g.domains ≡ some here
    → h.neighbor_set_of (map (λ d. d.name) g.domains) g.links h.domain_name ≡ ok names
    → Distinct names
    → All (λ name. exists_in (has_name name) g.domains ≡ true) names
    → All (IsOpen h) g.domains
    → Tunneled h g names (init h)
unfolding init get_domain_graph
init-Tunneled h g here names enabled answer distinct own neighbors apart known accepted =
    rw enabled (
      rw (ap (asked h) answer)
        (linked_tunnels-Tunneled h g here names distinct own neighbors apart known accepted))
