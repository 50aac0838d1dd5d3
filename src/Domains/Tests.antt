-- ===== src/Domains/Tests.antt =====
-- The theorems about domains and tunnels at concrete inputs.
use std.Path.{subst}
use web_socketaa_s.Prelude.{
  ◌≤◌, String, ◌≡◌, refl, sym, ap, ◌∙◌, Option, none, some, Bool, true, false, List, [], ◌∷◌, ok,
  arith, length, ◌==◌, eq_iff, if◌then◌else◌, inl, inr, Bool-cases,
}
use web_socketaa_s.Text.Plain.{plain}
use web_socketaa_s.Model.Jackson.Plain.{plain_jackson}
use web_socketaa_s.Domains.{Paths}
use web_socketaa_s.Domains.Hops.{Walk, hops, hops-Walk}
use web_socketaa_s.Domains.Tunnel.{Host, DomainTunnel, on_disconnected, send_message, fetch_request}
use web_socketaa_s.Domains.Tunnel.Fetched.{
  IsReady, answered, requests, answered-requests, send_message-on_disconnected,
}

abbrev host : Host
host = record {
  strings = plain;
  jackson = plain_jackson;
  runtime = record { uuid = λ n. "id"; now = λ n. n; next_int = λ n bound. 0 };
  domain_name = "domain-01";
}

abbrev tunnel : DomainTunnel
tunnel = record {
  has_client = true;
  is_open = true;
  is_authenticated = true;
  sent = [];
  reconnections = 0;
  disconnections = 0;
  arrived = [];
  used = 0;
}

abbrev tunnel-IsReady : IsReady tunnel
tunnel-IsReady = record { client = refl; opened = refl; accepted = refl }

answered-requests_example :
    answered host (7 ∷ 3 ∷ 0 ∷ []) tunnel ≡ record tunnel { sent = requests (7 ∷ 3 ∷ 0 ∷ []) [] }
answered-requests_example = answered-requests host (7 ∷ 3 ∷ 0 ∷ []) tunnel tunnel-IsReady

send_message-on_disconnected_example :
    ((send_message fetch_request (on_disconnected tunnel).1).0 ≡ ok tt)
    × ((send_message fetch_request (on_disconnected tunnel).1).1 ≡ (on_disconnected tunnel).1)
send_message-on_disconnected_example =
    send_message-on_disconnected tunnel fetch_request tunnel-IsReady

-- Every two domains are linked: a path has one domain or two.
abbrev linked : String → String → Bool
linked a b = true

abbrev paths : String → Paths
paths from to = if from == to then some (from ∷ []) else some (from ∷ to ∷ [])

abbrev names_of : Option (List String) → List String
names_of none = []
names_of (some names) = names

stepwise :
    (from to : String) (names : List String)
    → paths from to ≡ some names
    → Walk linked from to names
stepwise from to names e = elim (Bool-cases (from == to)) [
  | inl same ↦
      subst (Walk linked from to) (ap names_of (chosen same)) (refl, (eq_iff from to).0 same)
  | inr apart ↦ subst (Walk linked from to) (ap names_of (direct apart)) (refl, refl, (refl, refl))
]
  where
    chosen : (from == to) ≡ true → some (from ∷ []) ≡ some names
    chosen same = ground (arith, same, e)

    direct : (from == to) ≡ false → some (from ∷ to ∷ []) ≡ some names
    direct apart = ground (arith, apart, e)

-- A walk between different domains has two domains at least.
two_apart :
    (from to : String) (names : List String)
    → (from == to) ≡ false
    → Walk linked from to names
    → 2 ≤ length names
two_apart from to [] apart walk = absurd walk
two_apart from to (x ∷ []) apart walk = cc (apart, (eq_iff from to).1 (sym (walk.0) ∙ walk.1))
two_apart from to (x ∷ y ∷ names) apart walk = omega arith

one_at_least :
    (from to : String) (names : List String) → Walk linked from to names → 1 ≤ length names
one_at_least from to [] walk = absurd walk
one_at_least from to (x ∷ names) walk = omega arith

best_of :
    (from to : String) (names : List String)
    → Walk linked from to names
    → (best : List String) × (paths from to ≡ some best) × (length best ≤ length names)
best_of from to names walk = elim (Bool-cases (from == to)) [
  | inl same ↦ (from ∷ [], ground (arith, same), one_at_least from to names walk)
  | inr apart ↦ (from ∷ to ∷ [], ground (arith, apart), two_apart from to names apart walk)
]

hops-Walk_example : hops paths 3 "domain-01" "domain-03" ≡ some "domain-03"
hops-Walk_example =
    hops-Walk linked paths (record { walks = stepwise; found = best_of }) "domain-01" "domain-03"
      ("domain-01" ∷ "domain-02" ∷ "domain-03" ∷ []) (refl, refl, (refl, refl, (refl, refl)))
