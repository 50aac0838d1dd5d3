-- ===== src/Domains/Tunnel/Fetched.antt =====
-- The missing messages of another domain are fetched page by page.
use web_socketaa_s.Prelude.{
  ℕ, zero, suc, ◌≡◌, refl, ap, ◌∙◌, some, true, List, [], ◌∷◌, ok, ◌>>=◌, modify, gets, pos, arith,
  pure, try_catch, deref,
}
use web_socketaa_s.Domains.Tunnel.{
  Host, DomainTunnel, is_connected, write, send_message, on_disconnected, fetch_missing_messages,
  fetch_request, handle_fetching_messages_complete,
}
use web_socketaa_s.Model.Message.{MessageContent}

-- An open tunnel on which the other domain accepted this one.
pub record IsReady (t : DomainTunnel) : Type 0 where
  pub client : t.has_client ≡ true
  pub opened : t.is_open ≡ true
  pub accepted : t.is_authenticated ≡ true

fetch_sends :
    (t : DomainTunnel)
    → IsReady t
    → (fetch_missing_messages t).1 ≡ record t { sent = fetch_request ∷ t.sent }
unfolding fetch_missing_messages send_message is_connected write try_catch gets modify ◌>>=◌
fetch_sends t r = rw (r.client, r.accepted) (rw r.opened refl)

-- The other domain answers each request with the number of messages that are left.
unfoldable pub answered : Host → List ℕ → DomainTunnel → DomainTunnel
answered h [] t = t
answered h (left_count ∷ counts) t =
    answered h counts (handle_fetching_messages_complete h (some (pos left_count)) t).1

handle_positive :
    (h : Host) (n : ℕ) (t : DomainTunnel)
    → (handle_fetching_messages_complete h (some (pos (suc n))) t).1 ≡ (fetch_missing_messages t).1
unfolding handle_fetching_messages_complete ◌>>=◌ deref
handle_positive h n t = ground arith

-- The requests that the answers call for: one for each number that is not 0.
abbrev pub requests : List ℕ → List MessageContent → List MessageContent
requests [] sent = sent
requests (zero ∷ counts) sent = requests counts sent
requests (suc n ∷ counts) sent = requests counts (fetch_request ∷ sent)

-- On an open tunnel that is accepted, one more request goes out for each answer that leaves
-- messages behind, none for the others, and nothing else changes.
pub answered-requests :
    (h : Host) (counts : List ℕ) (t : DomainTunnel)
    → IsReady t
    → answered h counts t ≡ record t { sent = requests counts t.sent }
unfolding answered handle_fetching_messages_complete ◌>>=◌ deref pure
answered-requests h [] t r = refl
answered-requests h (zero ∷ counts) t r = answered-requests h counts t r
answered-requests h (suc n ∷ counts) t r =
    ap (answered h counts) (handle_positive h n t ∙ fetch_sends t r)
    ∙ (answered-requests h counts (record t { sent = fetch_request ∷ t.sent })
        (record { client = r.client; opened = r.opened; accepted = r.accepted }))

-- After the channel of an accepted tunnel has closed, a message that is sent is neither written nor
-- refused: the tunnel still counts as connected.
pub send_message-on_disconnected :
    (t : DomainTunnel) (content : MessageContent)
    → IsReady t
    → let closed = (on_disconnected t).1 in
      ((send_message content closed).0 ≡ ok tt) × ((send_message content closed).1 ≡ closed)
unfolding send_message on_disconnected is_connected write gets modify ◌>>=◌
send_message-on_disconnected t content r = rw (r.client, r.accepted) (refl, refl)
