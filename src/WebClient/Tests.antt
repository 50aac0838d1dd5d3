-- ===== src/WebClient/Tests.antt =====
-- The theorems about the client of the test page at concrete inputs.
use web_socketaa_s.Prelude.{
  ℕ, ◌≡◌, ◌≢◌, none, some, true, false, [], ◌∷◌, ◌++◌, arith, ◌==◌, if◌then◌else◌, exists_in,
  nat_eq,
}
use web_socketaa_s.WebClient.{Browser, WebClient, is_connected, connect, on_close, receive_all}
use web_socketaa_s.WebClient.Received.{chat_texts, messages-receive_all, on_close-forgets}

abbrev browser : Browser
browser = record {
  hostname = "localhost";
  is_https = false;
  parse = λ text. if text == "" then none else some (record { type = "MESSAGE"; shown = text });
}

abbrev fresh : WebClient
fresh = record {
  websocket = none;
  auth_reply = none;
  messages = [];
  made = 1;
  live = 0 ∷ [];
  urls = [];
  sent = [];
}

messages-receive_all_example :
    (receive_all browser ("{a}" ∷ "" ∷ "{b}" ∷ []) fresh).messages
    ≡ [] ++ chat_texts browser ("{a}" ∷ "" ∷ "{b}" ∷ [])
messages-receive_all_example = messages-receive_all browser ("{a}" ∷ "" ∷ "{b}" ∷ []) fresh

on_close-forgets_example :
    (is_connected (on_close 0 (connect browser fresh).1).1 ≡ false)
    × (exists_in (nat_eq 1) (on_close 0 (connect browser fresh).1).1.live ≡ true)
on_close-forgets_example = on_close-forgets browser fresh 0 apart
  where
    apart : ◌≢◌ {A = ℕ} 0 1
    apart e = omega (arith, e)
