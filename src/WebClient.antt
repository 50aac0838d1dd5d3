-- ===== src/WebClient.antt =====
-- The client of the test page, test-script/scripts/main.a33065cf4013369c6b4b.js: the class with the
-- methods isConnected, disconnect, connect, fetchMissingMessages and sendMsg. The rest of that file
-- is the Angular framework.
pub mod Received
pub mod Tests
use web_socketaa_s.Prelude.{
  ℕ, suc, String, Option, none, some, Bool, true, false, not, List, [], ◌∷◌, ◌++◌, if◌then◌else◌,
  Exec, Result, ok, throw, pure, raise, deref, gets, modify, ◌>>=◌, ◌>>◌, keep, nat_eq,
  illegal_argument, ◌==◌,
}
use Prim.Native.String

-- The data of a frame: JSON.parse gives its type, and JSON.stringify its text again.
pub record Frame : Type 0 where
  pub type : String
  pub shown : String

-- What the browser supplies: the page's address, and the parsing of a frame, `none` for its
-- SyntaxError.
pub record Browser : Type 0 where
  pub hostname : String
  pub is_https : Bool
  pub parse : String → Option Frame

-- The client, and the websockets that the browser has made for it: how many, those that are still
-- open, and what was sent on each, the latest first.
pub record WebClient : Type 0 where
  pub websocket : Option ℕ
  pub auth_reply : Option Frame
  pub messages : List String
  pub made : ℕ
  pub live : List ℕ
  pub urls : List String
  pub sent : List (ℕ × String)

abbrev pub protocol : Browser → String
protocol b = if b.is_https then "wss" else "ws"

-- `this.protocol + "://" + this.hostname + ":" + this.port + "/ws"`
abbrev pub url : Browser → String
url b =
    String.◌++◌ (String.◌++◌ (protocol b) "://")
      (String.◌++◌ (String.◌++◌ b.hostname ":") "8089/ws")

abbrev pub is_some : Option ℕ → Bool
is_some none = false
is_some (some i) = true

-- isConnected
unfoldable pub is_connected : WebClient → Bool
is_connected c = is_some c.websocket

-- connect: a websocket that there was before is neither closed nor told apart afterwards
unfoldable pub connect : Browser → Exec WebClient (Unit {0})
connect b = modify (λ c. record c {
  websocket = some c.made;
  made = suc c.made;
  live = c.made ∷ c.live;
  urls = url b ∷ c.urls;
})

abbrev pub without : ℕ → List ℕ → List ℕ
without i live = keep (λ j. not (nat_eq j i)) live

-- onclose, of the i-th websocket
unfoldable pub on_close : ℕ → Exec WebClient (Unit {0})
on_close i = modify (λ c. record c { websocket = none; live = without i c.live })

-- disconnect; `onclose` follows
unfoldable pub disconnect : Exec WebClient (Unit {0})
disconnect = do open_one ← gets (λ c. c.websocket); i ← deref open_one; on_close i

unfoldable pub dispatch : Frame → WebClient → WebClient
dispatch f c =
    if f.type == "AUTH_CLIENT_REPLY"
    then record c { auth_reply = some f }
    else if f.type == "MESSAGE"
    then record c { messages = c.messages ++ f.shown ∷ [] }
    else c

unfoldable pub parsed : Option Frame → Exec WebClient Frame
parsed none = raise illegal_argument
parsed (some f) = pure f

-- onmessage
unfoldable pub on_message : Browser → String → Exec WebClient (Unit {0})
on_message b text = do f ← parsed (b.parse text); modify (dispatch f)

abbrev add_shown : Option String → WebClient → WebClient
add_shown none c = c
add_shown (some shown) c =
    if shown == "" then c else record c { messages = c.messages ++ shown ∷ [] }

-- sendMsg(text, shown): what is shown is added before the sending, which fails without a websocket
unfoldable pub send_msg : String → Option String → Exec WebClient (Unit {0})
send_msg text shown = do
  modify (add_shown shown)
  open_one ← gets (λ c. c.websocket)
  i ← deref open_one
  modify (λ c. record c { sent = (i, text) ∷ c.sent })

abbrev pub fetch_text : String
fetch_text =
    "{\n            \"type\": \"FETCH_MISSING_MESSAGES_REQUEST\",\n            \"data\": {\n                \"count\": 2\n            }\n        }"

-- fetchMissingMessages
unfoldable pub fetch_missing_messages : Exec WebClient (Unit {0})
fetch_missing_messages = send_msg fetch_text none

-- The client after some frames have arrived. An exception ends the handling of its frame.
unfoldable pub receive_all : Browser → List String → WebClient → WebClient
receive_all b [] c = c
receive_all b (text ∷ texts) c = receive_all b texts (on_message b text c).1
