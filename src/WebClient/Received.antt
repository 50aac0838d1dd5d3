-- ===== src/WebClient/Received.antt =====
-- What the client of the test page shows, and what it forgets.
use web_socketaa_s.Prelude.{
  ℕ, String, ◌≡◌, ◌≢◌, refl, sym, ap, ◌∙◌, Option, none, some, Bool, true, false, List, [], ◌∷◌,
  ◌++◌, if◌then◌else◌, modify, ◌>>=◌, arith, ◌==◌, eq_iff, Bool-cases, Option-cases, inl, inr,
  exists_in, nat_eq, append_assoc, append_nil,
}
use web_socketaa_s.WebClient.{
  Frame, Browser, WebClient, is_connected, connect, on_close, dispatch, parsed, on_message,
  receive_all,
}

abbrev shown_of : Option Frame → List String
shown_of none = []
shown_of (some f) = if f.type == "MESSAGE" then f.shown ∷ [] else []

-- The texts of the frames that can be parsed and have the type MESSAGE, in their order.
abbrev pub chat_texts : Browser → List String → List String
chat_texts b [] = []
chat_texts b (text ∷ texts) = shown_of (b.parse text) ++ chat_texts b texts

messages-dispatch :
    (f : Frame) (c : WebClient) → (dispatch f c).messages ≡ c.messages ++ shown_of (some f)
unfolding dispatch
messages-dispatch f c = elim (Bool-cases (f.type == "AUTH_CLIENT_REPLY")) [
  | inl reply ↦ rw reply (silent (f.type == "MESSAGE") (other reply))
  | inr unread ↦ rw unread (elim (Bool-cases (f.type == "MESSAGE")) [
    | inl chat ↦ rw chat refl
    | inr neither ↦ rw neither (sym (append_nil c.messages))
  ])
]
  where
    other : (f.type == "AUTH_CLIENT_REPLY") ≡ true → (f.type == "MESSAGE") ≡ false
    other reply = rw ((eq_iff f.type "AUTH_CLIENT_REPLY").0 reply) refl

    silent : (b : Bool) → b ≡ false → c.messages ≡ c.messages ++ (if b then f.shown ∷ [] else [])
    silent b never = rw never (sym (append_nil c.messages))

messages-on_message :
    (b : Browser) (text : String) (c : WebClient)
    → (on_message b text c).1.messages ≡ c.messages ++ shown_of (b.parse text)
unfolding on_message ◌>>=◌ modify parsed
messages-on_message b text c = elim (Option-cases (b.parse text)) [
  | inl bad ↦ rw bad (sym (append_nil c.messages))
  | inr (f, read) ↦ rw read (messages-dispatch f c)
]

-- Whatever frames arrive, also ones that cannot be parsed, the client shows the texts of those of
-- type MESSAGE after what it showed before, in the order of their arrival and nothing else.
pub messages-receive_all :
    (b : Browser) (texts : List String) (c : WebClient)
    → (receive_all b texts c).messages ≡ c.messages ++ chat_texts b texts
unfolding receive_all
messages-receive_all b [] c = sym (append_nil c.messages)
messages-receive_all b (text ∷ texts) c =
    messages-receive_all b texts (on_message b text c).1
    ∙ ap (λ shown. shown ++ chat_texts b texts) (messages-on_message b text c)
    ∙ append_assoc c.messages (shown_of (b.parse text)) (chat_texts b texts)

-- After a client has connected anew, the close of an older websocket makes it look disconnected,
-- while its new websocket is still open.
pub on_close-forgets :
    (b : Browser) (c : WebClient) (i : ℕ)
    → i ≢ c.made
    → let after = (on_close i (connect b c).1).1 in
      (is_connected after ≡ false) × (exists_in (nat_eq c.made) after.live ≡ true)
unfolding is_connected on_close connect modify
on_close-forgets b c i older = (refl, ground (arith, older))
