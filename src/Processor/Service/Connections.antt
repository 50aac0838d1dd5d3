-- ===== src/Processor/Service/Connections.antt =====
-- The connection messages end: each time that one is passed on to a master user, its time to live
-- has gone down.
use web_socketaa_s.Prelude.{
  ℕ, ◌≤◌, String, ◌≡◌, Option, none, some, Bool, if◌then◌else◌, pure, modify, ◌>>=◌, ◌>>◌,
}
use web_socketaa_s.Prelude.Effects.Keeps.{Keeps, keeps_rules, Keeps-modify}
use web_socketaa_s.Model.{MessageType}
use web_socketaa_s.Model.Ttl.{rounds}
use web_socketaa_s.Apps.{ClientApp}
use web_socketaa_s.Processor.{Host, World, Task}
use web_socketaa_s.Processor.Office.{change, set_to}
use web_socketaa_s.Processor.Handlers.{
  key_of, forward_to_master, send_message_to_master_user, user_connected_do_process,
  user_disconnected_do_process,
}
use web_socketaa_s.Processor.Ends.{
  Ends, Ends-pure, Ends-bind, Ends-if, Ends-modify, Ends-gets, Ends-weaken,
}
use web_socketaa_s.Processor.Ends.Handlers.{deliver_message-Ends, key_of-Ends}

-- The message being processed has a type, and can be processed at most so many times more.
pub record Typed (type : MessageType) (n : ℕ) (w : World) : Type 0 where
  pub typed : w.self.content.type ≡ type
  pub left : rounds w.self ≤ n

Keeps-key_of : (type : MessageType) (n : ℕ) (o : Option String) → Keeps (Typed type n) (key_of o)
unfolding key_of
Keeps-key_of type n none = search keeps_rules
Keeps-key_of type n (some k) = search keeps_rules

set_to-Typed :
    (type : MessageType) (n : ℕ) (to : Option String) → Keeps (Typed type n) (change (set_to to))
unfolding rounds
set_to-Typed type n to = Keeps-modify _ (λ w p. record { typed = p.typed; left = p.left })

module _ (h : Host) (type : MessageType) (n : ℕ) (again : Task)
    (e : Ends (Typed type n) again) where
  forward_to_master-Ends :
      (ref : String) (o : Option ClientApp) → Ends (Typed type n) (forward_to_master h again ref o)
  unfolding forward_to_master
  forward_to_master-Ends ref none = Ends-pure tt
  forward_to_master-Ends ref (some app) =
      Ends-if _ _ _ (Ends-bind _ _ (Ends-modify _) (set_to-Typed type n _) λ _. e) (Ends-pure tt)

  send_to_master-Ends :
      (ref : Option String) → Ends (Typed type n) (send_message_to_master_user h again ref)
  unfolding send_message_to_master_user
  send_to_master-Ends none = Ends-pure tt
  send_to_master-Ends (some ref) = forward_to_master-Ends ref _

  -- What a connection message does to the channels leaves the message alone.
  recorded-Ends :
      (b : Bool) (user_id : Option String) (f : String → World → World)
      → ((k : String) → Keeps (Typed type n) (modify (f k)))
      → Ends (Typed type n) (do
        if b then (do key ← key_of user_id; modify (f key)) else pure tt
        send_message_to_master_user h again user_id)
  recorded-Ends b user_id f keep =
      Ends-bind _ _
        (Ends-if _ _ _
          (Ends-bind _ _ (Ends-weaken _ (key_of-Ends h user_id)) (Keeps-key_of type n user_id)
            λ k. Ends-modify _)
          (Ends-pure tt))
        (search (keeps_rules, Keeps-key_of, keep) depth 9) λ _. send_to_master-Ends user_id

  pub user_connected-Ends :
      (user_id : Option String) → Ends (Typed type n) (user_connected_do_process h again user_id)
  unfolding user_connected_do_process
  user_connected-Ends user_id = Ends-bind _ _ (Ends-gets _) (search keeps_rules) λ m.
      Ends-if _ _ _ (Ends-weaken _ (deliver_message-Ends h)) (
        recorded-Ends _ user_id _
          λ k. Keeps-modify _ λ w p. record { typed = p.typed; left = p.left })

  pub user_disconnected-Ends :
      (user_id : Option String) → Ends (Typed type n) (user_disconnected_do_process h again user_id)
  unfolding user_disconnected_do_process
  user_disconnected-Ends user_id = Ends-bind _ _ (Ends-gets _) (search keeps_rules) λ m.
      Ends-if _ _ _ (Ends-weaken _ (deliver_message-Ends h)) (
        recorded-Ends _ user_id _
          λ k. Keeps-modify _ λ w p. record { typed = p.typed; left = p.left })
