-- ===== src/Processor/Handlers/Auth/Decision.antt =====
-- Whom AuthClientMessageProcessor.doProcess lets in.
use web_socketaa_s.Prelude.{
  String, ◌≡◌, ◌≢◌, refl, sym, ap, ◌∙◌, ◌↔◌, ◌⊎◌, inl, inr, Option, none, some, Bool, true, false,
  not, ◌&&◌, Result, ok, throw, deref, try_catch, ◌>>=◌, arith, if◌then◌else◌, Exec,
}
use web_socketaa_s.Prelude.Effects
use std.Path.{subst}
use web_socketaa_s.Text.{is_blank, equals, equals_ignore_case}
use web_socketaa_s.Model.{Address, equals_iff}
use web_socketaa_s.Model.Message.{AuthClient, AuthClientReply}
use web_socketaa_s.Apps.{ClientApp, get_client_app_by_user_id}
use web_socketaa_s.Processor.{Host, World, Task, Posted, bad_url, not_sent, failed, replied}
use web_socketaa_s.Processor.Office.{domain_of}
use web_socketaa_s.Processor.Handlers.{
  verdict, send_reply, on_posted, check_app, auth_client_do_process,
}
use web_socketaa_s.Processor.Handlers.Auth.{IsLocalConnector, Answers, send_reply-Answers}

-- What was caught returned nothing to catch.
try_catch-returned :
    {S A : Type 0} (m : Exec S A) (f : Effects.Exception → Exec S A) (s : S) (a : A)
    → (m s).0 ≡ ok a
    → try_catch m f s ≡ m s
unfolding try_catch
try_catch-returned {S = S} {A = A} m f s a e = kept (m s) e
  where
    kept : (p : Result A × S) → p.0 ≡ ok a → Effects.caught f p ≡ p
    kept (ok b, t) h = refl
    kept (throw x, t) h = cc h

module _ (h : Host) (client : AuthClient) where
  -- The service's reply is about this client, and grants.
  abbrev pub IsGranting : Posted → Type 0
  IsGranting (replied reply) =
      (reply.app_id ≡ client.app_id)
      × (reply.user_id ≡ client.user_id)
      × (reply.is_authenticated ≡ some true)
  IsGranting _ = ⊥

  abbrev pub IsVouchedFor : ClientApp → Type 0
  IsVouchedFor app =
      (url : String) × (app.auth_url ≡ some url)
      × (h.strings.blank url ≡ false)
      × IsGranting (h.post url client)

  abbrev pub IsTrusted : ClientApp → Type 0
  IsTrusted app =
      (app.app_id ≡ client.app_id)
      × (equals_ignore_case h.strings (some h.domain_name) (domain_of h client.user_id) ≡ true)
      × ((app.auth_enabled ≡ false) ⊎ ((app.auth_enabled ≡ true) × IsVouchedFor app))

  abbrev pub IsAllowed : Option ClientApp → Type 0
  IsAllowed none = ⊥
  IsAllowed (some app) = IsTrusted app

  -- OkHttp builds a request to the authentication address, if there is one.
  abbrev pub IsPostable : Option ClientApp → Type 0
  IsPostable none = Unit
  IsPostable (some app) = (url : String) → app.auth_url ≡ some url → h.post url client ≢ bad_url

  module _ (c : String) where
    -- One reply, about the client that asked, and it grants exactly where `Q` holds.
    pub record Verdict (Q : Type 0) (w : World) (p : Result (Unit {0}) × World) : Type 0 where
      pub reply : AuthClientReply
      pub answers : Answers h c w reply p
      pub app_id : reply.app_id ≡ client.app_id
      pub user_id : reply.user_id ≡ client.user_id
      pub grants : (reply.is_authenticated ≡ some true) ↔ Q

    module _ (w : World) (address : Address) (f : IsLocalConnector h c)
        (origin : w.self.meta.original_address ≡ some address)
        (name : address.connector_name ≡ some c) where
      verdict-Verdict :
          (Q : Type 0) (granted : Bool)
          → ((granted ≡ true) ↔ Q)
          → Verdict Q w (send_reply h (verdict h client granted) w)
      verdict-Verdict Q granted same = record {
        reply = verdict h client granted;
        answers = send_reply-Answers h c (verdict h client granted) w address f origin name;
        app_id = refl;
        user_id = refl;
        grants = ((λ e. same.0 (cc e)), λ q. ap some (same.1 q));
      }

      refused : (Q : Type 0) → (Q → ⊥) → Verdict Q w (send_reply h (verdict h client false) w)
      refused Q never = verdict-Verdict Q false ((λ e. absurd (cc e)), λ q. absurd (never q))

      -- What is caught does not matter to a reply that is sent.
      caught-Verdict :
          (Q : Type 0) (m : Task) (g : Effects.Exception → Task)
          → Verdict Q w (m w)
          → Verdict Q w (try_catch m g w)
      caught-Verdict Q m g v = rw (try_catch-returned m g w tt v.answers.returned) v

      if_not-Verdict :
          (Q : Type 0) (b : Bool) (m n : Task)
          → (b ≡ false → Verdict Q w (m w))
          → (b ≡ true → Verdict Q w (n w))
          → Verdict Q w ((if not b then m else n) w)
      if_not-Verdict Q true m n vm vn = vn refl
      if_not-Verdict Q false m n vm vn = vm refl

      if-Verdict :
          (Q : Type 0) (b : Bool) (m n : Task)
          → (b ≡ true → Verdict Q w (m w))
          → (b ≡ false → Verdict Q w (n w))
          → Verdict Q w ((if b then m else n) w)
      if-Verdict Q true m n vm vn = vm refl
      if-Verdict Q false m n vm vn = vn refl

      replied-Verdict :
          (reply : AuthClientReply)
          → Verdict (IsGranting (replied reply)) w (
              (if equals client.app_id reply.app_id && equals client.user_id reply.user_id
                  then send_reply h reply
                  else send_reply h (verdict h client false))
                w)
      replied-Verdict reply =
          if-Verdict _ (equals client.app_id reply.app_id && equals client.user_id reply.user_id)
            (send_reply h reply) (send_reply h (verdict h client false))
            (λ both. record {
              reply = reply;
              answers = send_reply-Answers h c reply w address f origin name;
              app_id = ground (arith, both, equals_iff client.app_id reply.app_id);
              user_id = ground (arith, both, equals_iff client.user_id reply.user_id);
              grants = (
                (λ e. (
                  ground (arith, both, equals_iff client.app_id reply.app_id),
                  ground (arith, both, equals_iff client.user_id reply.user_id),
                  e,
                )),
                λ q. q.2,
              );
            })
            (λ apart. refused _ λ q. ground (
              arith,
              apart,
              equals_iff client.app_id reply.app_id,
              equals_iff client.user_id reply.user_id,
              q.0,
              q.1,
            ))

      on_posted-Verdict :
          (posted : Posted)
          → posted ≢ bad_url
          → Verdict (IsGranting posted) w (on_posted h client posted w)
      unfolding on_posted
      on_posted-Verdict bad_url good = absurd (good refl)
      on_posted-Verdict not_sent good = refused ⊥ λ q. q
      on_posted-Verdict failed good = caught-Verdict ⊥ _ _ (refused ⊥ λ q. q)
      on_posted-Verdict (replied reply) good =
          caught-Verdict _ _ _ (caught-Verdict _ _ _ (replied-Verdict reply))

      asked-Verdict :
          (app : ClientApp) (o : Option String)
          → app.auth_url ≡ o
          → is_blank h.strings o ≡ false
          → IsPostable (some app)
          → Verdict
              (IsVouchedFor app)
              w
              ((do url ← deref o; on_posted h client (h.post url client)) w)
      unfolding ◌>>=◌
      asked-Verdict app none e named good = cc named
      asked-Verdict app (some url) e named good =
          let v = on_posted-Verdict (h.post url client) (good url e) in
          record {
            reply = v.reply;
            answers = v.answers;
            app_id = v.app_id;
            user_id = v.user_id;
            grants = (
              (λ granted. (url, e, named, v.grants.0 granted)),
              λ (other, found, visible, granting).
                  v.grants.1 (subst (λ u. IsGranting (h.post u client)) (cc (e, found)) granting),
            );
          }

      is_same :
          (app : ClientApp) → equals app.app_id client.app_id ≡ true → app.app_id ≡ client.app_id
      is_same app e = ground (arith, e, equals_iff app.app_id client.app_id)

      unnamed :
          (app : ClientApp)
          → is_blank h.strings app.auth_url ≡ true
          → app.auth_enabled ≡ true
          → (app.auth_enabled ≡ false) ⊎ ((app.auth_enabled ≡ true) × IsVouchedFor app)
          → ⊥
      unnamed app blank checked (inl trusting) = cc (checked, trusting)
      unnamed app blank checked (inr (again, (url, found, visible, granting))) =
          cc (sym (ap (is_blank h.strings) found) ∙ blank, visible)

      vouched :
          (app : ClientApp)
          → app.auth_enabled ≡ true
          → (app.auth_enabled ≡ false) ⊎ ((app.auth_enabled ≡ true) × IsVouchedFor app)
          → IsVouchedFor app
      vouched app checked (inl trusting) = cc (checked, trusting)
      vouched app checked (inr (again, v)) = v

      over :
          (app : ClientApp) {p : Result (Unit {0}) × World}
          → equals app.app_id client.app_id ≡ true
          → equals_ignore_case h.strings (some h.domain_name) (domain_of h client.user_id) ≡ true
          → app.auth_enabled ≡ true
          → Verdict (IsVouchedFor app) w p
          → Verdict (IsTrusted app) w p
      over app same local checked v = record {
        reply = v.reply;
        answers = v.answers;
        app_id = v.app_id;
        user_id = v.user_id;
        grants = (
          (λ granted. (is_same app same, local, inr (checked, v.grants.0 granted))),
          λ q. v.grants.1 (vouched app checked q.2),
        );
      }

      check_app-Verdict :
          (o : Option ClientApp) → IsPostable o → Verdict (IsAllowed o) w (check_app h client o w)
      unfolding check_app
      check_app-Verdict none good = refused ⊥ λ q. q
      check_app-Verdict (some app) good =
          if_not-Verdict _ (equals app.app_id client.app_id) _ _
            (λ apart.
              refused _ λ q. ground (arith, apart, equals_iff app.app_id client.app_id, q.0))
            λ same.
              if_not-Verdict _
                (equals_ignore_case h.strings (some h.domain_name) (domain_of h client.user_id)) _ _
                (λ apart. refused _ λ q. cc (apart, q.1))
                λ local.
                  if_not-Verdict _ app.auth_enabled _ _
                    (λ trusting.
                      verdict-Verdict _ true
                        ((λ e. (is_same app same, local, inl trusting)), λ q. refl))
                    λ checked.
                      if-Verdict _ (is_blank h.strings app.auth_url) _ _
                        (λ blank. refused _ λ q. unnamed app blank checked q.2)
                        λ named.
                          over app same local checked
                            (asked-Verdict app app.auth_url refl named good)

      -- Where OkHttp builds a request to the authentication address of the user's application, if it has
      -- one, a request that comes from a connector of this domain is answered by one reliable
      -- AUTH_CLIENT_REPLY to that connector, with the note of the request and about the client that
      -- asked. The reply grants if and only if the application of the user exists and has the id that
      -- was given, the user belongs to this domain, and either the application asks for no
      -- authentication, or it has an address for it and the service there replied about the same
      -- application and user and granted.
      pub auth_client_do_process-Verdict :
          IsPostable (get_client_app_by_user_id h.strings h.apps client.user_id)
          → Verdict
              (IsAllowed (get_client_app_by_user_id h.strings h.apps client.user_id))
              w
              (auth_client_do_process h client w)
      unfolding auth_client_do_process
      auth_client_do_process-Verdict good = check_app-Verdict _ good
