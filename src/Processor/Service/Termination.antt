-- ===== src/Processor/Service/Termination.antt =====
-- MessageProcessorService.process ends: the messages that it makes on the way are of few kinds, a
-- connection message is passed on at most as often as its time to live allows, and an internal
-- message holds a smaller one.
use web_socketaa_s.Prelude.{
  ℕ, suc, ◌≡◌, ◌≢◌, refl, ap, ◌∙◌, true, false, not, ◌&&◌, if◌then◌else◌, throw, out_of_fuel,
  modify, ◌>>=◌, arith, inl, inr, Bool-cases, Option-cases,
}
use web_socketaa_s.Prelude.Effects.Keeps.{Keeps}
use web_socketaa_s.Model.{MessageType, is_internal}
use web_socketaa_s.Model.Message.{Message, Payload, build}
use web_socketaa_s.Model.Ttl.{touch_message, is_message_alive}
use web_socketaa_s.Processor.{Host, World, Task, on_object, new_message}
use web_socketaa_s.Processor.Office.{change, is_current_domain_message, resolve_domain_name}
use web_socketaa_s.Processor.Handlers.Internal.{internal_do_process}
use web_socketaa_s.Processor.Service.{
  Job, Reading, unknown, unreadable, job, reading, preprocess, do_process,
  process_cross_domain_message, process_reading, process_once, process,
}
use web_socketaa_s.Processor.Ends.{Ends, any, Ends-pure, Ends-raise}
use web_socketaa_s.Processor.Ends.Handlers.{argument-ne, deliver_message-Ends}

module _ (h : Host) where
  -- An internal message for another domain.
  pub record Wrap (w : World) : Type 0 where
    pub inside : is_internal w.self.content.type ≡ true
    pub foreign : is_current_domain_message h w.self ≡ false

  -- A message that is not internal.
  pub record Plain (w : World) : Type 0 where
    pub outside : is_internal w.self.content.type ≡ false

  abbrev pub IsInternal : Reading → Type 0
  IsInternal (job (Job.internal inner)) = Unit
  IsInternal (job _) = ⊥
  IsInternal _ = Unit

  pub reading-IsInternal :
      (type : MessageType) (p : Payload) → is_internal type ≡ true → IsInternal (reading h type p)
  unfolding reading
  reading-IsInternal MessageType.internal_message p e =
      elim (Option-cases (h.jackson.to_message p)) [
        | inl bad ↦ rw bad tt
        | inr ((i, q), read) ↦ rw read tt
      ]
  reading-IsInternal _ p e = cc

  pub preprocess-foreign :
      (inner m : Message)
      → is_current_domain_message h m ≡ false
      → preprocess h (Job.internal inner) m ≡ m
  unfolding preprocess is_current_domain_message
  preprocess-foreign inner m e = ground arith

  touch-Wrap : Keeps Wrap (change touch_message)
  unfolding touch_message is_current_domain_message resolve_domain_name modify
  touch-Wrap = record { at = λ w p. record { inside = p.inside; foreign = p.foreign } }

  module _ (again : Task) where
    process_reading-Wrap : (r : Reading) → IsInternal r → Ends Wrap (process_reading h again r)
    unfolding process_reading
    process_reading-Wrap unknown i = Ends-pure tt
    process_reading-Wrap unreadable i = Ends-raise _ argument-ne
    process_reading-Wrap (job (Job.internal inner)) i = record {
      at = λ w p.
          unfold ◌>>=◌ in
          rw (preprocess-foreign inner w.self p.foreign) (
            rw p.inside (
              unfold do_process internal_do_process in
              rw p.foreign ((deliver_message-Ends h).at w any)));
    }
    process_reading-Wrap (job _) i = absurd i

    -- One round ends if what follows the touch of a message that is then alive ends.
    pub process_once-alive :
        (P : World → Type 0)
        → ((w : World)
            → P w
            → is_message_alive (touch_message w.self) ≡ true
            → (process_reading h again
                (reading h w.self.content.type w.self.content.payload)
                (record w { self = touch_message w.self })).0
              ≢ throw out_of_fuel)
        → Ends P (process_once h again)
    unfolding process_once ◌>>=◌ modify touch_message
    process_once-alive P k = record {
      at = λ w p. elim (Bool-cases (is_message_alive (touch_message w.self))) [
        | inl alive ↦ rw alive (k w p alive)
        | inr dead ↦ rw dead (λ e. cc)
      ];
    }

    pub process_once-Ends :
        (P : World → Type 0)
        → Keeps P (change touch_message)
        → ((w : World)
            → P w
            → (process_reading h again (reading h w.self.content.type w.self.content.payload) w).0
              ≢ throw out_of_fuel)
        → Ends P (process_once h again)
    unfolding modify touch_message
    process_once-Ends P touch k =
        process_once-alive P
          (λ w p alive. k (record w { self = touch_message w.self }) (touch.at w p))

    process_once-Wrap : Ends Wrap (process_once h again)
    process_once-Wrap = process_once-Ends Wrap touch-Wrap (λ w p.
        (process_reading-Wrap _ (reading-IsInternal _ w.self.content.payload p.inside)).at w p)

    -- A message for another domain is wrapped, and the wrapped one ends.
    pub cross-Ends :
        Ends Wrap again
        → (w : World) → is_internal w.self.content.type ≡ false
        → is_current_domain_message h w.self ≡ false
        → (process_cross_domain_message h again w).0 ≢ throw out_of_fuel
    unfolding process_cross_domain_message ◌>>=◌ new_message on_object build
        is_current_domain_message resolve_domain_name
    cross-Ends e w plain foreign = rw plain (e.at _ (record { inside = refl; foreign = foreign }))

  pub process-Wrap : (n : ℕ) → Ends Wrap (process h (suc n))
  unfolding process
  process-Wrap n = process_once-Wrap (process h n)

  pub preprocess-type : (j : Job) (m : Message) → (preprocess h j m).content.type ≡ m.content.type
  unfolding preprocess
  preprocess-type (Job.internal inner) m = ground arith
  preprocess-type (Job.chat request) m = refl
  preprocess-type (Job.close_connection user_id) m = refl
  preprocess-type (Job.auth_client client) m = refl
  preprocess-type (Job.group g) m = refl
  preprocess-type Job.confirmation m = refl
  preprocess-type (Job.fetch count) m = refl
  preprocess-type (Job.state_changed inner state) m = refl
  preprocess-type (Job.user_connected user_id) m = refl
  preprocess-type (Job.user_disconnected user_id) m = refl

  module _ (again : Task) (e : Ends Wrap again) where
    dispatch-Ends :
        (j : Job) (w : World)
        → is_internal w.self.content.type ≡ false
        → (is_current_domain_message h w.self ≡ true
            → (do_process h again j w).0 ≢ throw out_of_fuel)
        → ((if not (is_internal w.self.content.type) && not (is_current_domain_message h w.self)
              then process_cross_domain_message h again
              else do_process h again j)
            w).0
          ≢ throw out_of_fuel
    dispatch-Ends j w plain here = elim (Bool-cases (is_current_domain_message h w.self)) [
      | inl current ↦ rw (plain, current) (here current)
      | inr foreign ↦ rw (plain, foreign) (cross-Ends again e w plain foreign)
    ]

    -- A job that is not internal ends, if it ends in the current domain.
    pub job-Ends :
        (j : Job) (w : World)
        → is_internal w.self.content.type ≡ false
        → (is_current_domain_message h (preprocess h j w.self) ≡ true
            → (do_process h again j (record w { self = preprocess h j w.self })).0
              ≢ throw out_of_fuel)
        → (process_reading h again (job j) w).0 ≢ throw out_of_fuel
    unfolding process_reading ◌>>=◌ modify
    job-Ends j w plain here =
        dispatch-Ends j _ (ap is_internal (preprocess-type j w.self) ∙ plain) here
