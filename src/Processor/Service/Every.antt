-- ===== src/Processor/Service/Every.antt =====
-- For each type of message, a fuel from which on MessageProcessorService.process does not run out.
use web_socketaa_s.Prelude.{
  ℕ, zero, suc, ◌+◌, ◌-◌, ◌≤◌, ◌≡◌, ◌≢◌, refl, sym, ap, ◌∙◌, true, throw, out_of_fuel, arith,
}
use web_socketaa_s.Model.{MessageType, is_internal}
use web_socketaa_s.Model.Message.{Message, Payload, from_head}
use web_socketaa_s.Model.Ttl.{touch_message, rounds}
use web_socketaa_s.Processor.{Host, World}
use web_socketaa_s.Processor.Service.{
  Job, unknown, unreadable, job, reading, preprocess, do_process, process_reading, process,
}
use web_socketaa_s.Processor.Service.Termination.{process_once-alive}
use web_socketaa_s.Processor.Service.Settled.{Single, is_single, process-Single}
use web_socketaa_s.Processor.Service.Grouped.{state_changed-Ends, group-Ends}
use web_socketaa_s.Processor.Service.Connections.{
  Typed, user_connected-Ends, user_disconnected-Ends,
}
use web_socketaa_s.Processor.Ends.{Ends, Any, any, Ends-pure, Ends-raise}
use web_socketaa_s.Processor.Ends.Handlers.{argument-ne}
use web_socketaa_s.Processor.Service.Ending.{connection-Ends}
use web_socketaa_s.Processor.Ends.{Holds}
use web_socketaa_s.Processor.Service.Total.{OfType, grouped-Ends, internal-Ends}
use std.Path.{subst}

module _ (h : Host) where
  -- From such a fuel on, the processing of a message does not run out of it.
  abbrev pub Enough : Message → ℕ → Type 0
  Enough m n =
      (fuel : ℕ) (w : World) → n ≤ fuel → w.self ≡ m → (process h fuel w).0 ≢ throw out_of_fuel

  two_rounds :
      (m : Message) (P : World → Type 0)
      → ((w : World) → w.self ≡ m → P w)
      → ((n : ℕ) → Ends P (process h (suc (suc n))))
      → Enough m 2
  two_rounds m P meets ends fuel w le own =
      subst (λ k. (process h k w).0 ≢ throw out_of_fuel) (omega (arith, le))
        ((ends (fuel - 2)).at w (meets w own))

  three_rounds :
      (m : Message) (P : World → Type 0)
      → ((w : World) → w.self ≡ m → P w)
      → ((n : ℕ) → Ends P (process h (suc (suc (suc n)))))
      → Enough m 3
  three_rounds m P meets ends fuel w le own =
      subst (λ k. (process h k w).0 ≢ throw out_of_fuel) (omega (arith, le))
        ((ends (fuel - 3)).at w (meets w own))

  pub connection-Enough :
      (m : Message)
      → ((n : ℕ) → Ends (Typed m.content.type n) (process h (suc (suc n))))
      → Enough m (rounds m + 2)
  connection-Enough m ends fuel w le own =
      subst (λ k. (process h k w).0 ≢ throw out_of_fuel) (omega (arith, le))
        ((ends (fuel - 2)).at w (record {
          typed = ap (λ (v : Message). v.content.type) own;
          left = subst (λ k. k ≤ fuel - 2) (sym (ap rounds own)) (omega (arith, le));
        }))

  pub single-Enough : (m : Message) → is_single m.content.type ≡ true → Enough m 2
  single-Enough m e =
      two_rounds m Single
        (λ w own. record { single = ap (λ (v : Message). is_single v.content.type) own ∙ e })
        (process-Single h)

  pub unknown-Enough :
      (m : Message) → ((p : Payload) → reading h m.content.type p ≡ unknown) → Enough m 1
  unknown-Enough m none_known zero w le own = omega (arith, le)
  unknown-Enough m none_known (suc fuel) w le own =
      unfold process in
      (process_once-alive h (process h fuel) (OfType m.content.type) (λ v p alive.
          rw
            (ap (λ t. reading h t v.self.content.payload) p.typed
              ∙ none_known v.self.content.payload)
            (unfold process_reading in (Ends-pure {P = Any} tt).at _ any))).at
        w (record { typed = ap (λ (v : Message). v.content.type) own })

  pub grouped_message-Enough :
      (m : Message) → m.content.type ≡ MessageType.group_message → Enough m 3
  unfolding reading do_process
  grouped_message-Enough m e =
      three_rounds m (OfType MessageType.group_message)
        (λ w own. record { typed = ap (λ (v : Message). v.content.type) own ∙ e })
        (grouped-Ends h MessageType.group_message Job.group h.jackson.to_group_message refl
          (λ p. refl) (λ again single foreign g. group-Ends h again single foreign g))

  pub state_changed-Enough :
      (m : Message) → m.content.type ≡ MessageType.message_state_changed → Enough m 3
  unfolding reading do_process
  state_changed-Enough m e =
      three_rounds m (OfType MessageType.message_state_changed)
        (λ w own. record { typed = ap (λ (v : Message). v.content.type) own ∙ e })
        (grouped-Ends h MessageType.message_state_changed
          (λ (i, q, state). Job.state_changed (from_head i q) state) h.jackson.to_state_changed refl
          (λ p. refl)
          (λ again single foreign (i, q, state). state_changed-Ends h again single _ state))

  pub user_connected-Enough :
      (m : Message) → m.content.type ≡ MessageType.user_connected → Enough m (rounds m + 2)
  unfolding reading do_process preprocess
  user_connected-Enough m e = connection-Enough m (
      subst (λ t. (n : ℕ) → Ends (Typed t n) (process h (suc (suc n)))) (sym e)
        (connection-Ends h MessageType.user_connected Job.user_connected h.jackson.to_user_connected
          refl (λ p. refl) (λ n again ends a. user_connected-Ends h _ n again ends a)
          (λ a v. refl)))

  pub user_disconnected-Enough :
      (m : Message) → m.content.type ≡ MessageType.user_disconnected → Enough m (rounds m + 2)
  unfolding reading do_process preprocess
  user_disconnected-Enough m e = connection-Enough m (
      subst (λ t. (n : ℕ) → Ends (Typed t n) (process h (suc (suc n)))) (sym e)
        (connection-Ends h MessageType.user_disconnected Job.user_disconnected
          h.jackson.to_user_disconnected refl (λ p. refl)
          (λ n again ends a. user_disconnected-Ends h _ n again ends a) (λ a v. refl)))

  pub internal-Enough :
      (m inner : Message) (n : ℕ)
      → is_internal m.content.type ≡ true
      → reading h m.content.type m.content.payload ≡ job (Job.internal inner)
      → Enough inner n
      → Enough m (suc n)
  internal-Enough m inner n inside reads enough zero w le own = absurd (none_below le)
    where
      none_below : suc n ≤ 0 → ⊥
      none_below l = omega (arith, l)
  internal-Enough m inner n inside reads enough (suc fuel) w le own =
      unfold process in
      (process_once-alive h (process h fuel) (Holds m) (λ v p alive.
          subst
            (λ (k : Message).
              (process_reading h (process h fuel) (reading h k.content.type k.content.payload)
                (record v { self = touch_message v.self })).0
              ≢ throw out_of_fuel)
            (sym p.own)
            (rw reads (
              internal-Ends h (process h fuel) inner
                (record { at = λ u q. enough fuel u (omega (arith, le)) q.own })
                (record v { self = touch_message v.self })
                (unfold touch_message in
                  ap (λ (k : Message). is_internal k.content.type) p.own ∙ inside))))).at
        w (record { own = own })

  pub unreadable-Enough :
      (m : Message) → reading h m.content.type m.content.payload ≡ unreadable → Enough m 1
  unreadable-Enough m reads zero w le own = omega (arith, le)
  unreadable-Enough m reads (suc fuel) w le own =
      unfold process in
      (process_once-alive h (process h fuel) (Holds m) (λ v p alive.
          subst
            (λ (k : Message).
              (process_reading h (process h fuel) (reading h k.content.type k.content.payload)
                (record v { self = touch_message v.self })).0
              ≢ throw out_of_fuel)
            (sym p.own)
            (rw reads
              (unfold process_reading in (Ends-raise {P = Any} _ argument-ne).at _ any)))).at
        w (record { own = own })
