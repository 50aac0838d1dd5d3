-- ===== src/Processor/Ends.antt =====
-- Rules for tasks that do not run out of fuel, from states that meet a condition.
pub mod Handlers
use web_socketaa_s.Prelude.{
  ℕ, String, ◌≡◌, ◌≢◌, refl, ap, Option, none, some, Bool, true, false, List, if◌then◌else◌, Exec,
  Result, ok, throw, Exception, out_of_fuel, pure, raise, deref, try_catch, gets, modify, ◌>>=◌,
  arith,
}
use web_socketaa_s.Prelude.Effects
use web_socketaa_s.Prelude.Effects.Keeps.{Keeps}
use web_socketaa_s.Model.Message.{Message, MessageContent, MessageMeta, build}
use web_socketaa_s.Processor.{Host, World, Task, on_object, new_message}

-- Holds of every state.
pub data Any (w : World) : Type 0 where
  any : Any w

pub record Ends {A : Type 0} (P : World → Type 0) (task : Exec World A) : Type 0 where
  pub at : (w : World) → P w → (task w).0 ≢ throw out_of_fuel

-- The message being processed is `m`.
pub record Holds (m : Message) (w : World) : Type 0 where
  pub own : w.self ≡ m

module _ {A : Type 0} {P : World → Type 0} where
  pub Ends-pure : (a : A) → Ends P (pure a)
  unfolding pure
  Ends-pure a = record { at = λ w p e. cc }

  pub Ends-raise : (e : Exception) → e ≢ out_of_fuel → Ends P (raise {A = A} e)
  unfolding raise
  Ends-raise e ne = record { at = λ w p h. ne (ground arith) }

  pub Ends-deref : (o : Option A) → Ends P (deref o)
  unfolding deref
  Ends-deref none = record { at = λ w p h. cc }
  Ends-deref (some a) = record { at = λ w p h. cc }

  pub Ends-gets : (f : World → A) → Ends P (gets f)
  unfolding gets
  Ends-gets f = record { at = λ w p h. cc }

  pub Ends-if : (b : Bool) (m n : Exec World A) → Ends P m → Ends P n → Ends P (if b then m else n)
  Ends-if true m n em en = em
  Ends-if false m n em en = en

module _ {P : World → Type 0} where
  pub Ends-modify : (f : World → World) → Ends P (modify f)
  unfolding modify
  Ends-modify f = record { at = λ w p h. cc }

  pub Ends-on_object : (m : Message) (task : Task) → Ends (Holds m) task → Ends P (on_object m task)
  unfolding on_object
  Ends-on_object m task e = record {
    at = λ w p. e.at (record w { self = m }) (record { own = refl });
  }

pub Keeps-Any : {A : Type 0} (task : Exec World A) → Keeps Any task
Keeps-Any task = record { at = λ w p. any }

pub Ends-weaken :
    {A : Type 0} {P : World → Type 0} (task : Exec World A) → Ends Any task → Ends P task
Ends-weaken task e = record { at = λ w p. e.at w any }

module _ {A B : Type 0} {P : World → Type 0} where
  continue-Ends :
      (f : A → Exec World B) (r : Result A) (w : World)
      → r ≢ throw out_of_fuel
      → ((a : A) → Ends P (f a))
      → P w
      → (Effects.continue f (r, w)).0 ≢ throw out_of_fuel
  continue-Ends f (ok a) w e k p = (k a).at w p
  continue-Ends f (throw x) w e k p = λ h. e (ground arith)

  pub Ends-bind :
      (m : Exec World A) (f : A → Exec World B)
      → Ends P m
      → Keeps P m
      → ((a : A) → Ends P (f a))
      → Ends P (m >>= f)
  unfolding ◌>>=◌
  Ends-bind m f e keep k = record {
    at = λ w p. let (r, w') = m w in continue-Ends f r w' (e.at w p) k (keep.at w p);
  }

-- A message that is built may be followed further.
pub Ends-new_message :
    {B : Type 0} (h : Host) (from to : Option String) (content : MessageContent)
    (meta : MessageMeta) (f : Message → Exec World B)
    → ((n : ℕ) → Ends Any (f (build h.runtime n from to content meta)))
    → Ends Any (new_message h from to content meta >>= f)
unfolding new_message ◌>>=◌
Ends-new_message h from to content meta f k = record {
  at = λ w p. (k w.used).at (record w { used = _ }) any;
}

pub Ends-try_catch :
    {A : Type 0} (m : Exec World A) (handler : Exception → Exec World A)
    → ((e : Exception) → Ends Any (handler e))
    → Ends Any (try_catch m handler)
unfolding try_catch
Ends-try_catch {A = A} m handler k = record { at = λ w p. let (r, w') = m w in caught-ends r w' }
  where
    caught-ends : (r : Result A) (w : World) → (Effects.caught handler (r, w)).0 ≢ throw out_of_fuel
    caught-ends (ok a) w = λ h. cc
    caught-ends (throw e) w = (k e).at w any

pub ruleset ends_rules = (
  Ends-pure, Ends-raise, Ends-deref, Ends-gets, Ends-if, Ends-modify, Ends-bind, Keeps-Any,
  Ends-try_catch,
)
