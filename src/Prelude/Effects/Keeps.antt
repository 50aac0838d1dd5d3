-- ===== src/Prelude/Effects/Keeps.antt =====
-- Invariants of actions: one rule for each way to build an action.
use mathlib.Core.Path.{◌≡◌, refl}
use mathlib.Core.Bool.{Bool, true, false}
use mathlib.Core.Option.{Option, none, some}
use web_socketaa_s.Prelude.Tests.{if◌then◌else◌}
use web_socketaa_s.Prelude.Effects
use web_socketaa_s.Prelude.Effects.{
  Exec, Result, ok, throw, Exception, pure, raise, deref, try_catch, gets, modify, ◌>>=◌,
}

-- `m` keeps `I`, whether it returns or throws.
pub record Keeps {State A : Type 0} (I : State → Type 0) (m : Exec State A) : Type 0 where
  pub at : (s : State) → I s → I (m s).1

module _ {State A : Type 0} {I : State → Type 0} where
  pub Keeps-pure : (a : A) → Keeps I (pure a)
  unfolding pure
  Keeps-pure a = record { at = λ before kept. kept }

  pub Keeps-raise : (e : Exception) → Keeps I (raise {A = A} e)
  unfolding raise
  Keeps-raise e = record { at = λ before kept. kept }

  pub Keeps-deref : (o : Option A) → Keeps I (deref o)
  unfolding deref
  Keeps-deref none = record { at = λ before kept. kept }
  Keeps-deref (some a) = record { at = λ before kept. kept }

  pub Keeps-gets : (f : State → A) → Keeps I (gets f)
  unfolding gets
  Keeps-gets f = record { at = λ before kept. kept }

  pub Keeps-if :
      (b : Bool) (m n : Exec State A) → Keeps I m → Keeps I n → Keeps I (if b then m else n)
  Keeps-if true m n km kn = km
  Keeps-if false m n km kn = kn

  caught-keeps :
      (h : Exception → Exec State A) (r : Result A) (s : State)
      → ((e : Exception) → Keeps I (h e))
      → I s
      → I (Effects.caught h (r, s)).1
  caught-keeps h (ok a) s kh p = p
  caught-keeps h (throw e) s kh p = (kh e).at s p

  pub Keeps-try_catch :
      (m : Exec State A) (h : Exception → Exec State A)
      → Keeps I m
      → ((e : Exception) → Keeps I (h e))
      → Keeps I (try_catch m h)
  unfolding try_catch
  Keeps-try_catch m h km kh = record {
    at = λ s p. let (r, t) = m s in caught-keeps h r t kh (km.at s p);
  }

module _ {State : Type 0} {I : State → Type 0} where
  pub Keeps-modify : (f : State → State) → ((s : State) → I s → I (f s)) → Keeps I (modify f)
  unfolding modify
  Keeps-modify f kf = record { at = kf }

module _ {State A B : Type 0} {I : State → Type 0} where
  continue-keeps :
      (f : A → Exec State B) (r : Result A) (s : State)
      → ((a : A) → r ≡ ok a → Keeps I (f a))
      → I s
      → I (Effects.continue f (r, s)).1
  continue-keeps f (ok a) s kf p = (kf a refl).at s p
  continue-keeps f (throw e) s kf p = p

  pub Keeps-bind :
      (m : Exec State A) (f : A → Exec State B)
      → Keeps I m
      → ((a : A) → Keeps I (f a))
      → Keeps I (m >>= f)
  unfolding ◌>>=◌
  Keeps-bind m f km kf = record {
    at = λ s p. let (r, t) = m s in continue-keeps f r t (λ a _. kf a) (km.at s p);
  }

pub ruleset keeps_rules =
    (Keeps-pure, Keeps-raise, Keeps-deref, Keeps-gets, Keeps-if, Keeps-try_catch, Keeps-bind)

module _ {State A B : Type 0} {I : State → Type 0} where
  -- What follows a read may use what was read.
  pub Keeps-gets_bind :
      (f : State → A) (k : A → Exec State B)
      → ((s : State) → I s → I (k (f s) s).1)
      → Keeps I (gets f >>= k)
  unfolding ◌>>=◌
  Keeps-gets_bind f k h = record { at = h }
