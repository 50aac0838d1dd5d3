-- ===== src/Prelude/Effects.antt =====
-- Methods that change objects and may throw. What was written before the throw stays written, so
-- the state comes back beside the exception too.
pub mod Keeps
use mathlib.Core.Option.{Option, none, some}

-- `out_of_fuel` is the model's own: a recursion that was cut off.
pub data Exception : Type 0 where
  null_pointer illegal_argument illegal_state number_format process_message out_of_fuel : Exception

pub data Result {ℓ} (A : Type ℓ) : Type ℓ where
  ok : A → Result A
  throw : Exception → Result A

abbrev pub Exec : Type 0 → Type 0 → Type 0
Exec S A = S → Result A × S

module _ {S A : Type 0} where
  unfoldable pub pure : A → Exec S A
  pure a s = (ok a, s)

  unfoldable pub raise : Exception → Exec S A
  raise e s = (throw e, s)

  -- dereference of a value that may be null
  unfoldable pub deref : Option A → Exec S A
  deref none s = (throw null_pointer, s)
  deref (some a) s = (ok a, s)

  abbrev pub caught : (Exception → Exec S A) → Result A × S → Result A × S
  caught h (ok a, s) = (ok a, s)
  caught h (throw e, s) = h e s

  -- `try { m } catch (Exception e) { h(e) }`
  unfoldable pub try_catch : Exec S A → (Exception → Exec S A) → Exec S A
  try_catch m h s = caught h (m s)

  unfoldable pub gets : (S → A) → Exec S A
  gets f s = (ok (f s), s)

unfoldable pub modify : {S : Type 0} → (S → S) → Exec S (Unit {0})
modify f s = (ok tt, f s)

module _ {S A B : Type 0} where
  abbrev pub continue : (A → Exec S B) → Result A × S → Result B × S
  continue f (ok a, s) = f a s
  continue f (throw e, s) = (throw e, s)

  infixl 5 ◌>>=◌ ◌>>◌
  -- opening this opens the other actions too
  unfoldable pub ◌>>=◌ : Exec S A → (A → Exec S B) → Exec S B
  unfolding pure raise deref try_catch gets modify
  ◌>>=◌ m f s = continue f (m s)

  abbrev pub ◌>>◌ : Exec S A → Exec S B → Exec S B
  m >> n = m >>= λ _. n
