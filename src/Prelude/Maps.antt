-- ===== src/Prelude/Maps.antt =====
-- Maps with string keys, and lists used as sets: `HashMap`, the key-value repositories, `HashSet`.
-- The order of iteration is the order of first insertion.
use Prim.Native.String.{String}
use mathlib.Core.Path.{◌≡◌, refl}
use mathlib.Core.Option.{Option, none, some}
use mathlib.Core.List.{List, [], ◌∷◌}
use native.Mathlib.Omega.{arith}
use text.Mathlib.Text.{◌==◌}
use text.Mathlib.TextEquality.{eq_iff}
use web_socketaa_s.Prelude.Tests.{if◌then◌else◌}

abbrev pub Dict {ℓ} : Type ℓ → Type ℓ
Dict V = List (String × V)

module _ {ℓ} {V : Type ℓ} where
  unfoldable pub lookup : String → Dict V → Option V
  lookup key [] = none
  lookup key ((other, value) ∷ rest) = if other == key then some value else lookup key rest

  unfoldable pub insert : String → V → Dict V → Dict V
  insert key new [] = (key, new) ∷ []
  insert key new ((other, old) ∷ rest) =
      let kept = insert key new rest in
      if other == key then (key, new) ∷ rest else (other, old) ∷ kept

  unfoldable pub delete : String → Dict V → Dict V
  delete k [] = []
  delete k ((j, w) ∷ m) = let rest = delete k m in if j == k then rest else (j, w) ∷ rest

  pub lookup-insert :
      (key sought : String) (new : V) (d : Dict V)
      → lookup sought (insert key new d) ≡ (if key == sought then some new else lookup sought d)
  unfolding lookup insert
  lookup-insert key sought new [] = refl
  lookup-insert key sought new ((other, old) ∷ rest) = ground (
    arith,
    lookup-insert key sought new rest,
    eq_iff key sought,
    eq_iff other sought,
    eq_iff other key,
  )

  pub lookup-delete :
      (k j : String) (m : Dict V) → lookup j (delete k m) ≡ (if k == j then none else lookup j m)
  unfolding lookup delete
  lookup-delete k j [] = ground arith
  lookup-delete k j ((i, w) ∷ m) =
      ground (arith, eq_iff k j, eq_iff i k, eq_iff i j, lookup-delete k j m)

pub ruleset dict_laws = (lookup-insert, lookup-delete)
