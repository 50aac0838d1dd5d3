-- ===== src/Loader/Once.antt =====
-- No body of a module is begun twice.
use web_socketaa_s.Prelude.{
  ℕ, zero, suc, String, ◌≡◌, refl, Option, none, some, Bool, true, false, ◌||◌, List, [], ◌∷◌, ◌++◌,
  Exec, pure, modify, ◌>>=◌, ◌>>◌, arith, lookup, lookup-insert, ◌==◌, exists_in, Bool-cases, inl,
  inr,
}
use web_socketaa_s.Prelude.Effects.Keeps.{Keeps, keeps_rules, Keeps-modify, Keeps-bind, Keeps-if}
use web_socketaa_s.Loader.{
  Loader, Body, Deferred, Push, is_installed, set_module, begun, run_requires, run_body,
  call_module, require_once, require, check_from, check_deferred_modules, install,
  webpack_jsonp_callback, after,
}

abbrev pub is_in : String → List String → Bool
is_in id ids = exists_in (λ x. x == id) ids

abbrev pub Distinct : List String → Type 0
Distinct [] = Unit
Distinct (id ∷ ids) = (is_in id ids ≡ false) × Distinct ids

-- The bodies that were begun are different, and their modules are in the cache.
pub record Sound (s : Loader) : Type 0 where
  pub distinct : Distinct s.executed
  pub cached : (id : String) → is_in id s.executed ≡ true → is_installed id s ≡ true

pub is_installed-set_module :
    (b : Bool) (id other : String) (s : Loader)
    → is_installed other (set_module b id s) ≡ (id == other) || is_installed other s
is_installed-set_module b id other s = elim (Bool-cases (id == other)) [
  | inl same ↦
      rw (lookup-insert id other (record { loaded = b }) s.installed_modules) (rw same refl)
  | inr apart ↦
      rw (lookup-insert id other (record { loaded = b }) s.installed_modules) (rw apart refl)
]

pub is_installed-set_module_mono :
    (b : Bool) (id other : String) (s : Loader)
    → is_installed other s ≡ true
    → is_installed other (set_module b id s) ≡ true
is_installed-set_module_mono b id other s there =
    rw (is_installed-set_module b id other s) (rw there (ground arith))

set_module-Sound : (b : Bool) (id : String) (s : Loader) → Sound s → Sound (set_module b id s)
set_module-Sound b id s p = record {
  distinct = p.distinct;
  cached = λ other i. is_installed-set_module_mono b id other s (p.cached other i);
}

absent :
    (id : String) (s : Loader) → Sound s → is_installed id s ≡ false → is_in id s.executed ≡ false
absent id s p missing = elim (Bool-cases (is_in id s.executed)) [
  | inl ran ↦ cc (p.cached id ran, missing)
  | inr fine ↦ fine
]

begun-Sound :
    (id : String) (s : Loader)
    → Sound s
    → is_installed id s ≡ false
    → Sound (begun id (set_module false id s))
begun-Sound id s p missing = record {
  distinct = (absent id s p missing, p.distinct);
  cached = λ other i. elim (Bool-cases (id == other)) [
    | inl same ↦ rw (is_installed-set_module false id other s) (rw same refl)
    | inr apart ↦
        is_installed-set_module_mono false id other s (p.cached other (ground (arith, apart, i)))
  ];
}

module _ (again : String → Exec Loader String) (keep : (id : String) → Keeps Sound (again id)) where
  run_requires-Sound : (ids : List String) → Keeps Sound (run_requires again ids)
  unfolding run_requires
  run_requires-Sound [] = search keeps_rules
  run_requires-Sound (id ∷ ids) = Keeps-bind _ _ (keep id) λ _. run_requires-Sound ids

  run_body-Sound : (body : Body) → Keeps Sound (run_body again body)
  unfolding run_body
  run_body-Sound body = Keeps-bind _ _ (run_requires-Sound body.requires) λ _. search keeps_rules

  set_module_after : (id : String) → Keeps Sound (do modify (set_module true id); pure id)
  set_module_after id =
      Keeps-bind _ _ (Keeps-modify _ (set_module-Sound true id)) λ _. search keeps_rules

  called-Sound :
      (id : String) (o : Option Body) (s : Loader)
      → Sound s
      → is_installed id s ≡ false
      → Sound
          ((do call_module again id o; modify (set_module true id); pure id)
            (set_module false id s)).1
  unfolding call_module ◌>>=◌
  called-Sound id none s p missing = set_module-Sound false id s p
  called-Sound id (some body) s p missing =
      (Keeps-bind _ _ (run_body-Sound body) λ _. set_module_after id).at
        (begun id (set_module false id s)) (begun-Sound id s p missing)

  require_once-Sound : (id : String) → Keeps Sound (require_once again id)
  unfolding require_once ◌>>=◌
  require_once-Sound id = record {
    at = λ s p. elim (Bool-cases (is_installed id s)) [
      | inl there ↦ rw there p
      | inr missing ↦ rw missing (called-Sound id (lookup id s.modules) s p missing)
    ];
  }

pub require-Sound : (fuel : ℕ) (id : String) → Keeps Sound (require fuel id)
unfolding require
require-Sound zero id = search keeps_rules
require-Sound (suc fuel) id = require_once-Sound (require fuel) (require-Sound fuel) id

module _ (fuel : ℕ) where
  check_from-Sound : (seen ds : List Deferred) → Keeps Sound (check_from (require fuel) seen ds)
  unfolding check_from
  check_from-Sound seen [] = search keeps_rules
  check_from-Sound seen (d ∷ ds) = Keeps-bind _ _ (search keeps_rules) λ ready.
      Keeps-if _ _ _
        (Keeps-bind _ _ (Keeps-modify _ λ s p. record { distinct = p.distinct; cached = p.cached })
          λ _. Keeps-bind _ _ (require-Sound fuel d.entry) λ _. check_from-Sound seen ds)
        (check_from-Sound (seen ++ d ∷ []) ds)

  pub webpack_jsonp_callback-Sound :
      (taken_over : Bool) (p : Push)
      → Keeps Sound (webpack_jsonp_callback (require fuel) taken_over p)
  unfolding webpack_jsonp_callback install check_deferred_modules
  webpack_jsonp_callback-Sound taken_over p =
      Keeps-bind _ _ (Keeps-modify _ λ s q. record { distinct = q.distinct; cached = q.cached })
        λ _. Keeps-bind _ _ (search keeps_rules) λ ds. check_from-Sound [] ds

  -- From a loader whose begun bodies are all different and in its cache, whatever scripts push, also
  -- where bodies throw, leads to one of which the same holds: no body is begun twice.
  pub after-Sound : (s : Loader) (ps : List Push) → Sound s → Sound (after fuel s ps)
  unfolding after
  after-Sound s [] v = v
  after-Sound s (p ∷ ps) v =
      after-Sound (webpack_jsonp_callback (require fuel) true p s).1 ps
        ((webpack_jsonp_callback-Sound true p).at s v)
