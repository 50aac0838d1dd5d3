-- ===== src/Loader/Fuel.antt =====
-- How many modules of the loader are not in its cache: the measure that falls when a body begins.
pub mod Ends
use web_socketaa_s.Prelude.{
  ℕ, zero, suc, ◌+◌, ◌≤◌, ◌<◌, String, ◌≡◌, ◌≢◌, refl, sym, ap, ◌∙◌, Option, none, some, Bool, true,
  false, not, ◌||◌, List, [], ◌∷◌, ◌++◌, length, if◌then◌else◌, Exec, Result, ok, throw, pure,
  raise, gets, modify, ◌>>=◌, ◌>>◌, arith, Dict, lookup, insert, ◌==◌, eq_iff, Bool-cases,
  Option-cases, inl, inr, out_of_fuel, illegal_state, null_pointer,
}
use web_socketaa_s.Prelude.Effects
use web_socketaa_s.Loader.{
  Loader, Body, Deferred, Push, Module, is_installed, is_there, set_module, begun, run_requires,
  run_body, call_module, require_once, require, check_from, check_deferred_modules, install,
  webpack_jsonp_callback, add_modules,
}
use web_socketaa_s.Loader.Once.{is_installed-set_module, is_installed-set_module_mono}

-- How many of some modules are not in a cache.
abbrev pub missing : Dict Body → Loader → ℕ
missing [] s = 0
missing ((id, body) ∷ modules) s = missing modules s + (if is_installed id s then 0 else 1)

abbrev pub todo : Loader → ℕ
todo s = missing s.modules s

pub missing-le :
    (modules : Dict Body) (s t : Loader)
    → ((id : String) → is_installed id s ≡ true → is_installed id t ≡ true)
    → missing modules t ≤ missing modules s
missing-le [] s t mono = omega arith
missing-le ((id, body) ∷ modules) s t mono = elim (Bool-cases (is_installed id s)) [
  | inl there ↦ rw (there, mono id there) (omega (arith, missing-le modules s t mono))
  | inr absent ↦ rw absent (at_most (is_installed id t) (missing-le modules s t mono))
]
  where
    at_most :
        (b : Bool)
        → missing modules t ≤ missing modules s
        → missing modules t + (if b then 0 else 1) ≤ missing modules s + 1
    at_most true le = omega (arith, le)
    at_most false le = omega (arith, le)

-- A module that is known and not in the cache counts.
pub missing-lt :
    (modules : Dict Body) (id : String) (body : Body) (s : Loader)
    → lookup id modules ≡ some body
    → is_installed id s ≡ false
    → missing modules (set_module false id s) < missing modules s
unfolding lookup
missing-lt [] id body s found absent = cc
missing-lt ((other, b) ∷ modules) id body s found absent = elim (Bool-cases (other == id)) [
  | inl same ↦ rw ((eq_iff other id).0 same) (
      rw absent (
        rw (is_installed-set_module false id id s) (
          rw ((eq_iff id id).1 refl) (
            omega (
              arith,
              missing-le modules s (set_module false id s)
                  (λ x i. is_installed-set_module_mono false id x s i),
            )))))
  | inr apart ↦ rw (is_installed-set_module false id other s) (
      rw (other_id apart) (
        step (is_installed other s)
          (missing-lt modules id body s (ground (arith, apart, found)) absent)))
]
  where
    other_id : (other == id) ≡ false → (id == other) ≡ false
    other_id apart = ground (arith, apart, eq_iff id other, eq_iff other id)

    step :
        (there : Bool)
        → missing modules (set_module false id s) < missing modules s
        → missing modules (set_module false id s) + (if there then 0 else 1)
          < missing modules s + (if there then 0 else 1)
    step true lt = omega (arith, lt)
    step false lt = omega (arith, lt)
