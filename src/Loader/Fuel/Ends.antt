-- ===== src/Loader/Fuel/Ends.antt =====
-- A push ends: a module is put into the cache before its body runs, so a body requires each module
-- at most once more, also where modules require each other.
use web_socketaa_s.Prelude.{
  ℕ, zero, suc, ◌+◌, ◌≤◌, ◌<◌, String, ◌≡◌, ◌≢◌, refl, Option, none, some, Bool, true, false, List,
  [], ◌∷◌, ◌++◌, length, if◌then◌else◌, Exec, Result, ok, throw, pure, raise, gets, modify, ◌>>=◌,
  ◌>>◌, arith, Dict, lookup, Bool-cases, inl, inr, out_of_fuel, illegal_state,
}
use web_socketaa_s.Prelude.Effects
use web_socketaa_s.Loader.{
  Loader, Body, Deferred, Push, is_installed, set_module, begun, run_requires, run_body,
  call_module, require_once, require, check_from, check_deferred_modules, install,
  webpack_jsonp_callback,
}
use web_socketaa_s.Loader.Once.{is_installed-set_module_mono}
use web_socketaa_s.Loader.Fuel.{missing, todo, missing-le, missing-lt}
use web_socketaa_s.Prelude.{◌-◌}

-- Run where at most `n` modules are missing, the task does not run out of fuel, and leaves at most
-- `n` missing.
pub record Safe {A : Type 0} (n : ℕ) (task : Exec Loader A) : Type 0 where
  pub ends : (s : Loader) → todo s ≤ n → (task s).0 ≢ throw out_of_fuel
  pub keeps : (s : Loader) → todo s ≤ n → todo (task s).1 ≤ n

module _ {n : ℕ} where
  Safe-pure : {A : Type 0} (a : A) → Safe n (pure a)
  unfolding pure
  Safe-pure a = record { ends = λ s le e. cc; keeps = λ s le. le }

  Safe-raise : {A : Type 0} (e : Effects.Exception) → e ≢ out_of_fuel → Safe n (raise {A = A} e)
  unfolding raise
  Safe-raise e ne = record { ends = λ s le h. ne (ground arith); keeps = λ s le. le }

  Safe-gets : {A : Type 0} (f : Loader → A) → Safe n (gets f)
  unfolding gets
  Safe-gets f = record { ends = λ s le e. cc; keeps = λ s le. le }

  Safe-modify : (f : Loader → Loader) → ((s : Loader) → todo (f s) ≤ todo s) → Safe n (modify f)
  unfolding modify
  Safe-modify f less = record { ends = λ s le e. cc; keeps = λ s le. omega (arith, le, less s) }

  Safe-if :
      {A : Type 0} (b : Bool) (m k : Exec Loader A)
      → Safe n m
      → Safe n k
      → Safe n (if b then m else k)
  Safe-if true m k sm sk = sm
  Safe-if false m k sm sk = sk

  continue-Safe :
      {A B : Type 0} (f : A → Exec Loader B) (r : Result A) (s : Loader)
      → ((a : A) → Safe n (f a))
      → r ≢ throw out_of_fuel
      → todo s ≤ n
      → ((Effects.continue f (r, s)).0 ≢ throw out_of_fuel)
        × (todo (Effects.continue f (r, s)).1 ≤ n)
  continue-Safe f (ok a) s k ne le = ((k a).ends s le, (k a).keeps s le)
  continue-Safe f (throw e) s k ne le = ((λ h. ne (ground arith)), le)

  Safe-bind :
      {A B : Type 0} (m : Exec Loader A) (f : A → Exec Loader B)
      → Safe n m
      → ((a : A) → Safe n (f a))
      → Safe n (m >>= f)
  unfolding ◌>>=◌
  Safe-bind m f sm k = record {
    ends = λ s le. let (r, t) = m s in (continue-Safe f r t k (sm.ends s le) (sm.keeps s le)).0;
    keeps = λ s le. let (r, t) = m s in (continue-Safe f r t k (sm.ends s le) (sm.keeps s le)).1;
  }

ruleset safe_rules = (Safe-pure, Safe-raise, Safe-gets, Safe-if, Safe-bind)

set_module-le : (b : Bool) (id : String) (s : Loader) → todo (set_module b id s) ≤ todo s
set_module-le b id s =
    missing-le s.modules s (set_module b id s) (λ x i. is_installed-set_module_mono b id x s i)

module _ (again : String → Exec Loader String) (n : ℕ)
    (safe : (id : String) → Safe n (again id)) where
  run_requires-Safe : (ids : List String) → Safe n (run_requires again ids)
  unfolding run_requires
  run_requires-Safe [] = Safe-pure tt
  run_requires-Safe (id ∷ ids) = Safe-bind _ _ (safe id) λ _. run_requires-Safe ids

  illegal_ne : illegal_state ≢ out_of_fuel
  illegal_ne e = cc

  run_body-Safe : (body : Body) → Safe n (run_body again body)
  unfolding run_body
  run_body-Safe body =
      Safe-bind _ _ (run_requires-Safe body.requires)
        λ _. Safe-if _ _ _ (Safe-raise _ illegal_ne) (Safe-pure tt)

  finish-Safe : (id : String) → Safe n (do modify (set_module true id); pure id)
  finish-Safe id = Safe-bind _ _ (Safe-modify _ (set_module-le true id)) λ _. Safe-pure id

  called_body-Safe :
      (id : String) (body : Body)
      → Safe n (do run_body again body; modify (set_module true id); pure id)
  called_body-Safe id body = Safe-bind _ _ (run_body-Safe body) λ _. finish-Safe id

module _ (again : String → Exec Loader String) (n : ℕ)
    (safe : (k : ℕ) → suc k ≤ n → (id : String) → Safe k (again id)) where
  rest_of : String → Option Body → Exec Loader String
  rest_of id o = do call_module again id o; modify (set_module true id); pure id

  called-Safe :
      (id : String) (s : Loader)
      → todo s ≤ n
      → is_installed id s ≡ false
      → (o : Option Body) → lookup id s.modules ≡ o
      → ((rest_of id o (set_module false id s)).0 ≢ throw out_of_fuel)
        × (todo (rest_of id o (set_module false id s)).1 ≤ n)
  unfolding rest_of call_module ◌>>=◌
  called-Safe id s le absent none found = ((λ e. cc), omega (arith, set_module-le false id s, le))
  called-Safe id s le absent (some body) found =
      let less = missing-lt s.modules id body s found absent in
      let k = n - 1 in
      let run = called_body-Safe again k (safe k (omega (arith, less, le))) id body in
      let t = begun id (set_module false id s) in
      let same = missing-le s.modules (set_module false id s) t (λ x i. i) in
      (
        run.ends t (omega (arith, less, le, same)),
        omega (arith, run.keeps t (omega (arith, less, le, same)), less, le),
      )

  require_once-Safe : (id : String) → Safe n (require_once again id)
  unfolding require_once rest_of ◌>>=◌
  require_once-Safe id = record {
    ends = λ s le. elim (Bool-cases (is_installed id s)) [
      | inl there ↦ rw there (λ e. cc)
      | inr absent ↦ rw absent ((called-Safe id s le absent (lookup id s.modules) refl).0)
    ];
    keeps = λ s le. elim (Bool-cases (is_installed id s)) [
      | inl there ↦ rw there le
      | inr absent ↦ rw absent ((called-Safe id s le absent (lookup id s.modules) refl).1)
    ];
  }

require-Safe : (fuel n : ℕ) (id : String) → suc n ≤ fuel → Safe n (require fuel id)
unfolding require
require-Safe zero n id lt = absurd (none_below lt)
  where
    none_below : suc n ≤ 0 → ⊥
    none_below l = omega (arith, l)
require-Safe (suc fuel) n id lt =
    require_once-Safe (require fuel) n
      (λ k le other. require-Safe fuel k other (omega (arith, lt, le))) id

module _ (fuel n : ℕ) (enough : suc n ≤ fuel) where
  check_from-Safe : (seen ds : List Deferred) → Safe n (check_from (require fuel) seen ds)
  unfolding check_from
  check_from-Safe seen [] = Safe-pure tt
  check_from-Safe seen (d ∷ ds) = Safe-bind _ _ (Safe-gets _) λ ready.
      Safe-if _ _ _
        (Safe-bind _ _
          (Safe-modify _ (λ s.
            missing-le s.modules s
              (record s { deferred = seen ++ ds; started = d.entry ∷ s.started }) (λ x i. i)))
          λ _. Safe-bind _ _ (require-Safe fuel n d.entry enough) λ _. check_from-Safe seen ds)
        (check_from-Safe (seen ++ d ∷ []) ds)

  check_deferred_modules-Safe : Safe n (check_deferred_modules (require fuel))
  unfolding check_deferred_modules
  check_deferred_modules-Safe = Safe-bind _ _ (Safe-gets _) λ ds. check_from-Safe [] ds

missing-length : (modules : Dict Body) (s : Loader) → missing modules s ≤ length modules
missing-length [] s = omega arith
missing-length ((id, body) ∷ modules) s = at_most (is_installed id s) (missing-length modules s)
  where
    at_most :
        (b : Bool)
        → missing modules s ≤ length modules
        → missing modules s + (if b then 0 else 1) ≤ suc (length modules)
    at_most true le = omega (arith, le)
    at_most false le = omega (arith, le)

-- With more fuel than there are modules once a push is installed, the callback of the push does not
-- run out of fuel, also where modules require each other in a circle.
pub webpack_jsonp_callback_ends :
    (fuel : ℕ) (taken_over : Bool) (p : Push) (s : Loader)
    → length (install taken_over p s).modules < fuel
    → (webpack_jsonp_callback (require fuel) taken_over p s).0 ≢ throw out_of_fuel
unfolding webpack_jsonp_callback ◌>>=◌ modify
webpack_jsonp_callback_ends fuel taken_over p s enough =
    let t = install taken_over p s in
    (check_deferred_modules-Safe fuel (length t.modules) (omega (arith, enough))).ends t
      (missing-length t.modules t)
