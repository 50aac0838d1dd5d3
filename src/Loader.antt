-- ===== src/Loader.antt =====
-- The loader of the test page, test-script/scripts/runtime.ec2944dd8b20ec099bf3.js: scripts push
-- chunks of modules, in whatever order they arrive, and an entry module starts once all the chunks
-- that it needs are there. A module of the page is a body that requires other modules one after
-- the other and may throw; what it exports is its own affair, so `exports` is its id.
pub mod Once
pub mod Fuel
pub mod Entries
pub mod Tests
use web_socketaa_s.Prelude.{
  ℕ, zero, suc, String, Option, none, some, Bool, true, false, not, ◌&&◌, List, [], ◌∷◌, ◌++◌,
  if◌then◌else◌, nat_eq, exists_in, Exec, Result, ok, throw, pure, raise, gets, modify, ◌>>=◌, ◌>>◌,
  Dict, lookup, insert, null_pointer, illegal_state, out_of_fuel,
}

-- The ids of the modules that a body requires, in order, and whether it throws after them.
pub record Body : Type 0 where
  pub requires : List String
  pub throws : Bool

-- An entry of `deferredModules`: the module, and the chunks that it needs.
pub record Deferred : Type 0 where
  pub entry : String
  pub needed : List ℕ

-- What a script pushes: the ids of its chunks, its modules and its entries.
pub record Push : Type 0 where
  pub chunk_ids : List ℕ
  pub more_modules : List (String × Body)
  pub execute_modules : List Deferred

-- An element of the module cache: `l` of the source.
pub record Module : Type 0 where
  pub loaded : Bool

-- The variables of the loader: `e` (modules), `n` (installed_modules), `o` (the chunks whose value
-- is 0; no code of the page sets another), `u` (deferred), `f.s` and the array `webpackJsonp`.
-- `executed` and `started` record, the latest first, the bodies that were begun and the entries.
pub record Loader : Type 0 where
  pub modules : Dict Body
  pub installed_modules : Dict Module
  pub installed_chunks : List ℕ
  pub deferred : List Deferred
  pub pushed : List Push
  pub executed : List String
  pub started : List String

abbrev pub fresh : Loader
fresh = record {
  modules = [];
  installed_modules = [];
  installed_chunks = 0 ∷ [];
  deferred = [];
  pushed = [];
  executed = [];
  started = [];
}

abbrev pub is_there : {A : Type 0} → Option A → Bool
is_there none = false
is_there (some a) = true

abbrev pub is_installed : String → Loader → Bool
is_installed id s = is_there (lookup id s.installed_modules)

-- `n[r] = {i: r, l: false, exports: {}}`, and `t.l = true`
abbrev pub set_module : Bool → String → Loader → Loader
set_module loaded id s = record s {
  installed_modules = insert id (record { loaded = loaded }) s.installed_modules;
}

abbrev pub begun : String → Loader → Loader
begun id s = record s { executed = id ∷ s.executed }

-- the body of a module, where `again` requires a module
unfoldable pub run_requires : (String → Exec Loader String) → List String → Exec Loader (Unit {0})
run_requires again [] = pure tt
run_requires again (id ∷ ids) = do again id; run_requires again ids

unfoldable pub run_body : (String → Exec Loader String) → Body → Exec Loader (Unit {0})
run_body again body = do
  run_requires again body.requires
  if body.throws then raise illegal_state else pure tt

-- `e[r].call(…)`; a module that is not there is a TypeError
unfoldable pub call_module :
    (String → Exec Loader String) → String → Option Body → Exec Loader (Unit {0})
call_module again id none = raise null_pointer
call_module again id (some body) = do modify (begun id); run_body again body

-- `f`, whose own calls are `again`
unfoldable pub require_once : (String → Exec Loader String) → String → Exec Loader String
require_once again id = do
  there ← gets (is_installed id)
  if there then pure id else do
    modify (set_module false id)
    body ← gets (λ s. lookup id s.modules)
    call_module again id body
    modify (set_module true id)
    pure id

unfoldable pub require : ℕ → String → Exec Loader String
require zero id = raise out_of_fuel
require (suc fuel) id = require_once (require fuel) id

abbrev pub is_loaded : ℕ → List ℕ → Bool
is_loaded c chunks = exists_in (nat_eq c) chunks

abbrev pub is_ready : List ℕ → Deferred → Bool
is_ready chunks d = not (exists_in (λ c. not (is_loaded c chunks)) d.needed)

-- the loop of `t` over `u`: `seen` is what it has passed, the rest is still ahead
unfoldable pub check_from :
    (String → Exec Loader String) → List Deferred → List Deferred → Exec Loader (Unit {0})
check_from again seen [] = pure tt
check_from again seen (d ∷ ds) = do
  ready ← gets (λ s. is_ready s.installed_chunks d)
  if ready
      then (do
        modify (λ s. record s { deferred = seen ++ ds; started = d.entry ∷ s.started })
        again d.entry
        check_from again seen ds)
      else check_from again (seen ++ d ∷ []) ds

-- `t`
unfoldable pub check_deferred_modules : (String → Exec Loader String) → Exec Loader (Unit {0})
check_deferred_modules again = do ds ← gets (λ s. s.deferred); check_from again [] ds

-- `o[f] = 0` for each chunk
unfoldable pub mark_loaded : List ℕ → List ℕ → List ℕ
mark_loaded [] chunks = chunks
mark_loaded (c ∷ cs) chunks = mark_loaded cs (if is_loaded c chunks then chunks else c ∷ chunks)

-- `e[n] = l[n]` for each module
unfoldable pub add_modules : List (String × Body) → Dict Body → Dict Body
add_modules [] modules = modules
add_modules ((id, body) ∷ rest) modules = add_modules rest (insert id body modules)

-- the assignments of `r`, up to `u.push.apply(u, a || [])`. The array gets the push only once the
-- loader has taken it over.
unfoldable pub install : Bool → Push → Loader → Loader
install taken_over p s = record s {
  installed_chunks = mark_loaded p.chunk_ids s.installed_chunks;
  modules = add_modules p.more_modules s.modules;
  pushed = if taken_over then s.pushed ++ p ∷ [] else s.pushed;
  deferred = s.deferred ++ p.execute_modules;
}

-- `r`, webpackJsonpCallback
unfoldable pub webpack_jsonp_callback :
    (String → Exec Loader String) → Bool → Push → Exec Loader (Unit {0})
webpack_jsonp_callback again taken_over p = do
  modify (install taken_over p)
  check_deferred_modules again

-- the last statements: what was pushed before the loader ran is installed first; then `t()`
unfoldable pub start_up : (String → Exec Loader String) → List Push → Exec Loader (Unit {0})
start_up again [] = check_deferred_modules again
start_up again (p ∷ ps) = do webpack_jsonp_callback again false p; start_up again ps

-- The loader after some scripts have pushed. An exception ends its script.
unfoldable pub after : ℕ → Loader → List Push → Loader
after fuel s [] = s
after fuel s (p ∷ ps) = after fuel (webpack_jsonp_callback (require fuel) true p s).1 ps
