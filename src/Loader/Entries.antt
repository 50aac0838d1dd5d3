-- ===== src/Loader/Entries.antt =====
-- Which entries a push starts: those whose chunks are all there, each once and in their order; the
-- others wait.
pub mod Whole
use web_socketaa_s.Prelude.{
  ℕ, zero, suc, String, ◌≡◌, refl, sym, ap, ◌∙◌, Option, none, some, Bool, true, false, not, ◌||◌,
  List, [], ◌∷◌, ◌++◌, if◌then◌else◌, Exec, Result, ok, throw, pure, raise, gets, modify, ◌>>=◌,
  ◌>>◌, arith, keep, Bool-cases, inl, inr, append_nil, append_assoc, All,
}
use web_socketaa_s.Prelude.Effects
use std.Path.{subst}
use web_socketaa_s.Prelude.Effects.Keeps.{
  Keeps, keeps_rules, Keeps-modify, Keeps-gets_bind, Keeps-bind, Keeps-if,
}
use web_socketaa_s.Loader.{
  Loader, Body, Deferred, Push, is_installed, set_module, begun, run_requires, run_body,
  call_module, require_once, require, is_ready, check_from, check_deferred_modules, install,
  mark_loaded, webpack_jsonp_callback, after,
}

-- Two loaders have the same chunks, waiting entries and started entries.
pub record Like (t s : Loader) : Type 0 where
  pub chunks : s.installed_chunks ≡ t.installed_chunks
  pub waiting : s.deferred ≡ t.deferred
  pub begun : s.started ≡ t.started

module _ (t : Loader) (again : String → Exec Loader String)
    (keep : (id : String) → Keeps (Like t) (again id)) where
  run_requires-Like : (ids : List String) → Keeps (Like t) (run_requires again ids)
  unfolding run_requires
  run_requires-Like [] = search keeps_rules
  run_requires-Like (id ∷ ids) = Keeps-bind _ _ (keep id) λ _. run_requires-Like ids

  modify-Like : (f : Loader → Loader) → ((s : Loader) → Like s (f s)) → Keeps (Like t) (modify f)
  modify-Like f same = Keeps-modify _ λ s p. record {
    chunks = (same s).chunks ∙ p.chunks;
    waiting = (same s).waiting ∙ p.waiting;
    begun = (same s).begun ∙ p.begun;
  }

  call_module-Like : (id : String) (o : Option Body) → Keeps (Like t) (call_module again id o)
  unfolding call_module run_body
  call_module-Like id none = search keeps_rules
  call_module-Like id (some body) =
      Keeps-bind _ _
        (modify-Like (begun id) λ s. record { chunks = refl; waiting = refl; begun = refl })
        λ _. Keeps-bind _ _ (run_requires-Like body.requires) λ _. search keeps_rules

  set_module-Like : (b : Bool) (id : String) → Keeps (Like t) (modify (set_module b id))
  set_module-Like b id =
      modify-Like (set_module b id) λ s. record { chunks = refl; waiting = refl; begun = refl }

  require_once-Like : (id : String) → Keeps (Like t) (require_once again id)
  unfolding require_once
  require_once-Like id = search (keeps_rules, set_module-Like, call_module-Like) depth 14

require-Like : (t : Loader) (fuel : ℕ) (id : String) → Keeps (Like t) (require fuel id)
unfolding require
require-Like t zero id = search keeps_rules
require-Like t (suc fuel) id = require_once-Like t (require fuel) (require-Like t fuel) id

-- The entries, the latest first, once those that are ready were started in their order.
abbrev pub started_by : List ℕ → List Deferred → List String → List String
started_by chunks [] started = started
started_by chunks (d ∷ ds) started =
    started_by chunks ds (if is_ready chunks d then d.entry ∷ started else started)

abbrev pub blocked : List ℕ → List Deferred → List Deferred
blocked chunks ds = keep (λ d. not (is_ready chunks d)) ds

-- Returned, with the entries split by a set of chunks.
abbrev pub Split :
    List ℕ → List Deferred → List Deferred → List String → Result (Unit {0}) × Loader → Type 0
Split chunks seen ds started (throw e, s) = Unit
Split chunks seen ds started (ok a, s) =
    (s.deferred ≡ seen ++ blocked chunks ds) × (s.started ≡ started_by chunks ds started)

-- The state in which an entry starts.
abbrev starting : List Deferred → Deferred → List Deferred → Loader → Loader
starting seen d ds s = record s { deferred = seen ++ ds; started = d.entry ∷ s.started }

-- An entry that starts changes nothing of this but its own place.
passed :
    (chunks : List ℕ) (seen ds : List Deferred) (started : List String) (r : Result String × Loader)
    (rest : Loader → Result (Unit {0}) × Loader)
    → ((s : Loader)
        → s.installed_chunks ≡ chunks
        → s.deferred ≡ seen ++ ds
        → Split chunks seen ds s.started (rest s))
    → r.1.installed_chunks ≡ chunks
    → r.1.deferred ≡ seen ++ ds
    → r.1.started ≡ started
    → Split chunks seen ds started (Effects.continue (λ _. rest) r)
passed chunks seen ds started (throw e, s) rest next same waiting begun = tt
passed chunks seen ds started (ok a, s) rest next same waiting begun =
    subst (λ x. Split chunks seen ds x (rest s)) begun (next s same waiting)

-- The head of the list adds its part to the split of the tail.
start_one :
    (chunks : List ℕ) (seen : List Deferred) (d : Deferred) (ds : List Deferred)
    (started : List String) (r : Result (Unit {0}) × Loader)
    → Split chunks seen ds (d.entry ∷ started) r
    → is_ready chunks d ≡ true
    → Split chunks seen (d ∷ ds) started r
start_one chunks seen d ds started (throw e, t) split ready = tt
start_one chunks seen d ds started (ok a, t) split ready = rw ready split

pass_over :
    (chunks : List ℕ) (seen : List Deferred) (d : Deferred) (ds : List Deferred)
    (started : List String) (r : Result (Unit {0}) × Loader)
    → Split chunks (seen ++ d ∷ []) ds started r
    → is_ready chunks d ≡ false
    → Split chunks seen (d ∷ ds) started r
pass_over chunks seen d ds started (throw e, t) split later = tt
pass_over chunks seen d ds started (ok a, t) (waiting, begun) later =
    rw later (waiting ∙ append_assoc seen (d ∷ []) (blocked chunks ds), begun)

module _ (fuel : ℕ) (chunks : List ℕ) where
  check_from-Split :
      (seen ds : List Deferred) (s : Loader)
      → s.installed_chunks ≡ chunks
      → s.deferred ≡ seen ++ ds
      → Split chunks seen ds s.started (check_from (require fuel) seen ds s)
  unfolding check_from ◌>>=◌ modify
  check_from-Split seen [] s same waiting = (waiting, refl)
  check_from-Split seen (d ∷ ds) s same waiting =
      elim (Bool-cases (is_ready s.installed_chunks d)) [
        | inl ready ↦ rw ready (
            let t = starting seen d ds s in
            let like =
              (require-Like t fuel d.entry).at t
                (record { chunks = refl; waiting = refl; begun = refl }) in
            start_one chunks seen d ds s.started _
              (passed chunks seen ds (d.entry ∷ s.started) (require fuel d.entry t)
                (check_from (require fuel) seen ds) (check_from-Split seen ds) (like.chunks ∙ same)
                like.waiting like.begun)
              (ap (λ c. is_ready c d) (sym same) ∙ ready))
        | inr later ↦ rw later (
            pass_over chunks seen d ds s.started _
              (check_from-Split (seen ++ d ∷ []) ds s same
                (waiting ∙ sym (append_assoc seen (d ∷ []) ds)))
              (ap (λ c. is_ready c d) (sym same) ∙ later))
      ]

pub callback-Split :
    (fuel : ℕ) (p : Push) (s : Loader)
    → Split
        (mark_loaded p.chunk_ids s.installed_chunks)
        []
        (s.deferred ++ p.execute_modules)
        s.started
        (webpack_jsonp_callback (require fuel) true p s)
unfolding webpack_jsonp_callback check_deferred_modules install ◌>>=◌ modify gets
callback-Split fuel p s =
    check_from-Split fuel (mark_loaded p.chunk_ids s.installed_chunks) []
      (s.deferred ++ p.execute_modules) (install true p s) refl refl
