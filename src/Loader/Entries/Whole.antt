-- ===== src/Loader/Entries/Whole.antt =====
-- A push of scripts that are whole, that is, whose modules are all there and do not throw, returns.
use web_socketaa_s.Prelude.{
  ℕ, zero, suc, ◌<◌, String, ◌≡◌, ◌≢◌, refl, sym, ap, ◌∙◌, Option, none, some, Bool, true, false,
  List, [], ◌∷◌, ◌++◌, if◌then◌else◌, length, Exec, Result, ok, throw, Exception, pure, raise, gets,
  modify, ◌>>=◌, ◌>>◌, arith, lookup, Dict, ◌==◌, All, out_of_fuel,
}
use web_socketaa_s.Prelude.Effects
use std.Path.{subst}
use web_socketaa_s.Loader.{
  Loader, Body, Deferred, Push, is_there, set_module, begun, run_requires, run_body, call_module,
  require_once, require, check_from, check_deferred_modules, install, mark_loaded,
  webpack_jsonp_callback,
}
use web_socketaa_s.Loader.Fuel.Ends.{webpack_jsonp_callback_ends}
use web_socketaa_s.Loader.Entries.{Split, callback-Split, started_by, blocked}

abbrev pub is_known : Dict Body → String → Bool
is_known modules id = is_there (lookup id modules)

-- Every body requires modules that are there, and does not throw.
pub record Whole (modules : Dict Body) : Type 0 where
  pub returns : (id : String) (body : Body) → lookup id modules ≡ some body → body.throws ≡ false
  pub requires :
      (id : String) (body : Body)
      → lookup id modules ≡ some body
      → All (λ other. is_known modules other ≡ true) body.requires

-- What holds of each binding holds of what is looked up.
lookup-All :
    (P : Body → Type 0) (d : Dict Body) (id : String) (body : Body)
    → All (λ (binding : String × Body). P binding.1) d
    → lookup id d ≡ some body
    → P body
unfolding lookup
lookup-All P [] id body all found = cc
lookup-All P ((key, b) ∷ d) id body (here, all) found =
    chosen (key == id) (lookup-All P d id body all) found
  where
    chosen :
        (same : Bool)
        → (lookup id d ≡ some body → P body)
        → (if same then some b else lookup id d) ≡ some body
        → P body
    chosen true later e = subst P (cc e) here
    chosen false later e = later e

pub of_entries :
    (d : Dict Body)
    → All
        (λ (binding : String × Body).
          (binding.1.throws ≡ false) × All (λ other. is_known d other ≡ true) binding.1.requires)
        d
    → Whole d
of_entries d all = record {
  returns = λ id body found. (lookup-All _ d id body all found).0;
  requires = λ id body found. (lookup-All _ d id body all found).1;
}

-- With these modules, the task throws nothing of its own.
record Clean {A : Type 0} (modules : Dict Body) (task : Exec Loader A) : Type 0 where
  fails :
      (s : Loader) (e : Exception) → s.modules ≡ modules → (task s).0 ≡ throw e → e ≡ out_of_fuel
  keeps : (s : Loader) → s.modules ≡ modules → (task s).1.modules ≡ modules

module _ {modules : Dict Body} where
  Clean-pure : {A : Type 0} (a : A) → Clean modules (pure a)
  unfolding pure
  Clean-pure a = record { fails = λ s e same r. cc; keeps = λ s same. same }

  Clean-gets : {A : Type 0} (f : Loader → A) → Clean modules (gets f)
  unfolding gets
  Clean-gets f = record { fails = λ s e same r. cc; keeps = λ s same. same }

  Clean-modify :
      (f : Loader → Loader) → ((s : Loader) → (f s).modules ≡ s.modules) → Clean modules (modify f)
  unfolding modify
  Clean-modify f stays = record { fails = λ s e same r. cc; keeps = λ s same. stays s ∙ same }

  Clean-if :
      {A : Type 0} (b : Bool) (m k : Exec Loader A)
      → Clean modules m
      → Clean modules k
      → Clean modules (if b then m else k)
  Clean-if true m k cm ck = cm
  Clean-if false m k cm ck = ck

  continue-Clean :
      {A B : Type 0} (f : A → Exec Loader B) (r : Result A) (s : Loader)
      → ((a : A) → Clean modules (f a))
      → ((e : Exception) → r ≡ throw e → e ≡ out_of_fuel)
      → s.modules ≡ modules
      → ((e : Exception) → (Effects.continue f (r, s)).0 ≡ throw e → e ≡ out_of_fuel)
        × ((Effects.continue f (r, s)).1.modules ≡ modules)
  continue-Clean f (ok a) s k fails same = ((λ e h. (k a).fails s e same h), (k a).keeps s same)
  continue-Clean f (throw e) s k fails same = ((λ x h. fails x (ground arith)), same)

  Clean-bind :
      {A B : Type 0} (m : Exec Loader A) (f : A → Exec Loader B)
      → Clean modules m
      → ((a : A) → Clean modules (f a))
      → Clean modules (m >>= f)
  unfolding ◌>>=◌
  Clean-bind m f cm k = record {
    fails = λ s e same h.
        let (r, t) = m s in
        (continue-Clean f r t k (λ x. cm.fails s x same) (cm.keeps s same)).0 e h;
    keeps = λ s same.
        let (r, t) = m s in (continue-Clean f r t k (λ x. cm.fails s x same) (cm.keeps s same)).1;
  }

module _ (modules : Dict Body) (whole : Whole modules) (again : String → Exec Loader String)
    (clean : (id : String) → is_known modules id ≡ true → Clean modules (again id)) where
  run_requires-Clean :
      (ids : List String)
      → All (λ id. is_known modules id ≡ true) ids
      → Clean modules (run_requires again ids)
  unfolding run_requires
  run_requires-Clean [] known = Clean-pure tt
  run_requires-Clean (id ∷ ids) (here, known) =
      Clean-bind _ _ (clean id here) λ _. run_requires-Clean ids known

  run_body-Clean :
      (id : String) (body : Body)
      → lookup id modules ≡ some body
      → Clean modules (run_body again body)
  unfolding run_body
  run_body-Clean id body found =
      Clean-bind _ _ (run_requires-Clean body.requires (whole.requires id body found))
        λ _. rw (whole.returns id body found) (Clean-pure tt)

  call_module-Clean :
      (id : String) (o : Option Body)
      → lookup id modules ≡ o
      → is_there o ≡ true
      → Clean modules (do call_module again id o; modify (set_module true id); pure id)
  unfolding call_module
  call_module-Clean id none found there = absurd (cc there)
  call_module-Clean id (some body) found there =
      Clean-bind _ _ (Clean-bind _ _ (Clean-modify _ λ s. refl) λ _. run_body-Clean id body found)
        λ _. Clean-bind _ _ (Clean-modify _ λ s. refl) λ _. Clean-pure id

  run_found :
      (id : String)
      → is_known modules id ≡ true
      → Clean modules (do
        body ← gets (λ s. lookup id s.modules)
        call_module again id body
        modify (set_module true id)
        pure id)
  unfolding ◌>>=◌ gets
  run_found id known = record {
    fails = λ s e same. (call_found s same).fails s e same;
    keeps = λ s same. (call_found s same).keeps s same;
  }
    where
      call_found :
          (s : Loader)
          → s.modules ≡ modules
          → Clean modules
              (do call_module again id (lookup id s.modules); modify (set_module true id); pure id)
      call_found s same =
          call_module-Clean id (lookup id s.modules) (ap (lookup id) (sym same))
            (ap (λ m. is_known m id) same ∙ known)

  require_once-Clean :
      (id : String) → is_known modules id ≡ true → Clean modules (require_once again id)
  unfolding require_once
  require_once-Clean id known = Clean-bind _ _ (Clean-gets _) λ there.
      Clean-if _ _ _ (Clean-pure id)
        (Clean-bind _ _ (Clean-modify _ λ s. refl) λ _. run_found id known)

module _ (modules : Dict Body) (whole : Whole modules) where
  require-Clean :
      (fuel : ℕ) (id : String) → is_known modules id ≡ true → Clean modules (require fuel id)
  unfolding require raise
  require-Clean zero id known = record {
    fails = λ s e same h. ground arith;
    keeps = λ s same. same;
  }
  require-Clean (suc fuel) id known =
      require_once-Clean modules whole (require fuel) (require-Clean fuel) id known

  check_from-Clean :
      (fuel : ℕ) (seen ds : List Deferred)
      → All (λ d. is_known modules d.entry ≡ true) ds
      → Clean modules (check_from (require fuel) seen ds)
  unfolding check_from
  check_from-Clean fuel seen [] known = Clean-pure tt
  check_from-Clean fuel seen (d ∷ ds) (here, known) = Clean-bind _ _ (Clean-gets _) λ ready.
      Clean-if _ _ _
        (Clean-bind _ _ (Clean-modify _ λ s. refl) λ _.
          Clean-bind _ _ (require-Clean fuel d.entry here) λ _. check_from-Clean fuel seen ds known)
        (check_from-Clean fuel (seen ++ d ∷ []) ds known)

both :
    (chunks : List ℕ) (ds : List Deferred) (started : List String) (r : Result (Unit {0}) × Loader)
    → r.0 ≢ throw out_of_fuel
    → ((e : Exception) → r.0 ≡ throw e → e ≡ out_of_fuel)
    → Split chunks [] ds started r
    → (r.0 ≡ ok tt)
      × (r.1.deferred ≡ blocked chunks ds)
      × (r.1.started ≡ started_by chunks ds started)
both chunks ds started (throw e, s) ends fails split = absurd (ends (ap throw (fails e refl)))
both chunks ds started (ok a, s) ends fails (waiting, begun) = (refl, waiting, begun)

-- Let the modules that are there once a push is installed be whole: no body throws, and every module
-- that a body requires is there, as are those of the entries. With more fuel than there are modules,
-- the callback of the push returns. Of the entries that waited and those that the push brought, in
-- this order, the ones whose chunks are all loaded by then were started, in their order, and exactly
-- the others wait, in their order.
pub webpack_jsonp_callback-started :
    (fuel : ℕ) (p : Push) (s : Loader)
    → Whole (install true p s).modules
    → All
        (λ d. is_known (install true p s).modules d.entry ≡ true)
        (s.deferred ++ p.execute_modules)
    → length (install true p s).modules < fuel
    → (let r = webpack_jsonp_callback (require fuel) true p s in
        let chunks = mark_loaded p.chunk_ids s.installed_chunks in
        let ds = s.deferred ++ p.execute_modules in
        (r.0 ≡ ok tt)
        × (r.1.deferred ≡ blocked chunks ds)
        × (r.1.started ≡ started_by chunks ds s.started))
unfolding webpack_jsonp_callback check_deferred_modules ◌>>=◌ modify gets install
webpack_jsonp_callback-started fuel p s whole known enough =
    let t = install true p s in
    both (mark_loaded p.chunk_ids s.installed_chunks) (s.deferred ++ p.execute_modules) s.started
      (webpack_jsonp_callback (require fuel) true p s)
      (webpack_jsonp_callback_ends fuel true p s enough)
      (λ e h. (check_from-Clean t.modules whole fuel [] t.deferred known).fails t e refl h)
      (callback-Split fuel p s)
