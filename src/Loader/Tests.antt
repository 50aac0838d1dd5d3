-- ===== src/Loader/Tests.antt =====
-- The scripts of the page, polyfills.9f71879072697819a090.js and main.98cb3bf5bd5bc6bde04c.js, as far
-- as the loader sees them; of main only its first module.
use web_socketaa_s.Prelude.{
  String, ◌≡◌, ◌≢◌, refl, true, false, List, [], ◌∷◌, throw, ok, out_of_fuel, lookup, insert, arith,
  ◌>>=◌,
}
use web_socketaa_s.Loader.{
  Body, Push, fresh, require, install, mark_loaded, webpack_jsonp_callback, after, start_up,
  check_deferred_modules, check_from, require_once, call_module, add_modules, run_body,
  run_requires,
}
use web_socketaa_s.Loader.Once.{Sound, after-Sound}
use web_socketaa_s.Loader.Fuel.Ends.{webpack_jsonp_callback_ends}
use web_socketaa_s.Loader.Entries.Whole.{Whole, of_entries, webpack_jsonp_callback-started}

abbrev requiring : List String → Body
requiring ids = record { requires = ids; throws = false }

abbrev polyfills : Push
polyfills = record {
  chunk_ids = 2 ∷ [];
  more_modules =
      ("0TWp", requiring [])
      ∷ ("1", requiring ("hN/g" ∷ []))
      ∷ ("dasq", requiring [])
      ∷ ("hN/g", requiring ("0TWp" ∷ "dasq" ∷ []))
      ∷ [];
  execute_modules = record { entry = "1"; needed = 0 ∷ [] } ∷ [];
}

abbrev main : Push
main = record {
  chunk_ids = 1 ∷ [];
  more_modules = ("0", requiring ("zUnb" ∷ [])) ∷ ("zUnb", requiring []) ∷ [];
  execute_modules = record { entry = "0"; needed = 0 ∷ [] } ∷ [];
}

fresh-Sound : Sound fresh
fresh-Sound = record { distinct = tt; cached = λ id h. cc h }

after-Sound_example : Sound (after 9 fresh (polyfills ∷ main ∷ polyfills ∷ []))
after-Sound_example = after-Sound 9 fresh (polyfills ∷ main ∷ polyfills ∷ []) fresh-Sound

webpack_jsonp_callback_ends_example :
    (webpack_jsonp_callback (require 9) true polyfills fresh).0 ≢ throw out_of_fuel
unfolding install add_modules insert
webpack_jsonp_callback_ends_example =
    webpack_jsonp_callback_ends 9 true polyfills fresh (omega arith)

-- An entry waits for chunk 3, the other does not; their modules require each other.
abbrev early : Push
early = record {
  chunk_ids = 1 ∷ [];
  more_modules = ("a", requiring ("b" ∷ [])) ∷ ("b", requiring ("a" ∷ [])) ∷ [];
  execute_modules =
      record { entry = "a"; needed = 0 ∷ 3 ∷ [] } ∷ record { entry = "b"; needed = 1 ∷ [] } ∷ [];
}

abbrev late : Push
late = record { chunk_ids = 3 ∷ []; more_modules = []; execute_modules = [] }

ran_once :
    (after 9 fresh (polyfills ∷ main ∷ polyfills ∷ [])).executed
    ≡ "zUnb" ∷ "0" ∷ "dasq" ∷ "0TWp" ∷ "hN/g" ∷ "1" ∷ []
unfolding after mark_loaded webpack_jsonp_callback ◌>>=◌ check_deferred_modules check_from
    require_once lookup call_module add_modules insert run_body run_requires install require
ran_once = refl

-- the runtime may be the last script to arrive
taken_over_late : (start_up (require 9) (main ∷ polyfills ∷ []) fresh).1.started ≡ "1" ∷ "0" ∷ []
unfolding start_up mark_loaded webpack_jsonp_callback ◌>>=◌ check_deferred_modules check_from
    require_once lookup call_module add_modules insert run_body run_requires install require
taken_over_late = refl

waited : (after 9 fresh (early ∷ late ∷ [])).started ≡ "a" ∷ "b" ∷ []
unfolding after mark_loaded webpack_jsonp_callback ◌>>=◌ check_deferred_modules check_from
    require_once lookup call_module add_modules insert run_body run_requires install require
waited = refl

early-Whole : Whole (install true early fresh).modules
unfolding install add_modules insert lookup
early-Whole =
    of_entries (("a", requiring ("b" ∷ [])) ∷ ("b", requiring ("a" ∷ [])) ∷ [])
      ((refl, (refl, tt)), ((refl, (refl, tt)), tt))

webpack_jsonp_callback-started_example :
    (let r = webpack_jsonp_callback (require 3) true early fresh in
      (r.0 ≡ ok tt)
      × (r.1.deferred ≡ record { entry = "a"; needed = 0 ∷ 3 ∷ [] } ∷ [])
      × (r.1.started ≡ "b" ∷ []))
unfolding install add_modules insert lookup mark_loaded
webpack_jsonp_callback-started_example =
    webpack_jsonp_callback-started 3 early fresh early-Whole (refl, (refl, tt)) (omega arith)
