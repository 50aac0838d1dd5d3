-- ===== src/Connector/Users/Refines.antt =====
-- Each map of NetworkUserService.java is a relation between users and socket ids: a run of its static
-- operations does to what getUser returns what setting and clearing pairs does to the relation.
use mathlib.Core.Path.{fun_ext}
use web_socketaa_s.Prelude.{
  ℕ, String, ◌≡◌, refl, ap, ◌∙◌, none, some, Bool, not, ◌&&◌, ◌||◌, List, [], ◌∷◌, pos, nat_eq,
  nat_eq_iff, int_eq_iff, arith, if◌then◌else◌, Dict, find_first, ◌==◌, lookup,
}
use web_socketaa_s.Connector.{has_id, entry, add_user, remove_user, get_user}
use web_socketaa_s.Connector.Users.{within, listed, listed-add_user, listed-remove_user}

pub data Change : Type 0 where
  adds removes : String → ℕ → Change

unfoldable pub changed : Change → Dict (List ℕ) → Dict (List ℕ)
changed (adds user i) m = add_user m user i
changed (removes user i) m = remove_user m user (some (pos i))

unfoldable pub run : List Change → Dict (List ℕ) → Dict (List ℕ)
run [] m = m
run (c ∷ cs) m = run cs (changed c m)

-- The specification: which socket ids belong to which user.
abbrev pub Relation : Type 0
Relation = String → ℕ → Bool

abbrev pub related : Change → Relation → Relation
related (adds user i) r v j = r v j || (user == v && nat_eq j i)
related (removes user i) r v j = r v j && not (user == v && nat_eq j i)

unfoldable pub replay : List Change → Relation → Relation
replay [] r = r
replay (c ∷ cs) r = replay cs (related c r)

own_id : (i j : ℕ) → has_id (some (pos i)) j ≡ nat_eq j i
own_id i j = ground (arith, int_eq_iff (pos j) (pos i), nat_eq_iff j i)

listed-changed : (c : Change) (m : Dict (List ℕ)) → listed (changed c m) ≡ related c (listed m)
unfolding changed
listed-changed (adds user i) m = fun_ext λ v. fun_ext λ j. listed-add_user m user v i j
listed-changed (removes user i) m = fun_ext λ v. fun_ext λ j.
    listed-remove_user m user v (some (pos i)) j
    ∙ ap (λ b. listed m v j && not (user == v && b)) (own_id i j)

listed-run : (cs : List Change) (m : Dict (List ℕ)) → listed (run cs m) ≡ replay cs (listed m)
unfolding run replay
listed-run [] m = refl
listed-run (c ∷ cs) m = listed-run cs (changed c m) ∙ ap (replay cs) (listed-changed c m)

find_first-within :
    (i : ℕ) (xs : List ℕ)
    → find_first (has_id (some (pos i))) xs ≡ (if within i xs then some i else none)
find_first-within i [] = refl
find_first-within i (x ∷ xs) = ground (arith, find_first-within i xs, int_eq_iff (pos x) (pos i))

pub get_user-within :
    (m : Dict (List ℕ)) (user : String) (i : ℕ)
    → get_user m user (some (pos i)) ≡ (if listed m user i then some i else none)
unfolding get_user listed
get_user-within m user i = find_first-within i (entry (lookup user m))

-- After any additions and removals, getUser finds a socket id for a user exactly if the pair is there
-- after the same additions and removals of pairs in a relation.
pub get_user-run :
    (cs : List Change) (m : Dict (List ℕ)) (user : String) (i : ℕ)
    → get_user (run cs m) user (some (pos i))
      ≡ (if replay cs (listed m) user i then some i else none)
get_user-run cs m user i =
    get_user-within (run cs m) user i
    ∙ ap (λ (r : Relation). if r user i then some i else none) (listed-run cs m)
