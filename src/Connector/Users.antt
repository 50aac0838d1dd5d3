-- ===== src/Connector/Users.antt =====
-- NetworkUserService.java: which handlers its maps hold, as a relation of users and socket ids.
pub mod Refines
pub mod Tests
use web_socketaa_s.Prelude.{
  ℕ, String, ◌≡◌, refl, Option, none, some, Bool, true, not, ◌&&◌, ◌||◌, List, [], ◌∷◌, ◌++◌, ℤ,
  arith, nat_eq, keep, find_first, find_first-holds, exists_in, if◌then◌else◌, Dict, lookup,
  lookup-insert, lookup-delete, ◌==◌, eq_iff,
}
use web_socketaa_s.Connector.{
  has_id, entry, without, put_or_remove, add_user, remove_user, get_user,
}

abbrev pub within : ℕ → List ℕ → Bool
within i = exists_in (nat_eq i)

-- Socket `i` is listed for the user.
unfoldable pub listed : Dict (List ℕ) → String → ℕ → Bool
listed m user_id i = within i (entry (lookup user_id m))

within-append : (i j : ℕ) (xs : List ℕ) → within i (xs ++ j ∷ []) ≡ (within i xs || nat_eq i j)
within-append i j [] = ground arith
within-append i j (x ∷ xs) = ground (arith, within-append i j xs)

within-keep :
    (n : Option ℤ) (i : ℕ) (xs : List ℕ)
    → within i (keep (λ j. not (has_id n j)) xs) ≡ (within i xs && not (has_id n i))
within-keep n i [] = refl
within-keep n i (x ∷ xs) = ground (arith, within-keep n i xs)

within-find_first :
    (n : Option ℤ) (i : ℕ) (xs : List ℕ) → find_first (has_id n) xs ≡ some i → within i xs ≡ true
within-find_first n i [] h = cc
within-find_first n i (x ∷ xs) h = ground (arith, within-find_first n i xs)

pub listed-add_user :
    (m : Dict (List ℕ)) (u v : String) (i j : ℕ)
    → listed (add_user m u i) v j ≡ (listed m v j || (u == v && nat_eq j i))
unfolding listed add_user
listed-add_user m u v i j =
    rw lookup-insert (ground (arith, eq_iff u v, within-append j i (entry (lookup u m))))

entry-put_or_remove :
    (m : Dict (List ℕ)) (u v : String) (xs : List ℕ)
    → entry (lookup v (put_or_remove m u xs)) ≡ (if u == v then xs else entry (lookup v m))
entry-put_or_remove m u v [] = rw lookup-delete (ground arith)
entry-put_or_remove m u v (x ∷ xs) = rw lookup-insert (ground arith)

listed-without :
    (m : Dict (List ℕ)) (u v : String) (n : Option ℤ) (j : ℕ) (found : Option (List ℕ))
    → lookup u m ≡ found
    → within j (entry (lookup v (without m u n found)))
      ≡ (within j (entry (lookup v m)) && not (u == v && has_id n j))
listed-without m u v n j none e = ground (arith, eq_iff u v)
listed-without m u v n j (some xs) e =
    rw (entry-put_or_remove m u v (keep (λ i. not (has_id n i)) xs))
      (ground (arith, eq_iff u v, within-keep n j xs))

pub listed-remove_user :
    (m : Dict (List ℕ)) (u v : String) (n : Option ℤ) (j : ℕ)
    → listed (remove_user m u n) v j ≡ (listed m v j && not (u == v && has_id n j))
unfolding listed remove_user
listed-remove_user m u v n j = listed-without m u v n j (lookup u m) refl

pub listed-get_user :
    (m : Dict (List ℕ)) (u : String) (n : Option ℤ) (i : ℕ)
    → get_user m u n ≡ some i
    → listed m u i ≡ true
unfolding listed get_user
listed-get_user m u n i h = within-find_first n i (entry (lookup u m)) h

-- The handler that `getUser` returns has the socket id that was asked for.
pub get_user-id :
    (m : Dict (List ℕ)) (u : String) (n : Option ℤ) (i : ℕ)
    → get_user m u n ≡ some i
    → has_id n i ≡ true
unfolding get_user
get_user-id m u n i h = find_first-holds (has_id n) (entry (lookup u m)) i h
