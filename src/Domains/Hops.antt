-- ===== src/Domains/Hops.antt =====
-- A message that every domain passes on to its next domain reaches the domain that it is for.
use web_socketaa_s.Prelude.{
  ℕ, zero, suc, ◌≤◌, String, ◌≡◌, refl, sym, ap, ◌∙◌, Option, none, some, Bool, true, List, [], ◌∷◌,
  Result, ok, length, arith,
}
use web_socketaa_s.Domains.{Paths, get_next_domain_name, compute_path, second_or_only}

-- A walk from a domain to a domain along the links, as the list of its domains.
abbrev pub Walk : (String → String → Bool) → String → String → List String → Type 0
Walk linked from to [] = ⊥
Walk linked from to (x ∷ []) = (x ≡ from) × (x ≡ to)
Walk linked from to (x ∷ y ∷ names) =
    (x ≡ from) × (linked x y ≡ true) × Walk linked y to (y ∷ names)

-- What JGraphT documents of the shortest paths: each is a walk, there is one where there is a walk,
-- and no walk is shorter.
pub record IsShortest (linked : String → String → Bool) (paths : String → Paths) : Type 0 where
  pub walks :
      (from to : String) (names : List String)
      → paths from to ≡ some names
      → Walk linked from to names
  pub found :
      (from to : String) (names : List String)
      → Walk linked from to names
      → (best : List String) × (paths from to ≡ some best) × (length best ≤ length names)

abbrev onward : (String → Option String) → Result (Option String) → Option String
onward go (ok (some next)) = go next
onward go _ = none

-- Where a message for `to` is after some hops from a domain: each domain asks its own paths.
unfoldable pub hops : (String → Paths) → ℕ → String → String → Option String
hops paths zero from to = some from
hops paths (suc n) from to =
    onward (λ next. hops paths n next to) (get_next_domain_name (some (paths from)) to)

module _ (linked : String → String → Bool) (paths : String → Paths)
    (s : IsShortest linked paths) where
  hop_lem :
      (n : ℕ) (from to : String) (names : List String)
      → paths from to ≡ some names
      → hops paths (suc n) from to
        ≡ onward (λ next. hops paths n next to) (ok (second_or_only names))
  unfolding hops get_next_domain_name compute_path
  hop_lem n from to names found = rw found refl

  step :
      (n : ℕ)
      → ((from to : String) (names : List String)
          → Walk linked from to names
          → length names ≤ suc n
          → hops paths n from to ≡ some to)
      → (from to : String) (names : List String) → paths from to ≡ some names
      → Walk linked from to names
      → length names ≤ suc (suc n)
      → hops paths (suc n) from to ≡ some to
  unfolding second_or_only
  step n again from to [] found walk few = absurd walk
  step n again from to (x ∷ []) found walk few =
      hop_lem n from to (x ∷ []) found ∙ again x to (x ∷ []) (refl, walk.1) (omega arith)
  step n again from to (x ∷ y ∷ names) found walk few =
      hop_lem n from to (x ∷ y ∷ names) found ∙ again y to (y ∷ names) (walk.2) (omega (arith, few))

  too_long : (m : ℕ) → suc (suc m) ≤ 1 → ⊥
  too_long m few = omega (arith, few)

  arrives_within :
      (n : ℕ) (from to : String) (names : List String)
      → Walk linked from to names
      → length names ≤ suc n
      → hops paths n from to ≡ some to
  unfolding hops
  arrives_within zero from to [] walk few = absurd walk
  arrives_within zero from to (x ∷ []) walk few = ap some (sym (walk.0) ∙ walk.1)
  arrives_within zero from to (x ∷ y ∷ names) walk few = absurd (too_long (length names) few)
  arrives_within (suc n) from to names walk few =
      let (best, found, shorter) = s.found from to names walk in
      step n (arrives_within n) from to best found (s.walks from to best found)
        (omega (arith, few, shorter))

  -- Where the paths of every domain are shortest, and there is a walk to a domain, a message that
  -- each domain passes on to its next domain is there after as many hops as the walk has domains.
  pub hops-Walk :
      (from to : String) (names : List String)
      → Walk linked from to names
      → hops paths (length names) from to ≡ some to
  hops-Walk from to names walk = arrives_within (length names) from to names walk (omega arith)
