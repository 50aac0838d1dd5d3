-- ===== src/Domains/Start/Mapped.antt =====
-- Collectors.toMap: different keys are mapped to their values.
use web_socketaa_s.Prelude.{
  String, ◌≡◌, refl, ◌∙◌, Option, none, some, Bool, true, false, List, [], ◌∷◌, if◌then◌else◌,
  Result, ok, Dict, lookup, insert, lookup-insert, ◌==◌, eq_iff, exists_in, find_first, arith,
  Bool-cases, inl, inr, All,
}
use web_socketaa_s.Domains.Start.{to_map}

module _ {A V : Type 0} (key : A → String) (value : A → V) where
  abbrev pub is_keyed : String → A → Bool
  is_keyed k a = key a == k

  -- No two of them have one key, and none has a key of the map.
  abbrev pub Fresh : List A → Dict V → Type 0
  Fresh [] d = Unit
  Fresh (a ∷ xs) d =
      (lookup (key a) d ≡ none) × (exists_in (is_keyed (key a)) xs ≡ false) × Fresh xs d

  abbrev pub first_or : Dict V → String → Option A → Option V
  first_or d k none = lookup k d
  first_or d k (some a) = some (value a)

  Fresh-insert :
      (a : A) (xs : List A) (d : Dict V)
      → exists_in (is_keyed (key a)) xs ≡ false
      → Fresh xs d
      → Fresh xs (insert (key a) (value a) d)
  Fresh-insert a [] d apart fresh = tt
  Fresh-insert a (b ∷ bs) d apart (new, distinct, fresh) = (
    lookup-insert (key a) (key b) (value a) d
        ∙ ground (arith, apart, new, eq_iff (key a) (key b), eq_iff (key b) (key a)),
    distinct,
    Fresh-insert a bs d (ground (arith, apart)) fresh,
  )

  no_second :
      (k : String) (a : A) (xs : List A)
      → exists_in (is_keyed (key a)) xs ≡ false
      → (key a == k) ≡ true
      → find_first (is_keyed k) xs ≡ none
  no_second k a [] apart same = refl
  no_second k a (x ∷ xs) apart same =
      ground
        (arith, apart, no_second k a xs, eq_iff (key a) k, eq_iff (key x) k, eq_iff (key x) (key a))

  put_first :
      (k : String) (a : A) (o : Option A) (d : Dict V)
      → ((key a == k) ≡ true → o ≡ none)
      → first_or (insert (key a) (value a) d) k o ≡ first_or d k (if key a == k then some a else o)
  put_first k a none d alone = elim (Bool-cases (key a == k)) [
    | inl same ↦ rw same (lookup-insert (key a) k (value a) d ∙ rw same refl)
    | inr apart ↦ rw apart (lookup-insert (key a) k (value a) d ∙ rw apart refl)
  ]
  put_first k a (some b) d alone = elim (Bool-cases (key a == k)) [
    | inl same ↦ cc (alone same)
    | inr apart ↦ rw apart refl
  ]

  pub record Mapped (xs : List A) (d : Dict V) (r : Result (Dict V)) : Type 0 where
    pub dict : Dict V
    pub returned : r ≡ ok dict
    pub holds : (k : String) → lookup k dict ≡ first_or d k (find_first (is_keyed k) xs)

  -- Each value that is asked for is made.
  abbrev pub Made : (A → Result V) → A → Type 0
  Made make a = make a ≡ ok (value a)

  pub to_map-Mapped :
      (make : A → Result V) (xs : List A) (d : Dict V)
      → All (Made make) xs
      → Fresh xs d
      → Mapped xs d (to_map key make xs d)
  unfolding to_map
  to_map-Mapped make [] d made fresh = record { dict = d; returned = refl; holds = λ k. refl }
  to_map-Mapped make (a ∷ xs) d (here, made) (new, distinct, fresh) =
      let m =
        to_map-Mapped make xs (insert (key a) (value a) d) made
          (Fresh-insert a xs d distinct fresh) in
      rw (here, new)
        (record {
          dict = m.dict;
          returned = m.returned;
          holds = λ k.
              m.holds k ∙ put_first k a (find_first (is_keyed k) xs) d (no_second k a xs distinct);
        })
