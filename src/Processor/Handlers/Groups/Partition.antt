-- ===== src/Processor/Handlers/Groups/Partition.antt =====
-- CustomGroupMessageProcessor.doProcess splits the receivers by their domains.
use web_socketaa_s.Prelude.{
  String, ◌≡◌, refl, ◌∙◌, Option, Bool, true, false, ◌&&◌, ◌||◌, List, [], ◌∷◌, ◌++◌, if◌then◌else◌,
  exists_in, ◌==◌, eq_iff, arith, Bool-cases, inl, inr,
}
use web_socketaa_s.Text.{equals}
use web_socketaa_s.Model.{equals_iff}
use web_socketaa_s.Processor.Handlers.Groups.{Groups, put, add_to_group, same_user, group_by_domain}

-- The user stands in the group of the key.
abbrev pub is_in_group : Option String → String → Groups String → Bool
is_in_group k user [] = false
is_in_group k user ((j, users) ∷ groups) =
    if equals j k then exists_in (same_user user) users else is_in_group k user groups

-- Some group has the key.
abbrev pub has_key : Option String → Groups String → Bool
has_key k groups = exists_in (λ g. equals g.0 k) groups

-- No user twice in a list.
abbrev pub Distinct : List String → Type 0
Distinct [] = Unit
Distinct (user ∷ users) = (exists_in (same_user user) users ≡ false) × Distinct users

-- No key twice, no empty group, and no user twice in a group.
abbrev pub IsTidy : Groups String → Type 0
IsTidy [] = Unit
IsTidy ((k, []) ∷ groups) = ⊥
IsTidy ((k, user ∷ users) ∷ groups) =
    (has_key k groups ≡ false) × Distinct (user ∷ users) × IsTidy groups

exists_in-append :
    (user other : String) (users : List String)
    → exists_in (same_user user) (users ++ other ∷ [])
      ≡ (exists_in (same_user user) users || (user == other))
exists_in-append user other [] = ground arith
exists_in-append user other (u ∷ users) = ground (arith, exists_in-append user other users)

present :
    (user other : String) (users : List String)
    → exists_in (same_user other) users ≡ true
    → exists_in (same_user user) users ≡ (exists_in (same_user user) users || (user == other))
present user other users there = elim (Bool-cases (user == other)) [
  | inl same ↦ rw same (rw ((eq_iff user other).0 same) (rw there refl))
  | inr apart ↦ rw apart (ground arith)
]

exists_in-put :
    (user other : String) (users : List String)
    → exists_in (same_user user) (put same_user other users)
      ≡ (exists_in (same_user user) users || (user == other))
exists_in-put user other users = elim (Bool-cases (exists_in (same_user other) users)) [
  | inl there ↦ rw there (present user other users there)
  | inr absent ↦ rw absent (exists_in-append user other users)
]

is_in_group-add_to_group :
    (k j : Option String) (user other : String) (groups : Groups String)
    → is_in_group k user (add_to_group same_user j other groups)
      ≡ (is_in_group k user groups || (equals j k && (user == other)))
unfolding add_to_group
is_in_group-add_to_group k j user other [] = ground arith
is_in_group-add_to_group k j user other ((i, users) ∷ groups) = ground (
  arith,
  is_in_group-add_to_group k j user other groups,
  exists_in-put user other users,
  equals_iff i j,
  equals_iff i k,
  equals_iff j k,
)

Distinct-append :
    (other : String) (users : List String)
    → exists_in (same_user other) users ≡ false
    → Distinct users
    → Distinct (users ++ other ∷ [])
Distinct-append other [] absent d = (refl, tt)
Distinct-append other (u ∷ users) absent (new, d) = (
  exists_in-append u other users ∙ ground (arith, new, absent, eq_iff u other, eq_iff other u),
  Distinct-append other users (ground (arith, absent)) d,
)

Distinct-put :
    (other : String) (users : List String) → Distinct users → Distinct (put same_user other users)
Distinct-put other users d = elim (Bool-cases (exists_in (same_user other) users)) [
  | inl there ↦ rw there d
  | inr absent ↦ rw absent (Distinct-append other users absent d)
]

has_key-add_to_group :
    (k j : Option String) (other : String) (groups : Groups String)
    → has_key k (add_to_group same_user j other groups) ≡ (has_key k groups || equals j k)
unfolding add_to_group
has_key-add_to_group k j other [] = ground arith
has_key-add_to_group k j other ((i, users) ∷ groups) =
    ground
      (arith, has_key-add_to_group k j other groups, equals_iff i j, equals_iff i k, equals_iff j k)

-- A group stays tidy when a user is put into it.
put-IsTidy :
    (k : Option String) (user other : String) (users : List String) (groups : Groups String)
    → IsTidy ((k, user ∷ users) ∷ groups)
    → IsTidy ((k, put same_user other (user ∷ users)) ∷ groups)
put-IsTidy k user other users groups (new, d, tidy) =
    elim (Bool-cases (exists_in (same_user other) (user ∷ users))) [
      | inl there ↦ rw there (new, d, tidy)
      | inr absent ↦ rw absent (new, Distinct-append other (user ∷ users) absent d, tidy)
    ]

add_to_group-IsTidy :
    (j : Option String) (other : String) (groups : Groups String)
    → IsTidy groups
    → IsTidy (add_to_group same_user j other groups)
unfolding add_to_group
add_to_group-IsTidy j other [] tidy = (refl, (refl, tt), tt)
add_to_group-IsTidy j other ((i, []) ∷ groups) tidy = absurd tidy
add_to_group-IsTidy j other ((i, user ∷ users) ∷ groups) (new, d, tidy) =
    let rest = add_to_group-IsTidy j other groups tidy in
    elim (Bool-cases (equals i j)) [
      | inl same ↦ rw same (put-IsTidy i user other users groups (new, d, tidy))
      | inr apart ↦ rw apart (
        has_key-add_to_group i j other groups
            ∙ ground (arith, new, apart, equals_iff i j, equals_iff j i),
        d,
        rest,
      )
    ]

module _ (domain : String → Option String) where
  one_more :
      (k : Option String) (user u : String) (g a : Bool)
      → ((g || (equals (domain u) k && (user == u))) || (a && equals (domain user) k))
        ≡ (g || ((user == u) || a) && equals (domain user) k)
  one_more k user u g a = elim (Bool-cases (user == u)) [
    | inl same ↦ rw ((eq_iff user u).0 same) (ground (arith, eq_iff u u))
    | inr apart ↦ rw apart (ground arith)
  ]

  in_group-from :
      (k : Option String) (user : String) (users : List String) (groups : Groups String)
      → is_in_group k user (group_by_domain domain users groups) ≡ (
          is_in_group k user groups || (exists_in (same_user user) users && equals (domain user) k))
  unfolding group_by_domain
  in_group-from k user [] groups = ground arith
  in_group-from k user (u ∷ users) groups =
      in_group-from k user users (add_to_group same_user (domain u) u groups)
      ∙ rw (is_in_group-add_to_group k (domain u) user u groups)
          (one_more k user u (is_in_group k user groups) (exists_in (same_user user) users))

  IsTidy-from :
      (users : List String) (groups : Groups String)
      → IsTidy groups
      → IsTidy (group_by_domain domain users groups)
  unfolding group_by_domain
  IsTidy-from [] groups tidy = tidy
  IsTidy-from (u ∷ users) groups tidy =
      IsTidy-from users (add_to_group same_user (domain u) u groups)
        (add_to_group-IsTidy (domain u) u groups tidy)

  -- The receivers of a group message are split by their domains: the group of a domain holds exactly
  -- those receivers that belong to the domain, no domain has two groups, no group is empty, and no
  -- receiver stands twice in a group, also where one is named twice.
  pub group_by_domain-partition :
      (users : List String)
      → IsTidy (group_by_domain domain users [])
        × ((k : Option String) (user : String)
            → is_in_group k user (group_by_domain domain users [])
              ≡ (exists_in (same_user user) users && equals (domain user) k))
  group_by_domain-partition users =
      (IsTidy-from users [] tt, λ k user. in_group-from k user users [] ∙ ground arith)
