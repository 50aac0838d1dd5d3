-- ===== src/Apps/Domains.antt =====
-- Which domain ClientAppService.resolveDomain chooses for a user.
use web_socketaa_s.Prelude.{
  ◌≡◌, refl, ap, ◌⊎◌, inl, inr, ◌↔◌, Option, none, some, Bool, true, false, not, ◌&&◌, List, [],
  ◌∷◌, ◌++◌, ℤ, pos, ◌≤ℤ◌, int_le_iff, arith, find_first, All, String, Bool-cases, Option-cases,
  if◌then◌else◌,
}
use web_socketaa_s.Text.{StringUtils, is_blank, is_empty}
use web_socketaa_s.Text.Numbers.{max_long}
use web_socketaa_s.Apps.{
  ClientApp, UserDistribution, NameRecord, parse, is_valid, covers, get_client_app_by_user_id,
  resolve_domain, chosen, distributed, domain_in, at_least, at_most, is_present,
}

-- The least and the greatest number of a distribution.
abbrev pub lower : Option ℤ → ℤ
lower none = pos 0
lower (some from) = from

abbrev pub upper : Option ℤ → ℤ
upper none = pos max_long
upper (some to) = to

abbrev pub Within : UserDistribution → ℤ → Type 0
Within d n = (lower d.from ≤ℤ n) × (n ≤ℤ upper d.to)

-- The first distribution within which a number lies.
pub record First (n : ℤ) (ds : List UserDistribution) (d : UserDistribution) : Type 0 where
  pub before : List UserDistribution
  pub after : List UserDistribution
  pub split : ds ≡ before ++ (d ∷ after)
  pub earlier : All (λ b. ¬ Within b n) before
  pub within : Within d n

-- The domain of the first distribution within which the number lies, or the default without one.
abbrev pub Decided : ℤ → List UserDistribution → Option String → Option String → Type 0
Decided n ds default r =
    ((d : UserDistribution) × First n ds d × (r ≡ d.domain_name))
    ⊎ (All (λ d. ¬ Within d n) ds × (r ≡ default))

at_least_iff : (o : Option ℤ) (n : ℤ) → (at_least o n ≡ true) ↔ (lower o ≤ℤ n)
at_least_iff none n = int_le_iff (pos 0) n
at_least_iff (some from) n = int_le_iff from n

at_most_iff : (o : Option ℤ) (n : ℤ) → (at_most o n ≡ true) ↔ (n ≤ℤ upper o)
at_most_iff none n = int_le_iff n (pos max_long)
at_most_iff (some to) n = int_le_iff n to

both : (a b : Bool) → (a && b) ≡ true → (a ≡ true) × (b ≡ true)
both a b e = ground (arith, e)

covers-Within : (n : ℤ) (d : UserDistribution) → covers n d ≡ true → Within d n
covers-Within n d e =
    let (least, most) = both (at_least d.from n) (at_most d.to n) e in
    ((at_least_iff d.from n).0 least, (at_most_iff d.to n).0 most)

Within-covers : (n : ℤ) (d : UserDistribution) → Within d n → covers n d ≡ true
Within-covers n d (least, most) =
    rw ((at_least_iff d.from n).1 least, (at_most_iff d.to n).1 most) refl

First-cons :
    (n : ℤ) (x d : UserDistribution) (ds : List UserDistribution)
    → (¬ Within x n)
    → First n ds d
    → First n (x ∷ ds) d
First-cons n x d ds apart f = record {
  before = x ∷ f.before;
  after = f.after;
  split = ap (λ r. x ∷ r) f.split;
  earlier = (apart, f.earlier);
  within = f.within;
}

one_earlier :
    (n : ℤ) (x : UserDistribution) (ds : List UserDistribution) (default r : Option String)
    → (¬ Within x n)
    → Decided n ds default r
    → Decided n (x ∷ ds) default r
one_earlier n x ds default r apart (inl (d, first, same)) =
    inl (d, First-cons n x d ds apart first, same)
one_earlier n x ds default r apart (inr (outside, same)) = inr ((apart, outside), same)

chosen-Decided :
    (u : StringUtils) (apps : String → Option ClientApp) (n : ℤ) (ds : List UserDistribution)
    (default : Option String)
    → Decided n ds default (chosen u apps default (find_first (covers n) ds))
chosen-Decided u apps n [] default = inr (tt, refl)
chosen-Decided u apps n (x ∷ ds) default = elim (Bool-cases (covers n x)) [
  | inl here ↦ rw here (
      inl (
        x,
        record {
          before = [];
          after = ds;
          split = refl;
          earlier = tt;
          within = covers-Within n x here;
        },
        refl,
      ))
  | inr beyond ↦ rw beyond (
      one_earlier n x ds default _ (λ within. cc (beyond, Within-covers n x within))
        (chosen-Decided u apps n ds default))
]

present_number :
    (u : StringUtils) (named : Bool) (o : Option ℤ)
    → (named && is_present u o) ≡ true
    → (n : ℤ) × (o ≡ some n)
present_number u named (some n) e = (n, refl)
present_number u true none e = absurd (cc e)
present_number u false none e = absurd (cc e)

is_valid-some :
    (u : StringUtils) (r : NameRecord) → is_valid u r ≡ true → (n : ℤ) × (r.number ≡ some n)
unfolding is_valid
is_valid-some u r valid = present_number u (not (is_blank u r.app_name)) r.number valid

found_valid :
    (empty valid : Bool) (o : Option ClientApp) (app : ClientApp)
    → (if empty then none else (if not valid then none else o)) ≡ some app
    → valid ≡ true
found_valid true valid o app e = absurd (cc e)
found_valid false true o app e = refl
found_valid false false o app e = absurd (cc e)

module _ (u : StringUtils) (apps : String → Option ClientApp) where
  get_client_app_by_user_id-valid :
      (user_id : Option String) (app : ClientApp)
      → get_client_app_by_user_id u apps user_id ≡ some app
      → is_valid u (parse u user_id) ≡ true
  unfolding get_client_app_by_user_id
  get_client_app_by_user_id-valid user_id app e =
      found_valid (is_empty user_id) (is_valid u (parse u user_id)) _ app e

  domain_in-some :
      (default user_id : Option String) (app : ClientApp) (n : ℤ) (o : Option ClientApp)
      → o ≡ some app
      → is_valid u (parse u user_id) ≡ true
      → (parse u user_id).number ≡ some n
      → domain_in u apps default user_id o
        ≡ distributed u apps default (some n) app.user_distributions
  domain_in-some default user_id app n o found valid number = rw found (simp (valid, number))

  -- A user without a client application belongs to the default domain. Any other user has a number,
  -- and belongs to the domain of the first distribution of the application within whose bounds the
  -- number lies, or to the default domain if there is none. A bound that is missing is 0 below and the
  -- greatest long above.
  pub resolve_domain-Decided :
      (default user_id : Option String)
      → ((get_client_app_by_user_id u apps user_id ≡ none)
          × (resolve_domain u apps default user_id ≡ default))
        ⊎ ((app : ClientApp) × (n : ℤ) × (get_client_app_by_user_id u apps user_id ≡ some app)
            × ((parse u user_id).number ≡ some n)
            × Decided n app.user_distributions default (resolve_domain u apps default user_id))
  unfolding resolve_domain
  resolve_domain-Decided default user_id =
      elim (Option-cases (get_client_app_by_user_id u apps user_id)) [
        | inl missing ↦ inl (missing, rw missing refl)
        | inr (app, found) ↦
            let valid = get_client_app_by_user_id-valid user_id app found in
            let (n, number) = is_valid-some u (parse u user_id) valid in
            inr (
              app,
              n,
              found,
              number,
              rw (domain_in-some default user_id app n _ found valid number)
                  (chosen-Decided u apps n app.user_distributions default),
            )
      ]
