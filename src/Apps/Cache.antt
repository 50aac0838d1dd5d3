-- ===== src/Apps/Cache.antt =====
-- ClientAppService.java with its cache in front of the repository of client applications.
use web_socketaa_s.Prelude.{
  String, ◌≡◌, refl, sym, Option, none, some, List, [], ◌∷◌, arith, Dict, lookup, insert,
  lookup-insert, eq_iff, Option-cases, Bool-cases, inl, inr, false, if◌then◌else◌, ap, ◌∙◌,
}
use web_socketaa_s.Text.{StringUtils}
use web_socketaa_s.Apps.{ClientApp, of_name}

-- The cache (a ConcurrentHashMap) and the repository (a Redis hash), both by application name.
pub record ClientAppService : Type 0 where
  pub cache : Dict ClientApp
  pub repository : Dict ClientApp

abbrev pub find_by_id : Dict ClientApp → String → Option ClientApp
find_by_id repository app_name = lookup app_name repository

-- ClientAppRepository.save, keyed by the application's name
unfoldable pub save : Dict ClientApp → ClientApp → Dict ClientApp
save repository app = insert app.app_name app repository

unfoldable pub save_all : Dict ClientApp → List ClientApp → Dict ClientApp
unfolding save
save_all repository [] = repository
save_all repository (app ∷ apps) = save_all (save repository app) apps

-- ClientAppService.init, with the applications of the configuration and those of the meta server
unfoldable pub init : ClientAppService → List ClientApp → List ClientApp → ClientAppService
unfolding save_all
init s configured remote = record {
  cache = [];
  repository = save_all (save_all s.repository configured) remote;
}

abbrev remember : ClientAppService → String → Option ClientApp → ClientAppService
remember s app_name none = s
remember s app_name (some app) = record s { cache = insert app_name app s.cache }

abbrev cached : ClientAppService → String → Option ClientApp → Option ClientApp × ClientAppService
cached s app_name (some app) = (some app, s)
cached s app_name none =
    let found = find_by_id s.repository app_name in (found, remember s app_name found)

module _ (u : StringUtils) where
  -- ClientAppService.getClientAppByName: a name that is null or blank has no application
  unfoldable pub get_client_app_by_name :
      Option String → ClientAppService → Option ClientApp × ClientAppService
  get_client_app_by_name none s = (none, s)
  get_client_app_by_name (some app_name) s =
      if u.blank app_name then (none, s) else cached s app_name (lookup app_name s.cache)

-- ClientAppService.saveClientApp
unfoldable pub save_client_app : ClientApp → ClientAppService → ClientAppService
unfolding save
save_client_app app s = record s { repository = save s.repository app }

-- What is cached is what the repository holds.
pub record IsCoherent (s : ClientAppService) : Type 0 where
  pub agrees :
      (app_name : String) (app : ClientApp)
      → lookup app_name s.cache ≡ some app
      → lookup app_name s.repository ≡ some app

pub init-IsCoherent :
    (s : ClientAppService) (configured remote : List ClientApp)
    → IsCoherent (init s configured remote)
unfolding init lookup
init-IsCoherent s configured remote = record { agrees = λ k a h. cc }

pub remember-IsCoherent :
    (s : ClientAppService) (k : String) (o : Option ClientApp)
    → lookup k s.repository ≡ o
    → IsCoherent s
    → IsCoherent (remember s k o)
remember-IsCoherent s k none e c = c
remember-IsCoherent s k (some a) e c = record {
  agrees = λ j b h. ground (arith, lookup-insert k j a s.cache, c.agrees j b, eq_iff k j);
}

repository-remember :
    (s : ClientAppService) (k : String) (o : Option ClientApp)
    → (remember s k o).repository ≡ s.repository
repository-remember s k none = refl
repository-remember s k (some a) = refl

-- What a lookup gives and leaves, where the cache agrees with the repository.
abbrev pub Agrees :
    ClientAppService → Option ClientApp → Option ClientApp × ClientAppService → Type 0
Agrees s o (found, s') = (found ≡ o) × IsCoherent s' × (s'.repository ≡ s.repository)

cached-Agrees :
    (s : ClientAppService) (k : String)
    → IsCoherent s
    → Agrees s (find_by_id s.repository k) (cached s k (lookup k s.cache))
cached-Agrees s k c = elim (Option-cases (lookup k s.cache)) [
  | inr (a, hit) ↦ simp hit (sym (c.agrees k a hit), c, refl)
  | inl miss ↦
      simp miss
        (refl, remember-IsCoherent s k (lookup k s.repository) refl c, repository-remember s k _)
]

module _ (u : StringUtils) where
  -- While the cache agrees with the repository, a lookup by name gives what the repository holds, or
  -- nothing for a name that is null or blank, and the cache still agrees afterwards with an unchanged
  -- repository.
  pub get_client_app_by_name_lem :
      (s : ClientAppService) (name : Option String)
      → IsCoherent s
      → Agrees s (of_name u (find_by_id s.repository) name) (get_client_app_by_name u name s)
  unfolding get_client_app_by_name
  get_client_app_by_name_lem s none c = (refl, c, refl)
  get_client_app_by_name_lem s (some k) c = elim (Bool-cases (u.blank k)) [
    | inl blank ↦ rw blank (refl, c, refl)
    | inr named ↦ rw named (cached-Agrees s k c)
  ]

  cached_afterwards :
      (s : ClientAppService) (app : ClientApp)
      → u.blank app.app_name ≡ false
      → lookup app.app_name s.repository ≡ some app
      → IsCoherent s
      → lookup app.app_name (get_client_app_by_name u (some app.app_name) s).1.cache ≡ some app
  unfolding get_client_app_by_name
  cached_afterwards s app named there c = elim (Option-cases (lookup app.app_name s.cache)) [
    | inr (a, hit) ↦ simp (named, hit, sym (c.agrees app.app_name a hit)) there
    | inl miss ↦
        simp (named, miss, there, lookup-insert) (ground (arith, eq_iff app.app_name app.app_name))
  ]

  hit_lem :
      (s : ClientAppService) (app new : ClientApp)
      → u.blank new.app_name ≡ false
      → lookup new.app_name s.cache ≡ some app
      → (get_client_app_by_name u (some new.app_name) (save_client_app new s)).0 ≡ some app
  unfolding get_client_app_by_name save_client_app
  hit_lem s app new named h = simp (named, h)

  -- While the cache agrees with the repository, after an application has been looked up by its name,
  -- which is not blank, saving another application under that name does not change what a lookup of the
  -- name returns: the cache still answers with the old one.
  pub save_client_app_stale :
      (s : ClientAppService) (old new : ClientApp)
      → new.app_name ≡ old.app_name
      → u.blank old.app_name ≡ false
      → lookup old.app_name s.repository ≡ some old
      → IsCoherent s
      → (get_client_app_by_name u
          (some new.app_name)
          (save_client_app new (get_client_app_by_name u (some old.app_name) s).1)).0
        ≡ some old
  save_client_app_stale s old new same named there c =
      hit_lem (get_client_app_by_name u (some old.app_name) s).1 old new
        (ap (λ k. u.blank k) same ∙ named) (simp same (cached_afterwards s old named there c))
