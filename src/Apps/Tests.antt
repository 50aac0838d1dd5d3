-- ===== src/Apps/Tests.antt =====
-- The theorems about client applications at concrete inputs.
use web_socketaa_s.Prelude.{
  ◌≡◌, refl, ◌⊎◌, Option, none, some, true, false, [], ◌∷◌, ℤ, pos, String, if◌then◌else◌, ◌==◌,
  insert, lookup,
}
use web_socketaa_s.Text.Plain.{plain}
use web_socketaa_s.Text.Numbers.{parse_long}
use web_socketaa_s.Apps.{
  ClientApp, UserDistribution, parse, is_valid, get_client_app_by_user_id, resolve_domain, of_name,
}
use web_socketaa_s.Apps.Domains.{Decided, resolve_domain-Decided}
use web_socketaa_s.Apps.Cache.{
  ClientAppService, init, save_all, save, get_client_app_by_name, save_client_app, find_by_id,
  IsCoherent, Agrees, init-IsCoherent, get_client_app_by_name_lem, save_client_app_stale,
}

abbrev distribution : Option String → ℤ → ℤ → UserDistribution
distribution domain from to = record { domain_name = domain; from = some from; to = some to }

abbrev anz : ClientApp
anz = record {
  app_name = "ANZ";
  app_id = some "app-1";
  master_user_id = some "ANZ-0";
  auth_url = none;
  auth_enabled = false;
  user_distributions =
      distribution (some "domain-01") (pos 1) (pos 99)
      ∷ distribution (some "domain-02") (pos 100) (pos 200)
      ∷ [];
}

abbrev apps : String → Option ClientApp
apps app_name = if app_name == "ANZ" then some anz else none

resolve_domain-Decided_example :
    ((get_client_app_by_user_id plain apps (some "ANZ-123") ≡ none)
      × (resolve_domain plain apps (some "domain-01") (some "ANZ-123") ≡ some "domain-01"))
    ⊎ ((app : ClientApp) × (n : ℤ) × (get_client_app_by_user_id plain apps (some "ANZ-123")
          ≡ some app)
        × ((parse plain (some "ANZ-123")).number ≡ some n)
        × Decided n app.user_distributions
            (some "domain-01")
            (resolve_domain plain apps (some "domain-01") (some "ANZ-123")))
resolve_domain-Decided_example =
    resolve_domain-Decided plain apps (some "domain-01") (some "ANZ-123")

resolve_domain_test :
    resolve_domain plain apps (some "domain-01") (some "ANZ-123") ≡ some "domain-02"
unfolding resolve_domain get_client_app_by_user_id parse is_valid parse_long
resolve_domain_test = refl

abbrev service : ClientAppService
service = init (record { cache = []; repository = [] }) (anz ∷ []) []

service-IsCoherent : IsCoherent service
service-IsCoherent = init-IsCoherent (record { cache = []; repository = [] }) (anz ∷ []) []

get_client_app_by_name_example :
    Agrees service
      (of_name plain (find_by_id service.repository) (some "ANZ"))
      (get_client_app_by_name plain (some "ANZ") service)
get_client_app_by_name_example =
    get_client_app_by_name_lem plain service (some "ANZ") service-IsCoherent

save_client_app_stale_example :
    (get_client_app_by_name plain (some "ANZ") (
      save_client_app
        (record anz { auth_enabled = true })
        (get_client_app_by_name plain (some "ANZ") service).1)).0
    ≡ some anz
unfolding init save_all save insert lookup
save_client_app_stale_example =
    save_client_app_stale plain service anz (record anz { auth_enabled = true }) refl refl refl
      service-IsCoherent
