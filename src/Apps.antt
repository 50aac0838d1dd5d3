-- ===== src/Apps.antt =====
-- NameRecord.java, ClientApp.java, UserDistribution.java and ClientAppService.java: which client
-- application a user belongs to, and in which domain the user is served.
pub mod Cache
pub mod Domains
pub mod Tests
use Prim.Native.String
use web_socketaa_s.Prelude.{
  ℕ, String, ◌≡◌, Option, none, some, Bool, true, false, not, ◌&&◌, List, [], ◌∷◌, ℤ, pos, int_le,
  if◌then◌else◌, find_first, Dict, lookup, insert,
}
use web_socketaa_s.Text.{StringUtils, is_blank, is_empty, equals}
use web_socketaa_s.Text.Numbers.{parse_long, max_long, long_to_string}

pub record UserDistribution : Type 0 where
  pub domain_name : Option String
  pub from : Option ℤ
  pub to : Option ℤ

-- A null list of distributions is the empty list: the code tests `CollectionUtils.isEmpty`.
pub record ClientApp : Type 0 where
  pub app_name : String
  pub app_id : Option String
  pub master_user_id : Option String
  pub auth_url : Option String
  pub auth_enabled : Bool
  pub user_distributions : List UserDistribution

pub record NameRecord : Type 0 where
  pub app_name : Option String
  pub number : Option ℤ

-- new NameRecord()
abbrev pub nameless : NameRecord
nameless = record { app_name = none; number = none }

-- the two texts of the split, or another number of them
abbrev of_texts : List String → NameRecord
of_texts (app_name ∷ number ∷ []) = record { app_name = some app_name; number = parse_long number }
of_texts _ = nameless

module _ (u : StringUtils) where
  abbrev parse_text : Option String → NameRecord
  parse_text none = nameless
  parse_text (some name) = if not (u.blank name) then of_texts (u.split name "-") else nameless

  -- NameRecord.parse
  unfoldable pub parse : Option String → NameRecord
  parse name = parse_text name

  abbrev pub is_present : Option ℤ → Bool
  is_present none = false
  is_present (some n) = true

  -- NameRecord.isValid
  unfoldable pub is_valid : NameRecord → Bool
  is_valid r = not (is_blank u r.app_name) && is_present r.number

-- `a + b` on texts that may be null
abbrev shown : Option String → String
shown none = "null"
shown (some s) = s

abbrev shown_number : Option ℤ → String
shown_number none = "null"
shown_number (some n) = long_to_string n

module _ (u : StringUtils) where
  -- ProcessorUtils.resolveDomainAppName and resolveDomainUserId
  unfoldable pub resolve_domain_app_name : Option String → String
  unfolding parse
  resolve_domain_app_name domain_name =
      let r = parse u domain_name in String.◌++◌ (shown r.app_name) (shown_number r.number)

  unfoldable pub resolve_domain_user_id : Option String → String
  unfolding resolve_domain_app_name
  resolve_domain_user_id domain_name = String.◌++◌ (resolve_domain_app_name domain_name) "-1"

-- `number >= from && number <= to`, with the defaults 0 and Long.MAX_VALUE
abbrev pub at_least : Option ℤ → ℤ → Bool
at_least none n = int_le (pos 0) n
at_least (some from) n = int_le from n

abbrev pub at_most : Option ℤ → ℤ → Bool
at_most none n = int_le n (pos max_long)
at_most (some to) n = int_le n to

abbrev pub covers : ℤ → UserDistribution → Bool
covers n d = at_least d.from n && at_most d.to n

-- The application of a name, in the repository or wherever a caller looks: null for a blank name.
module _ (u : StringUtils) (apps : String → Option ClientApp) where
  abbrev pub of_name : Option String → Option ClientApp
  of_name none = none
  of_name (some app_name) = if u.blank app_name then none else apps app_name

  -- ClientAppService.getClientAppByUserId
  unfoldable pub get_client_app_by_user_id : Option String → Option ClientApp
  unfolding parse is_valid
  get_client_app_by_user_id user_id =
      if is_empty user_id
      then none
      else (let r = parse u user_id in if not (is_valid u r) then none else of_name r.app_name)

  abbrev is_master_of : Option String → Option ClientApp → Bool
  is_master_of user_id none = false
  is_master_of user_id (some app) = equals user_id app.master_user_id

  -- ClientAppService.isMasterUserId
  unfoldable pub is_master_user_id : Option String → Bool
  unfolding get_client_app_by_user_id
  is_master_user_id user_id = is_master_of user_id (get_client_app_by_user_id user_id)

  -- the first distribution that covers the number, or the default domain
  abbrev pub chosen : Option String → Option UserDistribution → Option String
  chosen default none = default
  chosen default (some d) = d.domain_name

  abbrev pub distributed : Option String → Option ℤ → List UserDistribution → Option String
  distributed default none ds = default
  distributed default (some n) ds = chosen default (find_first (covers n) ds)

  abbrev pub domain_in : Option String → Option String → Option ClientApp → Option String
  domain_in default user_id none = default
  domain_in default user_id (some app) =
      let r = parse u user_id in
      if not (is_valid u r) then default else distributed default r.number app.user_distributions

  -- ClientAppService.resolveDomain, in the domain `default`
  unfoldable pub resolve_domain : Option String → Option String → Option String
  unfolding get_client_app_by_user_id parse is_valid
  resolve_domain default user_id = domain_in default user_id (get_client_app_by_user_id user_id)
