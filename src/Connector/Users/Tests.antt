-- ===== src/Connector/Users/Tests.antt =====
-- A user with two connections, one of which is closed.
use web_socketaa_s.Prelude.{◌≡◌, none, some, List, [], ◌∷◌, pos, if◌then◌else◌}
use web_socketaa_s.Connector.{get_user}
use web_socketaa_s.Connector.Users.{listed}
use web_socketaa_s.Connector.Users.Refines.{Change, adds, removes, run, replay, get_user-run}

abbrev changes : List Change
changes = adds "ANZ-1" 1 ∷ adds "ANZ-1" 2 ∷ removes "ANZ-1" 1 ∷ []

get_user-run_example :
    get_user (run changes []) "ANZ-1" (some (pos 2))
    ≡ (if replay changes (listed []) "ANZ-1" 2 then some 2 else none)
get_user-run_example = get_user-run changes [] "ANZ-1" 2
