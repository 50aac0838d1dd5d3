-- ===== src/Processor/Channels/Tests.antt =====
-- The theorems about the user channels at concrete inputs.
use web_socketaa_s.Processor.Channels.Refines.{
  Change, adds, removes, run, relation, replay, run-replay,
}
use web_socketaa_s.Prelude.{List, ◌≡◌, some, [], ◌∷◌, Dict, lookup, arith, eq_iff}
use web_socketaa_s.Model.{Address, new_address}
use web_socketaa_s.Processor.{UserChannel}
use web_socketaa_s.Processor.Channels.{IsKeyed}

abbrev first : Address
first = new_address (some "domain-01") (some "connector-01")

abbrev second : Address
second = new_address (some "domain-01") (some "connector-02")

abbrev one : UserChannel
one = record { username = "ANZ-1"; addresses = first ∷ second ∷ []; created_at = 0 }

abbrev channels : Dict UserChannel
channels = ("ANZ-1", one) ∷ []

channels-IsKeyed : IsKeyed channels
unfolding lookup
channels-IsKeyed = record { named = λ user_id channel e. ground (arith, e, eq_iff "ANZ-1" user_id) }

abbrev changes : List Change
changes = removes "ANZ-1" first 5 ∷ adds "ANZ-2" second 6 ∷ []

run-replay_example :
    IsKeyed (run changes channels)
    × (relation (run changes channels) ≡ replay changes (relation channels))
run-replay_example = run-replay changes channels channels-IsKeyed
