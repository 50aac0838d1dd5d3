-- ===== src/Processor/Handlers/Groups/Tests.antt =====
-- Three receivers in two domains, one of them named twice.
use web_socketaa_s.Prelude.{
  String, ◌≡◌, Option, some, List, [], ◌∷◌, ◌&&◌, exists_in, if◌then◌else◌, ◌==◌,
}
use web_socketaa_s.Text.{equals}
use web_socketaa_s.Processor.Handlers.Groups.{same_user, group_by_domain}
use web_socketaa_s.Processor.Handlers.Groups.Partition.{
  IsTidy, is_in_group, group_by_domain-partition,
}

abbrev domain : String → Option String
domain user = if user == "ANZ-3" then some "domain-02" else some "domain-01"

abbrev receivers : List String
receivers = "ANZ-1" ∷ "ANZ-3" ∷ "ANZ-2" ∷ "ANZ-1" ∷ []

group_by_domain-partition_example :
    IsTidy (group_by_domain domain receivers [])
    × ((k : Option String) (user : String)
        → is_in_group k user (group_by_domain domain receivers [])
          ≡ (exists_in (same_user user) receivers && equals (domain user) k))
group_by_domain-partition_example = group_by_domain-partition domain receivers
