-- ===== src/Processor/Channels/Refines.antt =====
-- UserChannelService.java keeps a relation between users and addresses, however its channels come and
-- go: a run of its operations does to the channels what setting and clearing pairs does to the
-- relation.
use mathlib.Core.Path.{fun_ext}
use web_socketaa_s.Prelude.{
  ℕ, String, ◌≡◌, refl, ap, ◌∙◌, Option, none, some, Bool, not, ◌&&◌, ◌||◌, List, [], ◌∷◌, arith,
  Dict, lookup, insert, delete, lookup-insert, lookup-delete, ◌==◌, eq_iff,
}
use web_socketaa_s.Model.{Address, address_eq}
use web_socketaa_s.Processor.{UserChannel}
use web_socketaa_s.Processor.Channels.{
  has_address, add_address, remove_address, addresses_of, IsKeyed, save_or_delete, without_address,
}
use web_socketaa_s.Processor.Channels.Connected.{
  addresses_of-add_address, addresses_of-remove_address,
}

-- The two operations; an address is added at a time.
pub data Change : Type 0 where
  adds removes : String → Address → ℕ → Change

unfoldable pub changed : Change → Dict UserChannel → Dict UserChannel
changed (adds user a now) channels = add_address user a now channels
changed (removes user a now) channels = remove_address user a channels

unfoldable pub run : List Change → Dict UserChannel → Dict UserChannel
run [] channels = channels
run (c ∷ cs) channels = run cs (changed c channels)

-- The specification: which user is connected at which address.
abbrev pub Relation : Type 0
Relation = String → Address → Bool

abbrev pub related : Change → Relation → Relation
related (adds user a now) r other b = r other b || (user == other && address_eq b a)
related (removes user a now) r other b = r other b && not (user == other && address_eq a b)

unfoldable pub replay : List Change → Relation → Relation
replay [] r = r
replay (c ∷ cs) r = replay cs (related c r)

abbrev pub relation : Dict UserChannel → Relation
relation channels user a = has_address a (addresses_of channels user)

IsKeyed-insert :
    (channel : UserChannel) (channels : Dict UserChannel)
    → IsKeyed channels
    → IsKeyed (insert channel.username channel channels)
IsKeyed-insert channel channels k = record {
  named = λ user c found. ground (
    arith,
    k.named user c,
    lookup-insert channel.username user channel channels,
    eq_iff channel.username user,
    found,
  );
}

IsKeyed-delete :
    (key : String) (channels : Dict UserChannel) → IsKeyed channels → IsKeyed (delete key channels)
IsKeyed-delete key channels k = record {
  named = λ user c found. ground (arith, k.named user c, lookup-delete key user channels, found);
}

IsKeyed-save_or_delete :
    (channel : UserChannel) (xs : List Address) (channels : Dict UserChannel)
    → IsKeyed channels
    → IsKeyed (save_or_delete channel xs channels)
IsKeyed-save_or_delete channel [] channels k = IsKeyed-delete channel.username channels k
IsKeyed-save_or_delete channel (x ∷ xs) channels k =
    IsKeyed-insert (record channel { addresses = x ∷ xs }) channels k

IsKeyed-without_address :
    (a : Address) (o : Option UserChannel) (channels : Dict UserChannel)
    → IsKeyed channels
    → IsKeyed (without_address a o channels)
IsKeyed-without_address a none channels k = k
IsKeyed-without_address a (some channel) channels k = IsKeyed-save_or_delete channel _ channels k

IsKeyed-changed :
    (c : Change) (channels : Dict UserChannel) → IsKeyed channels → IsKeyed (changed c channels)
unfolding changed add_address remove_address
IsKeyed-changed (adds user a now) channels k = IsKeyed-insert _ channels k
IsKeyed-changed (removes user a now) channels k =
    IsKeyed-without_address a (lookup user channels) channels k

relation-changed :
    (c : Change) (channels : Dict UserChannel)
    → IsKeyed channels
    → relation (changed c channels) ≡ related c (relation channels)
unfolding changed
relation-changed (adds user a now) channels k =
    fun_ext λ other. fun_ext λ b. addresses_of-add_address user other a b now channels k
relation-changed (removes user a now) channels k =
    fun_ext λ other. fun_ext λ b. addresses_of-remove_address user other a b channels k

-- From channels that each stand under their own user name, any additions and removals of addresses
-- lead to channels that do too, and in which a user has an address exactly if it has it after the
-- same additions and removals of pairs in a relation.
pub run-replay :
    (cs : List Change) (channels : Dict UserChannel)
    → IsKeyed channels
    → IsKeyed (run cs channels) × (relation (run cs channels) ≡ replay cs (relation channels))
unfolding run replay
run-replay [] channels k = (k, refl)
run-replay (c ∷ cs) channels k =
    let (keyed, same) = run-replay cs (changed c channels) (IsKeyed-changed c channels k) in
    (keyed, same ∙ ap (replay cs) (relation-changed c channels k))
