-- ===== src/Processor/Channels.antt =====
-- services/UserChannelService.java over the user channels in Redis: the connections of each user.
pub mod Connected
pub mod Refines
pub mod Tests
use web_socketaa_s.Prelude.{
  ℕ, String, ◌≡◌, refl, Option, none, some, Bool, not, ◌&&◌, ◌||◌, List, [], ◌∷◌, ◌++◌, arith,
  if◌then◌else◌, Dict, lookup, insert, delete, exists_in, keep,
}
use web_socketaa_s.Model.{Address, address_eq, address_eq_iff}
use web_socketaa_s.Processor.{UserChannel}

-- `set.contains(address)`
abbrev pub has_address : Address → List Address → Bool
has_address a = exists_in (address_eq a)

-- `set.add(address)`
abbrev pub add_to_set : Address → List Address → List Address
add_to_set a xs = if has_address a xs then xs else xs ++ a ∷ []

-- the channel found, or a new one made at the time `now`
abbrev pub channel_or_new : String → ℕ → Option UserChannel → UserChannel
channel_or_new user_id now none = record { username = user_id; addresses = []; created_at = now }
channel_or_new user_id now (some channel) = channel

-- UserChannelService.addAddress
unfoldable pub add_address : String → Address → ℕ → Dict UserChannel → Dict UserChannel
add_address user_id address now channels =
    let channel = channel_or_new user_id now (lookup user_id channels) in
    insert channel.username (record channel { addresses = add_to_set address channel.addresses })
      channels

abbrev pub save_or_delete : UserChannel → List Address → Dict UserChannel → Dict UserChannel
save_or_delete channel [] channels = delete channel.username channels
save_or_delete channel (a ∷ addresses) channels =
    insert channel.username (record channel { addresses = a ∷ addresses }) channels

abbrev pub without_address : Address → Option UserChannel → Dict UserChannel → Dict UserChannel
without_address address none channels = channels
without_address address (some channel) channels =
    save_or_delete channel (keep (λ a. not (address_eq address a)) channel.addresses) channels

-- UserChannelService.removeAddress
unfoldable pub remove_address : String → Address → Dict UserChannel → Dict UserChannel
remove_address user_id address channels = without_address address (lookup user_id channels) channels

-- addAddress where the address is null, and Redis gives back `stored` for the set with null in it
abbrev pub add_null :
    (List Address → List Address) → String → ℕ → Dict UserChannel → Dict UserChannel
add_null stored user_id now channels =
    let channel = channel_or_new user_id now (lookup user_id channels) in
    insert channel.username (record channel { addresses = stored channel.addresses }) channels

-- removeAddress where the address is null, which is in no set
abbrev pub without_null : Option UserChannel → Dict UserChannel → Dict UserChannel
without_null none channels = channels
without_null (some channel) channels = save_or_delete channel channel.addresses channels

-- addAddress and removeAddress, of an address that may be null
unfoldable pub add_nullable :
    (List Address → List Address)
    → String
    → Option Address
    → ℕ
    → Dict UserChannel
    → Dict UserChannel
unfolding add_address
add_nullable stored user_id none now channels = add_null stored user_id now channels
add_nullable stored user_id (some address) now channels = add_address user_id address now channels

unfoldable pub remove_nullable : String → Option Address → Dict UserChannel → Dict UserChannel
unfolding remove_address
remove_nullable user_id none channels = without_null (lookup user_id channels) channels
remove_nullable user_id (some address) channels = remove_address user_id address channels

abbrev pub addresses_in : Option UserChannel → List Address
addresses_in none = []
addresses_in (some channel) = channel.addresses

-- The addresses at which a user is connected: none without a channel.
unfoldable pub addresses_of : Dict UserChannel → String → List Address
addresses_of channels user_id = addresses_in (lookup user_id channels)

-- Each channel stands under its own user name.
pub record IsKeyed (channels : Dict UserChannel) : Type 0 where
  pub named :
      (user_id : String) (channel : UserChannel)
      → lookup user_id channels ≡ some channel
      → channel.username ≡ user_id

pub has_address-append :
    (a b : Address) (xs : List Address)
    → has_address b (xs ++ a ∷ []) ≡ (has_address b xs || address_eq b a)
has_address-append a b [] = ground arith
has_address-append a b (x ∷ xs) = ground (arith, has_address-append a b xs)

pub has_address-keep :
    (a b : Address) (xs : List Address)
    → has_address b (keep (λ x. not (address_eq a x)) xs)
      ≡ (has_address b xs && not (address_eq a b))
has_address-keep a b [] = refl
has_address-keep a b (x ∷ xs) =
    ground
      (arith, has_address-keep a b xs, address_eq_iff a x, address_eq_iff b x, address_eq_iff a b)
