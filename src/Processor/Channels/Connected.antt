-- ===== src/Processor/Channels/Connected.antt =====
-- UserChannelService.java keeps a set of addresses for each user.
use web_socketaa_s.Prelude.{
  ℕ, String, ◌≡◌, refl, sym, ap, ◌∙◌, none, some, Bool, true, false, not, ◌&&◌, ◌||◌, List, [], ◌∷◌,
  arith, if◌then◌else◌, Dict, lookup, insert, lookup-insert, lookup-delete, keep, Bool-cases,
  Option-cases, inl, inr, ◌==◌, eq_iff,
}
use web_socketaa_s.Model.{Address, address_eq, address_eq_iff}
use web_socketaa_s.Processor.{UserChannel}
use web_socketaa_s.Processor.Channels.{
  has_address, add_address, remove_address, addresses_of, IsKeyed, has_address-append,
  has_address-keep, add_to_set, save_or_delete,
}

addresses_of-insert :
    (key : String) (channel : UserChannel) (channels : Dict UserChannel) (other : String)
    → addresses_of (insert key channel channels) other
      ≡ (if key == other then channel.addresses else addresses_of channels other)
unfolding addresses_of
addresses_of-insert key channel channels other = elim (Bool-cases (key == other)) [
  | inl same ↦ rw (lookup-insert key other channel channels) (rw same refl)
  | inr apart ↦ rw (lookup-insert key other channel channels) (rw apart refl)
]

addresses_of-save_or_delete :
    (channel : UserChannel) (xs : List Address) (channels : Dict UserChannel) (other : String)
    → addresses_of (save_or_delete channel xs channels) other
      ≡ (if channel.username == other then xs else addresses_of channels other)
unfolding addresses_of
addresses_of-save_or_delete channel [] channels other =
    elim (Bool-cases (channel.username == other)) [
      | inl same ↦ rw (lookup-delete channel.username other channels) (rw same refl)
      | inr apart ↦ rw (lookup-delete channel.username other channels) (rw apart refl)
    ]
addresses_of-save_or_delete channel (x ∷ xs) channels other =
    addresses_of-insert channel.username (record channel { addresses = x ∷ xs }) channels other

addresses_found :
    (user_id : String) (channels : Dict UserChannel) (channel : UserChannel)
    → lookup user_id channels ≡ some channel
    → addresses_of channels user_id ≡ channel.addresses
unfolding addresses_of
addresses_found user_id channels channel found = rw found refl

addresses_missing :
    (user_id : String) (channels : Dict UserChannel)
    → lookup user_id channels ≡ none
    → addresses_of channels user_id ≡ []
unfolding addresses_of
addresses_missing user_id channels missing = rw missing refl

same_user :
    (user_id other : String) (channels : Dict UserChannel) (xs : List Address)
    → addresses_of channels user_id ≡ xs
    → (user_id == other) ≡ true
    → addresses_of channels other ≡ xs
same_user user_id other channels xs found same =
    ap (addresses_of channels) (sym ((eq_iff user_id other).0 same)) ∙ found

removed_from :
    (a b : Address) (test : Bool) (xs rest : List Address)
    → (test ≡ true → rest ≡ xs)
    → has_address b (if test then keep (λ x. not (address_eq a x)) xs else rest)
      ≡ (has_address b rest && not (test && address_eq a b))
removed_from a b true xs rest t =
    has_address-keep a b xs ∙ ap (λ r. has_address b r && not (address_eq a b)) (sym (t refl))
removed_from a b false xs rest t = ground arith

absent_from :
    (a b : Address) (test : Bool) (rest : List Address)
    → (test ≡ true → rest ≡ [])
    → has_address b rest ≡ (has_address b rest && not (test && address_eq a b))
absent_from a b true rest t = rw (t refl) refl
absent_from a b false rest t = ground arith

-- Where each channel stands under its own user name, removing an address from a user takes that
-- address from that user, and nothing from the same user or another.
pub addresses_of-remove_address :
    (user_id other : String) (a b : Address) (channels : Dict UserChannel)
    → IsKeyed channels
    → has_address b (addresses_of (remove_address user_id a channels) other)
      ≡ (has_address b (addresses_of channels other) && not ((user_id == other) && address_eq a b))
unfolding remove_address
addresses_of-remove_address user_id other a b channels keyed =
    elim (Option-cases (lookup user_id channels)) [
      | inl missing ↦ rw missing (
          absent_from a b (user_id == other) (addresses_of channels other)
            (same_user user_id other channels [] (addresses_missing user_id channels missing)))
      | inr (channel, found) ↦ rw found (
          rw
            (addresses_of-save_or_delete channel
              (keep (λ x. not (address_eq a x)) channel.addresses) channels other)
            (rw (keyed.named user_id channel found) (
              removed_from a b (user_id == other) channel.addresses (addresses_of channels other) (
                same_user user_id other channels channel.addresses
                  (addresses_found user_id channels channel found)))))
    ]

has_address-present :
    (a b : Address) (xs : List Address)
    → has_address a xs ≡ true
    → has_address b xs ≡ (has_address b xs || address_eq b a)
has_address-present a b xs there = elim (Bool-cases (address_eq b a)) [
  | inl same ↦ rw same (rw ((address_eq_iff b a).0 same) (rw there refl))
  | inr other ↦ rw other (ground arith)
]

has_address-add_to_set :
    (a b : Address) (xs : List Address)
    → has_address b (add_to_set a xs) ≡ (has_address b xs || address_eq b a)
has_address-add_to_set a b xs = elim (Bool-cases (has_address a xs)) [
  | inl there ↦ rw there (has_address-present a b xs there)
  | inr absent ↦ rw absent (has_address-append a b xs)
]

added_to :
    (a b : Address) (test : Bool) (xs rest : List Address)
    → (test ≡ true → rest ≡ xs)
    → has_address b (if test then add_to_set a xs else rest)
      ≡ (has_address b rest || (test && address_eq b a))
added_to a b true xs rest t =
    has_address-add_to_set a b xs ∙ ap (λ r. has_address b r || address_eq b a) (sym (t refl))
added_to a b false xs rest t = ground arith

-- Where each channel stands under its own user name, adding an address to a user gives that address
-- to that user, and neither takes one nor gives one to another user.
pub addresses_of-add_address :
    (user_id other : String) (a b : Address) (now : ℕ) (channels : Dict UserChannel)
    → IsKeyed channels
    → has_address b (addresses_of (add_address user_id a now channels) other)
      ≡ (has_address b (addresses_of channels other) || ((user_id == other) && address_eq b a))
unfolding add_address
addresses_of-add_address user_id other a b now channels keyed =
    elim (Option-cases (lookup user_id channels)) [
      | inl missing ↦ rw missing (
          rw
            (addresses_of-insert user_id
              (record { username = user_id; addresses = a ∷ []; created_at = now }) channels other)
            (added_to a b (user_id == other) [] (addresses_of channels other)
              (same_user user_id other channels [] (addresses_missing user_id channels missing))))
      | inr (channel, found) ↦ rw found (
          rw
            (addresses_of-insert channel.username
              (record channel { addresses = add_to_set a channel.addresses }) channels other)
            (rw (keyed.named user_id channel found) (
              added_to a b (user_id == other) channel.addresses (addresses_of channels other) (
                same_user user_id other channels channel.addresses
                  (addresses_found user_id channels channel found)))))
    ]
