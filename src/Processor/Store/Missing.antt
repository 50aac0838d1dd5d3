-- ===== src/Processor/Store/Missing.antt =====
-- Which messages FetchMissingMessagesMessageProcessor asks MessageRepository for.
use mathlib.Core.List.{Perm, perm_middle}
use mathlib.Core.List.Perm as Perm
use web_socketaa_s.Prelude.{
  String, ◌≡◌, refl, ◌⊎◌, inl, inr, Option, Bool, true, not, List, [], ◌∷◌, ◌++◌, keep, All, arith,
  Bool-cases,
}
use web_socketaa_s.Model.{MessageState, equals_iff}
use web_socketaa_s.Model.Message.{Message}
use web_socketaa_s.Processor.Store.{is_missing_state, is_missing_for}

-- A message to the user that found no address, or whose delivery failed.
abbrev pub IsMissing : Option String → Message → Type 0
IsMissing user_id m =
    (m.to ≡ user_id)
    × ((m.state ≡ MessageState.address_not_found) ⊎ (m.state ≡ MessageState.network_error))

missing_state :
    (s : MessageState)
    → is_missing_state s ≡ true
    → (s ≡ MessageState.address_not_found) ⊎ (s ≡ MessageState.network_error)
missing_state MessageState.address_not_found e = inl refl
missing_state MessageState.network_error e = inr refl
missing_state MessageState.created e = cc e
missing_state MessageState.processed e = cc e
missing_state MessageState.processor_error e = cc e
missing_state MessageState.connector_error e = cc e

is_missing_for-IsMissing :
    (user_id : Option String) (m : Message) → is_missing_for user_id m ≡ true → IsMissing user_id m
is_missing_for-IsMissing user_id m e =
    (ground (arith, e, equals_iff m.to user_id), missing_state m.state (ground (arith, e)))

found_missing :
    (user_id : Option String) (m : Message) → IsMissing user_id m → is_missing_for user_id m ≡ true
found_missing user_id m (to, inl state) = rw (state, (equals_iff m.to user_id).1 to) refl
found_missing user_id m (to, inr state) = rw (state, (equals_iff m.to user_id).1 to) refl

abbrev pub is_other_for : Option String → Message → Bool
is_other_for user_id m = not (is_missing_for user_id m)

pub keep-IsMissing :
    (user_id : Option String) (messages : List Message)
    → All (IsMissing user_id) (keep (is_missing_for user_id) messages)
keep-IsMissing user_id [] = tt
keep-IsMissing user_id (m ∷ ms) = elim (Bool-cases (is_missing_for user_id m)) [
  | inl missing ↦ rw missing (is_missing_for-IsMissing user_id m missing, keep-IsMissing user_id ms)
  | inr other ↦ rw other (keep-IsMissing user_id ms)
]

pub keep-others :
    (user_id : Option String) (messages : List Message)
    → All (λ m. ¬ IsMissing user_id m) (keep (is_other_for user_id) messages)
keep-others user_id [] = tt
keep-others user_id (m ∷ ms) = elim (Bool-cases (is_missing_for user_id m)) [
  | inl missing ↦ rw missing (keep-others user_id ms)
  | inr other ↦
      rw other ((λ missing. cc (other, found_missing user_id m missing)), keep-others user_id ms)
]

-- The missing messages and the others are all the messages.
pub keep-Perm :
    (user_id : Option String) (messages : List Message)
    → Perm (keep (is_missing_for user_id) messages ++ keep (is_other_for user_id) messages) messages
keep-Perm user_id [] = Perm.refl []
keep-Perm user_id (m ∷ ms) = elim (Bool-cases (is_missing_for user_id m)) [
  | inl missing ↦ rw missing (Perm.cons m (keep-Perm user_id ms))
  | inr other ↦ rw other (
      Perm.trans (perm_middle (keep (is_missing_for user_id) ms) (keep (is_other_for user_id) ms))
        (Perm.cons m (keep-Perm user_id ms)))
]
