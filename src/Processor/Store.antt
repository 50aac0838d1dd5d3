-- ===== src/Processor/Store.antt =====
-- repositories/MessageRepository.java over the messages in Mongo, in the order in which they were
-- first saved.
pub mod Missing
pub mod Paged
pub mod Tests
use web_socketaa_s.Prelude.{
  ℕ, String, ◌≡◌, refl, Option, none, some, Bool, true, false, not, ◌&&◌, List, [], ◌∷◌, arith,
  if◌then◌else◌, ◌==◌, eq_iff, leb, keep, take, length,
}
use web_socketaa_s.Text.{equals}
use web_socketaa_s.Model.{MessageState}
use web_socketaa_s.Model.Message.{Message}

-- save: a message replaces the one with its id
unfoldable pub save : Message → List Message → List Message
save m [] = m ∷ []
save m (x ∷ xs) = if x.id == m.id then m ∷ xs else x ∷ save m xs

-- remove: by id
unfoldable pub remove : Message → List Message → List Message
remove m xs = keep (λ x. not (x.id == m.id)) xs

-- findById
unfoldable pub find_by_id : String → List Message → Option Message
find_by_id id [] = none
find_by_id id (x ∷ xs) = if x.id == id then some x else find_by_id id xs

abbrev pub is_missing_state : MessageState → Bool
is_missing_state MessageState.address_not_found = true
is_missing_state MessageState.network_error = true
is_missing_state _ = false

-- the criteria of FetchMissingMessagesMessageProcessor: to the user, and not delivered
abbrev pub is_missing_for : Option String → Message → Bool
is_missing_for user_id m = equals m.to user_id && is_missing_state m.state

-- sorted by creation, ascending; equal times stay in the order of the collection
abbrev pub insert_by_creation : Message → List Message → List Message
insert_by_creation m [] = m ∷ []
insert_by_creation m (x ∷ xs) =
    if leb m.created_at x.created_at then m ∷ x ∷ xs else x ∷ insert_by_creation m xs

abbrev pub sort_by_creation : List Message → List Message
sort_by_creation [] = []
sort_by_creation (m ∷ ms) = insert_by_creation m (sort_by_creation ms)

-- Page: its content, and the number of all elements that meet the criteria.
pub record Page : Type 0 where
  pub content : List Message
  pub total : ℕ

-- findMessages(toUser, null, {ADDRESS_NOT_FOUND, NETWORK_ERROR}, pageSize)
unfoldable pub find_missing_messages : Option String → ℕ → List Message → Page
find_missing_messages user_id page_size messages =
    let found = keep (is_missing_for user_id) messages in
    record { content = take page_size (sort_by_creation found); total = length found }

pub find_by_id-save :
    (m : Message) (id : String) (xs : List Message)
    → find_by_id id (save m xs) ≡ (if m.id == id then some m else find_by_id id xs)
unfolding find_by_id save
find_by_id-save m id [] = refl
find_by_id-save m id (x ∷ xs) =
    ground (arith, find_by_id-save m id xs, eq_iff x.id m.id, eq_iff x.id id, eq_iff m.id id)

pub find_by_id-remove :
    (m : Message) (id : String) (xs : List Message)
    → find_by_id id (remove m xs) ≡ (if m.id == id then none else find_by_id id xs)
unfolding find_by_id remove
find_by_id-remove m id [] = ground arith
find_by_id-remove m id (x ∷ xs) =
    ground (arith, find_by_id-remove m id xs, eq_iff x.id m.id, eq_iff x.id id, eq_iff m.id id)

pub find_by_id-save_self : (m : Message) (xs : List Message) → find_by_id m.id (save m xs) ≡ some m
find_by_id-save_self m xs = ground (arith, find_by_id-save m m.id xs, eq_iff m.id m.id)
