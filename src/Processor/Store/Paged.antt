-- ===== src/Processor/Store/Paged.antt =====
-- The pages of missing messages that MessageRepository.findMessages returns.
use mathlib.Core.List.{Perm}
use mathlib.Core.List.Perm as Perm
use std.Path.{subst}
use web_socketaa_s.Prelude.{
  sym, ◌++◌, ◌+◌, ◌∙◌, length-append, ℕ, zero, suc, ◌≤◌, String, ◌≡◌, refl, ap, Option, List, [],
  ◌∷◌, if◌then◌else◌, leb, keep, take, length, All, arith, Bool-cases, inl, inr,
}
use web_socketaa_s.Model.Message.{Message}
use web_socketaa_s.Processor.Store.Missing.{
  IsMissing, is_other_for, keep-IsMissing, keep-others, keep-Perm,
}
use web_socketaa_s.Processor.Store.{
  Page, find_missing_messages, is_missing_for, insert_by_creation, sort_by_creation,
}

-- Each message was created no later than those after it.
abbrev pub IsSorted : List Message → Type 0
IsSorted [] = Unit
IsSorted (m ∷ ms) = All (λ x. m.created_at ≤ x.created_at) ms × IsSorted ms

module _ (P : Message → Type 0) where
  insert_by_creation-All :
      (m : Message) (xs : List Message) → P m → All P xs → All P (insert_by_creation m xs)
  insert_by_creation-All m [] p all = (p, tt)
  insert_by_creation-All m (x ∷ xs) p (here, all) =
      elim (Bool-cases (leb m.created_at x.created_at)) [
        | inl first ↦ rw first (p, (here, all))
        | inr later ↦ rw later (here, insert_by_creation-All m xs p all)
      ]

  sort_by_creation-All : (xs : List Message) → All P xs → All P (sort_by_creation xs)
  sort_by_creation-All [] all = tt
  sort_by_creation-All (x ∷ xs) (here, all) =
      insert_by_creation-All x (sort_by_creation xs) here (sort_by_creation-All xs all)

  take-All : (n : ℕ) (xs : List Message) → All P xs → All P (take n xs)
  take-All zero xs all = tt
  take-All (suc n) [] all = tt
  take-All (suc n) (x ∷ xs) (here, all) = (here, take-All n xs all)

weaken-All :
    (m x : Message) (xs : List Message)
    → m.created_at ≤ x.created_at
    → All (λ y. x.created_at ≤ y.created_at) xs
    → All (λ y. m.created_at ≤ y.created_at) xs
weaken-All m x [] le all = tt
weaken-All m x (y ∷ ys) le (here, all) = (omega (arith, le, here), weaken-All m x ys le all)

insert_by_creation-IsSorted :
    (m : Message) (xs : List Message) → IsSorted xs → IsSorted (insert_by_creation m xs)
insert_by_creation-IsSorted m [] s = (tt, tt)
insert_by_creation-IsSorted m (x ∷ xs) (least, s) =
    elim (Bool-cases (leb m.created_at x.created_at)) [
      | inl first ↦
          let le : m.created_at ≤ x.created_at = ground (arith, first) in
          rw first ((le, weaken-All m x xs le least), (least, s))
      | inr later ↦ rw later (
        insert_by_creation-All (λ y. x.created_at ≤ y.created_at) m xs (ground (arith, later))
            least,
        insert_by_creation-IsSorted m xs s,
      )
    ]

sort_by_creation-IsSorted : (xs : List Message) → IsSorted (sort_by_creation xs)
sort_by_creation-IsSorted [] = tt
sort_by_creation-IsSorted (x ∷ xs) =
    insert_by_creation-IsSorted x (sort_by_creation xs) (sort_by_creation-IsSorted xs)

take-IsSorted : (n : ℕ) (xs : List Message) → IsSorted xs → IsSorted (take n xs)
take-IsSorted zero xs s = tt
take-IsSorted (suc n) [] s = tt
take-IsSorted (suc n) (x ∷ xs) (least, s) = (take-All _ n xs least, take-IsSorted n xs s)

length-insert_by_creation :
    (m : Message) (xs : List Message) → length (insert_by_creation m xs) ≡ suc (length xs)
length-insert_by_creation m [] = refl
length-insert_by_creation m (x ∷ xs) = ground (arith, length-insert_by_creation m xs)

length-sort_by_creation : (xs : List Message) → length (sort_by_creation xs) ≡ length xs
length-sort_by_creation [] = refl
length-sort_by_creation (x ∷ xs) =
    ground (arith, length-insert_by_creation x (sort_by_creation xs), length-sort_by_creation xs)

length-take :
    (n : ℕ) (xs : List Message) → length (take n xs) ≡ (if leb n (length xs) then n else length xs)
length-take zero xs = ground arith
length-take (suc n) [] = ground arith
length-take (suc n) (x ∷ xs) = ground (arith, length-take n xs)

insert_by_creation-Perm :
    (m : Message) (xs : List Message) → Perm (insert_by_creation m xs) (m ∷ xs)
insert_by_creation-Perm m [] = Perm.refl (m ∷ [])
insert_by_creation-Perm m (x ∷ xs) = elim (Bool-cases (leb m.created_at x.created_at)) [
  | inl first ↦ rw first (Perm.refl (m ∷ x ∷ xs))
  | inr later ↦
      rw later (Perm.trans (Perm.cons x (insert_by_creation-Perm m xs)) (Perm.swap m x xs))
]

sort_by_creation-Perm : (xs : List Message) → Perm (sort_by_creation xs) xs
sort_by_creation-Perm [] = Perm.refl []
sort_by_creation-Perm (x ∷ xs) =
    Perm.trans (insert_by_creation-Perm x (sort_by_creation xs))
      (Perm.cons x (sort_by_creation-Perm xs))

-- What is left out of the first messages of a sorted list is no older than they are.
abbrev pub Precede : List Message → List Message → Type 0
Precede content rest = All (λ m. All (λ r. m.created_at ≤ r.created_at) rest) content

record Cut (n : ℕ) (xs : List Message) : Type 0 where
  rest : List Message
  whole : take n xs ++ rest ≡ xs
  older : Precede (take n xs) rest

drop_first :
    (m : Message) (ys zs : List Message)
    → All (λ x. m.created_at ≤ x.created_at) (ys ++ zs)
    → All (λ x. m.created_at ≤ x.created_at) zs
drop_first m [] zs all = all
drop_first m (y ∷ ys) zs (here, all) = drop_first m ys zs all

cut : (n : ℕ) (xs : List Message) → IsSorted xs → Cut n xs
cut zero xs s = record { rest = xs; whole = refl; older = tt }
cut (suc n) [] s = record { rest = []; whole = refl; older = tt }
cut (suc n) (x ∷ xs) (least, s) =
    let c = cut n xs s in
    record {
      rest = c.rest;
      whole = ap (λ r. x ∷ r) c.whole;
      older = (
        drop_first x (take n xs) c.rest
            (subst (All (λ y. x.created_at ≤ y.created_at)) (sym c.whole) least),
        c.older,
      );
    }

-- A page of missing messages, with the missing messages that stay behind and all other messages of
-- the repository.
pub record Paged (user_id : Option String) (size : ℕ) (messages : List Message) (page : Page)
    : Type 0 where
  pub rest : List Message
  pub others : List Message
  pub whole : Perm ((page.content ++ rest) ++ others) messages
  pub missing : All (IsMissing user_id) (page.content ++ rest)
  pub apart : All (λ m. ¬ IsMissing user_id m) others
  pub sorted : IsSorted page.content
  pub older : Precede page.content rest
  pub counted : page.total ≡ length page.content + length rest
  pub filled : length page.content ≡ (if leb size page.total then size else page.total)

-- All the messages of the repository are those of the page, the rest, and others: the page and the
-- rest are messages to the user whose state is ADDRESS_NOT_FOUND or NETWORK_ERROR, none of the others
-- is. The messages of the page are in the order of their creation, and none of the rest is older. The
-- total of the page is the number of its messages and the rest; the page is full, or it holds that
-- many.
pub find_missing_messages-Paged :
    (user_id : Option String) (size : ℕ) (messages : List Message)
    → Paged user_id size messages (find_missing_messages user_id size messages)
unfolding find_missing_messages
find_missing_messages-Paged user_id size messages =
    let found = keep (is_missing_for user_id) messages in
    let others = keep (is_other_for user_id) messages in
    let sorted = sort_by_creation found in
    let c = cut size sorted (sort_by_creation-IsSorted found) in
    record {
      rest = c.rest;
      others = others;
      whole =
          subst (λ xs. Perm (xs ++ others) messages) (sym c.whole)
            (Perm.trans (Perm.append_right others (sort_by_creation-Perm found))
              (keep-Perm user_id messages));
      missing =
          subst (All (IsMissing user_id)) (sym c.whole)
            (sort_by_creation-All (IsMissing user_id) found (keep-IsMissing user_id messages));
      apart = keep-others user_id messages;
      sorted = take-IsSorted size _ (sort_by_creation-IsSorted found);
      older = c.older;
      counted =
          sym (length-sort_by_creation found)
          ∙ ap (λ (xs : List Message). length xs) (sym c.whole)
          ∙ length-append (take size sorted) c.rest;
      filled = rw⁻¹ (length-sort_by_creation found) (length-take size sorted);
    }
