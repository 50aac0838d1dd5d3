-- ===== src/Text/Plain.antt =====
-- A concrete implementation of the text interface for ASCII, used to run the model.
use Prim.Native.Char.{Char, code}
use Prim.Native.String
use Prim.Native.String.{[], ◌∷◌}
use web_socketaa_s.Prelude.{
  ℕ, ◌+◌, ◌≤◌, String, ◌≡◌, refl, Bool, true, false, ◌&&◌, ◌||◌, List, leb, nat_eq, if◌then◌else◌,
  arith,
}
use web_socketaa_s.Text.{StringUtils}

-- `Character.isWhitespace` below 128
abbrev is_space : Char → Bool
is_space c = (leb 9 (code c) && leb (code c) 13) || (leb 28 (code c) && leb (code c) 32)

abbrev blank : String → Bool
blank [] = true
blank (c ∷ s) = is_space c && blank s

abbrev lower : Char → ℕ
lower c = if leb b'A' (code c) && leb (code c) b'Z' then code c + 32 else code c

abbrev same : String → String → Bool
same [] [] = true
same (c ∷ s) (d ∷ t) = nat_eq (lower c) (lower d) && same s t
same _ _ = false

abbrev prefix : String → String → Bool
prefix s [] = true
prefix (c ∷ s) (d ∷ t) = nat_eq (lower c) (lower d) && prefix s t
prefix _ _ = false

abbrev member : Char → String → Bool
member c [] = false
member c (d ∷ s) = nat_eq (code c) (code d) || member c s

-- adjacent separators count as one
abbrev close : String → List String → List String
close [] parts = parts
close (c ∷ s) parts = List.◌∷◌ (c ∷ s) parts

abbrev split_from : String → String → String → List String
split_from seps cur [] = close cur List.[]
split_from seps cur (c ∷ s) = elim (member c seps) [
  | true ↦ close cur (split_from seps "" s)
  | false ↦ split_from seps (String.◌++◌ cur (c ∷ [])) s
]

pub same_refl : (s : String) → same s s ≡ true
same_refl [] = refl
same_refl (c ∷ s) = ground (arith, same_refl s)

pub prefix_refl : (s : String) → prefix s s ≡ true
prefix_refl [] = refl
prefix_refl (c ∷ s) = ground (arith, prefix_refl s)

pub blank-visible : (c : Char) (s : String) → 33 ≤ code c → code c ≤ 126 → blank (c ∷ s) ≡ false
blank-visible c s low high = ground arith

abbrev pub plain : StringUtils
plain = record {
  blank = blank;
  same_ignoring_case = same;
  prefix_ignoring_case = prefix;
  split = λ s seps. split_from seps "" s;
  blank_empty = refl;
  blank_visible = blank-visible;
  same_ignoring_case_refl = same_refl;
  prefix_ignoring_case_refl = prefix_refl;
}

split_test : plain.split "ANZ--123" "-" ≡ List.◌∷◌ "ANZ" (List.◌∷◌ "123" List.[])
split_test = refl
