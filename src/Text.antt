-- ===== src/Text.antt =====
-- Texts: what the program asks of Apache `StringUtils`, a library outside the repository, as an
-- interface with its documented laws; and Java's own `Long.parseLong` and `Long.toString`.
-- A reference of type `String` that may be null is an `Option String`.
pub mod Numbers
pub mod Plain
use Prim.Native.Char.{Char, code}
use Prim.Native.String
use web_socketaa_s.Prelude.{
  ◌≤◌, String, ◌≡◌, Option, none, some, Bool, true, false, not, List, [], ◌∷◌, ◌==◌,
}

pub record StringUtils : Type 0 where
  pub blank : String → Bool
  pub same_ignoring_case : String → String → Bool
  pub prefix_ignoring_case : String → String → Bool
  pub split : String → String → List String
  -- the documented facts that the theorems rely on
  pub blank_empty : blank "" ≡ true
  pub blank_visible :
      (c : Char) (s : String) → 33 ≤ code c → code c ≤ 126 → blank (String.◌∷◌ c s) ≡ false
  pub same_ignoring_case_refl : (s : String) → same_ignoring_case s s ≡ true
  pub prefix_ignoring_case_refl : (s : String) → prefix_ignoring_case s s ≡ true

-- `isEmpty`, `isNotEmpty`: null counts as empty
abbrev pub is_empty : Option String → Bool
is_empty none = true
is_empty (some s) = s == ""

-- `Objects.equals` and `StringUtils.equals`
abbrev pub equals : Option String → Option String → Bool
equals none none = true
equals (some a) (some b) = a == b
equals _ _ = false

module _ (u : StringUtils) where
  -- `isBlank`, `isNotBlank`: null counts as blank
  abbrev pub is_blank : Option String → Bool
  is_blank none = true
  is_blank (some s) = u.blank s

  abbrev pub equals_ignore_case : Option String → Option String → Bool
  equals_ignore_case none none = true
  equals_ignore_case (some a) (some b) = u.same_ignoring_case a b
  equals_ignore_case _ _ = false

  abbrev pub starts_with_ignore_case : Option String → String → Bool
  starts_with_ignore_case none prefix = false
  starts_with_ignore_case (some s) prefix = u.prefix_ignoring_case s prefix
