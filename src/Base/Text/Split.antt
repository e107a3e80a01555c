-- ===== src/Base/Text/Split.antt =====
-- `strings.Split` and `strings.Join`, and `strings.Replace` of one character.
use Prim.Native.Nat.{ℕ}
use Prim.Native.Char.{Char, code}
use Prim.Native.String.{String, ◌++◌ as ◌<>◌}
use mathlib.Core.List.{List, [], ◌∷◌}
use ocs_osd_deployer.Base.Tests.{◌==◌, if◌then◌else◌}

-- A character put in front of the first piece.
abbrev pub push_first : Char → List String → List String
push_first x [] = String.◌∷◌ x "" ∷ []
push_first x (p ∷ ps) = String.◌∷◌ x p ∷ ps

-- `strings.Split(s, "c")`: one piece more than there are separators.
unfoldable pub split : ℕ → String → List String
split c String.[] = "" ∷ []
split c (String.◌∷◌ x s) =
    let pieces = split c s in if code x == c then "" ∷ pieces else push_first x pieces

-- `strings.Join(pieces, sep)`
unfoldable pub join : String → List String → String
join sep [] = ""
join sep (p ∷ []) = p
join sep (p ∷ q ∷ ps) = p <> (sep <> join sep (q ∷ ps))

-- `strings.Replace(s, "c", "d", -1)`
unfoldable pub replace : ℕ → Char → String → String
replace c d String.[] = ""
replace c d (String.◌∷◌ x s) = String.◌∷◌ (if code x == c then d else x) (replace c d s)
