-- ===== src/Base/Text/Chars.antt =====
-- `strings.ToLower`, and cuts at a position.
use Prim.Native.Nat.{ℕ, zero, suc}
use Prim.Native.Char.{Char, code}
use Prim.Native.String.{String}
use mathlib.Core.Bool.{Bool, true, false}
use mathlib.Core.Option.{Option, none, some}
use ocs_osd_deployer.Base.Tests.{◌==◌, if◌then◌else◌}

-- The character at the place in the second text where the first has the character `c`.
abbrev translate : String → String → Char → Char
translate (String.◌∷◌ u upper) (String.◌∷◌ l lower) c =
    if code u == code c then l else translate upper lower c
translate _ _ c = c

-- Lower case of a character. Besides A-Z only U+0130 and U+212A become ASCII letters, so a test
-- against an ASCII word is exact; no other letter is changed here.
unfoldable pub lower_char : Char → Char
lower_char c = translate "ABCDEFGHIJKLMNOPQRSTUVWXYZİK" "abcdefghijklmnopqrstuvwxyzik" c

-- `strings.ToLower`
unfoldable pub to_lower : String → String
unfolding lower_char
to_lower String.[] = ""
to_lower (String.◌∷◌ c s) = String.◌∷◌ (lower_char c) (to_lower s)

-- `strings.LastIndex(s, "c")`, counted in characters.
unfoldable pub last_index : String → ℕ → Option ℕ
last_index String.[] c = none
last_index (String.◌∷◌ x s) c = elim (last_index s c) [
  | some i ↦ some (suc i)
  | none ↦ if code x == c then some 0 else none
]

-- `s[0:n]`
unfoldable pub slice_to : String → ℕ → String
slice_to String.[] n = ""
slice_to (String.◌∷◌ x s) zero = ""
slice_to (String.◌∷◌ x s) (suc n) = String.◌∷◌ x (slice_to s n)

-- Some character of the text has the code.
unfoldable pub has_char : ℕ → String → Bool
has_char c String.[] = false
has_char c (String.◌∷◌ x s) = if code x == c then true else has_char c s
