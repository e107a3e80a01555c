-- ===== src/Base/Text/Number.antt =====
-- `strconv.Atoi`, `strconv.ParseBool` and the decimal text of a number.
use Prim.Native.Nat.{ℕ, ◌+◌, ◌-◌, ◌*◌, ◌^◌}
use Prim.Native.Char.{code}
use Prim.Native.String.{String}
use mathlib.Core.Bool.{Bool, true, false, ◌&&◌, ◌||◌}
use mathlib.Core.Option.{Option, none, some}
use mathlib.Core.Option
use text.Mathlib.Text.{◌==◌ as str_eq}
use ocs_osd_deployer.Base.Tests.{leb, ltb, ◌==◌, if◌then◌else◌}
use ocs_osd_deployer.Base.Int.{ℤ, pos, neg_ℕ}

-- The digits of a text, read from the left behind the number read so far.
unfoldable pub digits_from : ℕ → String → Option ℕ
digits_from acc String.[] = some acc
digits_from acc (String.◌∷◌ x s) =
    let rest = digits_from (10 * acc + (code x - b'0')) s in
    if leb b'0' (code x) && leb (code x) b'9' then rest else none

-- One digit at least.
unfoldable pub digits : String → Option ℕ
unfolding digits_from
digits String.[] = none
digits (String.◌∷◌ x s) = digits_from 0 (String.◌∷◌ x s)

-- A value of the 64-bit `int`, or the range error.
abbrev pub below : ℕ → ℕ → Option ℕ
below bound n = if ltb n bound then some n else none

-- `strconv.Atoi`: an optional sign, then digits, within 64 bits.
unfoldable pub atoi : String → Option ℤ
unfolding digits
atoi String.[] = none
atoi (String.◌∷◌ x s) =
    if code x == b'-'
    then elim (digits s) [ none ↦ none | some n ↦ Option.map neg_ℕ (below (2 ^ 63 + 1) n) ]
    else if code x == b'+'
    then elim (digits s) [ none ↦ none | some n ↦ Option.map pos (below (2 ^ 63) n) ]
    else elim (digits (String.◌∷◌ x s)) [ none ↦ none | some n ↦ Option.map pos (below (2 ^ 63) n) ]

abbrev is_true : String → Bool
is_true s =
    str_eq s "1"
    || str_eq s "t"
    || str_eq s "T"
    || str_eq s "TRUE"
    || str_eq s "true"
    || str_eq s "True"

abbrev is_false : String → Bool
is_false s =
    str_eq s "0"
    || str_eq s "f"
    || str_eq s "F"
    || str_eq s "FALSE"
    || str_eq s "false"
    || str_eq s "False"

-- `strconv.ParseBool`
unfoldable pub parse_bool : String → Option Bool
parse_bool s = if is_true s then some true else if is_false s then some false else none
