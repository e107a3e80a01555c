-- ===== src/Base/Text/Decimal.antt =====
-- `strings.TrimSpace`, and `%v` of a number that is not negative, which can be read back.
use Prim.Native.Nat.{ℕ, zero, suc, ◌+◌, ◌-◌, ◌*◌, ◌/◌, ◌%◌, ◌<◌}
use Prim.Native.Char.{Char, code}
use Prim.Native.String.{String}
use mathlib.Core.Path.{◌≡◌, refl, sym, ◌∙◌, ap}
use mathlib.Core.Bool.{Bool, ◌&&◌, ◌||◌}
use mathlib.Core.Option.{none, some, some-injective}
use native.Mathlib.Omega.{arith}
use text.Mathlib.Text.{◌==◌ as str_eq}
use ocs_osd_deployer.Base.Tests.{leb, ltb, ◌==◌, if◌then◌else◌, Bool-cases}
use ocs_osd_deployer.Base.Text.Number.{digits_from}
use mathlib.Core.Logic.{inl, inr}

-- Unicode's white space.
abbrev is_space : ℕ → Bool
is_space c =
    (leb 9 c && leb c 13)
    || c == 32
    || c == 0x85
    || c == 0xa0
    || c == 0x1680
    || (leb 0x2000 c && leb c 0x200a)
    || c == 0x2028
    || c == 0x2029
    || c == 0x202f
    || c == 0x205f
    || c == 0x3000

abbrev trim_left : String → String
trim_left String.[] = ""
trim_left (String.◌∷◌ c s) =
    let rest = trim_left s in if is_space (code c) then rest else String.◌∷◌ c s

abbrev trim_right : String → String
trim_right String.[] = ""
trim_right (String.◌∷◌ c s) =
    let rest = trim_right s in if is_space (code c) && str_eq rest "" then "" else String.◌∷◌ c rest

-- `strings.TrimSpace`
unfoldable pub trim_space : String → String
trim_space s = trim_right (trim_left s)

-- The character of a digit.
abbrev digit : ℕ → Char
digit zero = "0"
digit (suc zero) = "1"
digit (suc (suc zero)) = "2"
digit (suc (suc (suc zero))) = "3"
digit (suc (suc (suc (suc zero)))) = "4"
digit (suc (suc (suc (suc (suc zero))))) = "5"
digit (suc (suc (suc (suc (suc (suc zero)))))) = "6"
digit (suc (suc (suc (suc (suc (suc (suc zero))))))) = "7"
digit (suc (suc (suc (suc (suc (suc (suc (suc zero)))))))) = "8"
digit _ = "9"

-- The digits of `n` in front of `rest`; the fuel is more than `n`.
decimal_onto : ℕ → ℕ → String → String
decimal_onto zero n rest = rest
decimal_onto (suc f) n rest =
    let more = decimal_onto f (n / 10) (String.◌∷◌ (digit (n % 10)) rest) in
    if ltb n 10 then String.◌∷◌ (digit n) rest else more

unfoldable pub decimal : ℕ → String
unfolding decimal_onto
decimal n = decimal_onto (suc n) n ""

code-digit : (d : ℕ) → d < 10 → code (digit d) ≡ d + 48
code-digit zero h = refl
code-digit (suc zero) h = refl
code-digit (suc (suc zero)) h = refl
code-digit (suc (suc (suc zero))) h = refl
code-digit (suc (suc (suc (suc zero)))) h = refl
code-digit (suc (suc (suc (suc (suc zero))))) h = refl
code-digit (suc (suc (suc (suc (suc (suc zero)))))) h = refl
code-digit (suc (suc (suc (suc (suc (suc (suc zero))))))) h = refl
code-digit (suc (suc (suc (suc (suc (suc (suc (suc zero)))))))) h = refl
code-digit (suc (suc (suc (suc (suc (suc (suc (suc (suc zero))))))))) h = refl
code-digit (suc (suc (suc (suc (suc (suc (suc (suc (suc (suc d)))))))))) h = absurd (omega arith)

read_code :
    (acc c d : ℕ) (rest : String)
    → c ≡ d + 48
    → d < 10
    → (if leb 48 c && leb c 57 then digits_from (10 * acc + (c - 48)) rest else none)
      ≡ digits_from (10 * acc + d) rest
read_code acc c d rest e h = ground arith

-- One digit is read.
digits_from-digit :
    (acc d : ℕ) (rest : String)
    → d < 10
    → digits_from acc (String.◌∷◌ (digit d) rest) ≡ digits_from (10 * acc + d) rest
unfolding digits_from
digits_from-digit acc d rest h = read_code acc (code (digit d)) d rest (code-digit d h) h

-- All the digits are read.
digits_from-decimal_onto :
    (f n : ℕ) (rest : String) → n < f → digits_from 0 (decimal_onto f n rest) ≡ digits_from n rest
unfolding decimal_onto
digits_from-decimal_onto zero n rest h = absurd (omega arith)
digits_from-decimal_onto (suc f) n rest h = elim (Bool-cases (ltb n 10)) [
  | inl e ↦
      rw e (digits_from-digit 0 n rest (ground arith) ∙ ap (λ k. digits_from k rest) (omega arith))
  | inr e ↦ rw e (
      digits_from-decimal_onto f (n / 10) (String.◌∷◌ (digit (n % 10)) rest) (ground arith)
      ∙ digits_from-digit (n / 10) (n % 10) rest (omega arith)
      ∙ ap (λ k. digits_from k rest) (omega arith))
]

-- The text of a number is read back as the number.
pub digits_from-decimal : (n : ℕ) → digits_from 0 (decimal n) ≡ some n
unfolding decimal digits_from
digits_from-decimal n = digits_from-decimal_onto (suc n) n "" (omega arith)

-- Different numbers have different texts.
pub decimal-injective : (m n : ℕ) → decimal m ≡ decimal n → m ≡ n
decimal-injective m n e =
    some-injective m n (sym (digits_from-decimal m) ∙ ap (digits_from 0) e ∙ digits_from-decimal n)
