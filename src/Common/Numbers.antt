-- ===== src/Common/Numbers.antt =====
-- Integers over the native numbers, and Python's `int` of a text.
use Prim.Native.Nat.{ℕ, ◌+◌, ◌-◌, ◌*◌}
use Prim.Native.Char.{Char, code}
use Prim.Native.String.{String}
use mathlib.Core.Bool.{Bool, true, false, ◌&&◌, ◌||◌}
use mathlib.Core.Option.{Option, none, some}
use soc_dashboard.Common.Tests.{◌==◌, nat_eq, leb, if◌then◌else◌}
use soc_dashboard.Common.Texts.{is_space}

-- `negsuc n` is -(n + 1)
pub data ℤ : Type 0 where
  pos : ℕ → ℤ
  negsuc : ℕ → ℤ

abbrev pub negate : ℕ → ℤ
negate n = if n == 0 then pos 0 else negsuc (n - 1)

-- The spaces that `int` skips: those of C's isspace, and beyond ASCII those of `str.isspace`.
unfoldable pub skips : Char → Bool
unfolding is_space
skips c =
    (leb 9 (code c) && leb (code c) 13) || code c == 32 || (leb 128 (code c) && is_space (code c))

unfoldable pub all_skipped : String → Bool
all_skipped String.[] = true
all_skipped (String.◌∷◌ c s) = skips c && all_skipped s

-- The digits, with single underscores between them, then spaces: `digits` counts them, and
-- `after_digit` tells whether the last character was one. More than 4300 digits are refused.
unfoldable pub digits_from : (Char → Option ℕ) → ℕ → ℕ → Bool → String → Option ℕ
digits_from decimal_of value digits after_digit String.[] =
    if after_digit && leb digits 4300 then some value else none
digits_from decimal_of value digits after_digit (String.◌∷◌ c s) = elim (decimal_of c) [
  | some d ↦ digits_from decimal_of (value * 10 + d) (digits + 1) true s
  | none ↦
      let next = digits_from decimal_of value digits false s in
      if after_digit
      then (if code c == 95
          then next
          else if skips c && all_skipped s && leb digits 4300
          then some value
          else none)
      else none
]

abbrev as_pos : Option ℕ → Option ℤ
as_pos none = none
as_pos (some n) = some (pos n)

abbrev as_neg : Option ℕ → Option ℤ
as_neg none = none
as_neg (some n) = some (negate n)

-- The spaces in front, one sign, the digits.
unfoldable pub signed_from : (Char → Option ℕ) → String → Option ℤ
signed_from decimal_of String.[] = none
signed_from decimal_of (String.◌∷◌ c s) =
    let rest = signed_from decimal_of s in
    if skips c
    then rest
    else if code c == 43
    then as_pos (digits_from decimal_of 0 0 false s)
    else if code c == 45
    then as_neg (digits_from decimal_of 0 0 false s)
    else as_pos (digits_from decimal_of 0 0 false (String.◌∷◌ c s))

-- `int(s)`, nothing where it raises ValueError; the Unicode decimal digits are the argument.
unfoldable pub int_of : (Char → Option ℕ) → String → Option ℤ
int_of decimal_of s = signed_from decimal_of s
