-- ===== src/Common/Texts.antt =====
-- What the program uses of Python's `str`: strip, upper, isascii, join.
use Prim.Native.Nat.{ℕ}
use Prim.Native.Char.{Char, code}
use Prim.Native.String.{String, ◌++◌}
use mathlib.Core.Path.{◌≡◌, refl}
use mathlib.Core.Bool.{Bool, true, ◌&&◌, ◌||◌}
use mathlib.Core.List.{List}
use soc_dashboard.Common.Tests.{◌==◌, nat_eq, text_eq, ltb, leb, if◌then◌else◌}

-- `str.isspace` of one character: the code points that `strip` removes.
unfoldable pub is_space : ℕ → Bool
is_space c =
    (leb 9 c && leb c 13)
    || (leb 28 c && leb c 32)
    || c == 0x85
    || c == 0xa0
    || c == 0x1680
    || (leb 0x2000 c && leb c 0x200a)
    || c == 0x2028
    || c == 0x2029
    || c == 0x202f
    || c == 0x205f
    || c == 0x3000

-- `s.lstrip()`
unfoldable pub lstrip : String → String
unfolding is_space
lstrip String.[] = ""
lstrip (String.◌∷◌ c s) = let rest = lstrip s in if is_space (code c) then rest else String.◌∷◌ c s

-- A character before an already stripped rest: kept unless it is a trailing space.
unfoldable pub put_back : Char → String → String
unfolding is_space
put_back c rest = if is_space (code c) && rest == "" then "" else String.◌∷◌ c rest

-- `s.rstrip()`
unfoldable pub rstrip : String → String
unfolding put_back
rstrip String.[] = ""
rstrip (String.◌∷◌ c s) = put_back c (rstrip s)

-- `s.strip()`
unfoldable pub strip : String → String
unfolding lstrip rstrip
strip s = rstrip (lstrip s)

-- `s.upper()`: each character is replaced by its upper-case text, which the Unicode table gives.
unfoldable pub upper : (Char → String) → String → String
upper table String.[] = ""
upper table (String.◌∷◌ c s) = table c ++ upper table s

-- `s.isascii()`
unfoldable pub is_ascii : String → Bool
is_ascii String.[] = true
is_ascii (String.◌∷◌ c s) = ltb (code c) 128 && is_ascii s

-- `sep.join(parts)`
unfoldable pub join : String → List String → String
join sep List.[] = ""
join sep (List.◌∷◌ part List.[]) = part
join sep (List.◌∷◌ part (List.◌∷◌ next rest)) = part ++ (sep ++ join sep (List.◌∷◌ next rest))

strip_test : strip " \t Emotet on host  " ≡ "Emotet on host"
unfolding strip
strip_test = refl

join_test : join " " (List.◌∷◌ "a" (List.◌∷◌ "b" List.[])) ≡ "a b"
unfolding join
join_test = refl
