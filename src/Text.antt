-- ===== src/Text.antt =====
-- strings.Split, TrimSpace, Contains and Cut, and strconv.Atoi, as the directives of a Cache-Control
-- header are read with them.
pub mod Parts
use Prim.Native.String.{String as Text, len, find}
use Prim.Native.Char.{Char, code}
use bduts.Prelude.{
  ℕ, zero, suc, ◌+◌, ◌-◌, ◌*◌, Bool, ◌&&◌, ◌||◌, List, [], ◌∷◌, Option, none, some, ltb, leb, ◌==◌,
  if◌then◌else◌,
}
use bduts.Prelude.Int.{ℤ, pos, negsuc, half64}
use bduts.Http.{is_empty}

-- unicode.IsSpace
abbrev pub is_space : ℕ → Bool
is_space n =
    leb 9 n && leb n 13
    || n == 32
    || n == 133
    || n == 160
    || n == 5760
    || leb 8192 n && leb n 8202
    || n == 8232
    || n == 8233
    || n == 8239
    || n == 8287
    || n == 12288

unfoldable pub trim_left : Text → Text
trim_left Text.[] = ""
trim_left (Text.◌∷◌ c s) =
    let rest = trim_left s in if is_space (code c) then rest else Text.◌∷◌ c s

unfoldable pub trim_right : Text → Text
trim_right Text.[] = ""
trim_right (Text.◌∷◌ c s) =
    let rest = trim_right s in if is_empty rest && is_space (code c) then "" else Text.◌∷◌ c rest

-- strings.TrimSpace
abbrev pub trim_space : Text → Text
trim_space s = trim_right (trim_left s)

abbrev pub push : Char → List Text → List Text
push c [] = Text.◌∷◌ c "" ∷ []
push c (part ∷ parts) = Text.◌∷◌ c part ∷ parts

-- strings.Split at one character, given by its code
unfoldable pub split : ℕ → Text → List Text
split separator Text.[] = "" ∷ []
split separator (Text.◌∷◌ c s) =
    let rest = split separator s in if code c == separator then "" ∷ rest else push c rest

-- strings.Contains
abbrev pub contains : Text → Text → Bool
contains s t = leb (find s t) (len s)

-- The second value of strings.Cut(s, "=")
unfoldable pub after_cut : Text → Text
after_cut Text.[] = ""
after_cut (Text.◌∷◌ c s) = let rest = after_cut s in if code c == b'=' then s else rest

abbrev pub max_uint64 : ℕ
max_uint64 = 18446744073709551615

-- strconv.ParseUint from the digits read so far: `none` is a syntax error, and a value out of range
-- ends the reading.
unfoldable pub digits : ℕ → Text → Option ℕ
digits n Text.[] = some n
digits n (Text.◌∷◌ c s) =
    let n' = n * 10 + (code c - b'0') in
    let rest = digits n' s in
    if leb b'0' (code c) && leb (code c) b'9'
    then (if ltb max_uint64 n' then some max_uint64 else rest)
    else none

abbrev pub magnitude : Text → ℕ
magnitude Text.[] = 0
magnitude (Text.◌∷◌ c s) = elim (digits 0 (Text.◌∷◌ c s)) [ none ↦ 0 | some n ↦ n ]

abbrev pub up_to_max : ℕ → ℤ
up_to_max n = if ltb n half64 then pos n else pos (half64 - 1)

abbrev pub down_to_min : ℕ → ℤ
down_to_min zero = pos 0
down_to_min (suc n) = if ltb n half64 then negsuc n else negsuc (half64 - 1)

-- The first value of strconv.Atoi: 0 at a syntax error, the bound where the value is out of range
unfoldable pub atoi : Text → ℤ
unfolding digits
atoi Text.[] = pos 0
atoi (Text.◌∷◌ c s) =
    if code c == b'-'
    then down_to_min (magnitude s)
    else if code c == b'+'
    then up_to_max (magnitude s)
    else up_to_max (magnitude (Text.◌∷◌ c s))
