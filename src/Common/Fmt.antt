-- ===== src/Common/Fmt.antt =====
-- The verbs `%d` and `%s` of Go's fmt package, as far as keys and names are built with them, and
-- `TrimSpace` and comparison in upper case of its strings package.
use Prim.Native.Nat.{ℕ, zero, suc, ◌/◌, ◌%◌, ◌-◌}
use Prim.Native.String.{String, ◌++◌}
use Prim.Native.Char.{code}
use mathlib.Core.Bool.{Bool, true, false, ◌&&◌, ◌||◌}
use ticket_hub.Common.Tests.{leb, ltb, nat_eqb, if◌then◌else◌, ◌==◌, string_eq}
use ticket_hub.Common.Int.{ℤ, pos, negsuc}

infixr 65 ◌<>◌
abbrev pub ◌<>◌ : String → String → String
a <> b = a ++ b

abbrev digit : ℕ → String
digit d =
    if nat_eqb d 0
    then "0"
    else if nat_eqb d 1
    then "1"
    else if nat_eqb d 2
    then "2"
    else if nat_eqb d 3
    then "3"
    else if nat_eqb d 4
    then "4"
    else if nat_eqb d 5
    then "5"
    else if nat_eqb d 6
    then "6"
    else if nat_eqb d 7
    then "7"
    else if nat_eqb d 8
    then "8"
    else "9"

-- A number has at most as many digits as its value plus one.
digits_of : ℕ → ℕ → String
digits_of zero n = ""
digits_of (suc fuel) n =
    let front = digits_of fuel (n / 10) in if ltb n 10 then digit n else front <> digit (n % 10)

unfoldable pub show_ℤ : ℤ → String
unfolding digits_of
show_ℤ (pos n) = digits_of (suc n) n
show_ℤ (negsuc n) = "-" <> digits_of (suc (suc n)) (suc n)

-- `unicode.IsSpace`
unfoldable pub is_space : ℕ → Bool
is_space c =
    (leb 9 c && leb c 13)
    || nat_eqb c 32
    || nat_eqb c 133
    || nat_eqb c 160
    || nat_eqb c 5760
    || (leb 8192 c && leb c 8202)
    || nat_eqb c 8232
    || nat_eqb c 8233
    || nat_eqb c 8239
    || nat_eqb c 8287
    || nat_eqb c 12288

-- `strings.TrimSpace`: first the front, then the back.
unfoldable pub trim_left : String → String
unfolding is_space
trim_left String.[] = ""
trim_left (String.◌∷◌ c s) =
    let rest = trim_left s in if is_space (code c) then rest else String.◌∷◌ c s

unfoldable pub trim_right : String → String
unfolding is_space
trim_right String.[] = ""
trim_right (String.◌∷◌ c s) =
    let rest = trim_right s in if is_space (code c) && rest == "" then "" else String.◌∷◌ c rest

-- The upper case of a character, as far as it is in ASCII; there are two others whose upper case is.
unfoldable pub upper_code : ℕ → ℕ
upper_code c =
    if leb 97 c && leb c 122
    then c - 32
    else if nat_eqb c 305
    then 73
    else if nat_eqb c 383
    then 83
    else c

-- `strings.ToUpper(s) == t`, for a text of ASCII characters.
unfoldable pub upper_equals : String → String → Bool
unfolding upper_code
upper_equals String.[] String.[] = true
upper_equals String.[] (String.◌∷◌ d t) = false
upper_equals (String.◌∷◌ c s) String.[] = false
upper_equals (String.◌∷◌ c s) (String.◌∷◌ d t) =
    nat_eqb (upper_code (code c)) (code d) && upper_equals s t
