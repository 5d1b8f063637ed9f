-- ===== src/Base/Text.antt =====
-- Python's text functions, as far as the scripts use them, over the native texts.
use Prim.Native.Nat.{ℕ, zero, suc, ◌+◌, ◌-◌, ◌*◌, ◌/◌, ◌%◌}
use Prim.Native.Char.{Char, code}
use Prim.Native.String.{String, ◌++◌ as ◌<>◌}
use mathlib.Core.Bool.{Bool, true, false, ◌&&◌, ◌||◌}
use mathlib.Core.Option.{none, some}
use mathlib.Core.List.{List, [], ◌∷◌}
use text.Mathlib.Text.{find?}
use hp_lj_1020_driver.Base.Tests.{ltb, leb, ◌==◌, if◌then◌else◌}

-- `str.isspace`, for one code point
abbrev pub is_space : ℕ → Bool
is_space c =
    (leb 9 c && leb c 13)
    || (leb 28 c && leb c 32)
    || c == 133
    || c == 160
    || c == 5760
    || (leb 8192 c && leb c 8202)
    || c == 8232
    || c == 8233
    || c == 8239
    || c == 8287
    || c == 12288

-- the line boundaries of `str.splitlines`
abbrev pub is_line_break : ℕ → Bool
is_line_break c =
    (leb 10 c && leb c 13) || (leb 28 c && leb c 30) || c == 133 || c == 8232 || c == 8233

unfoldable pub left_strip : String → String
left_strip String.[] = String.[]
left_strip (String.◌∷◌ c s) = if is_space (code c) then left_strip s else String.◌∷◌ c s

abbrev cons_unless_space : Char → String → String
cons_unless_space c String.[] = if is_space (code c) then String.[] else String.◌∷◌ c String.[]
cons_unless_space c (String.◌∷◌ d s) = String.◌∷◌ c (String.◌∷◌ d s)

unfoldable pub right_strip : String → String
right_strip String.[] = String.[]
right_strip (String.◌∷◌ c s) = cons_unless_space c (right_strip s)

-- `s.strip()`
unfoldable pub strip : String → String
unfolding left_strip right_strip
strip s = right_strip (left_strip s)

abbrev starts_with_newline : String → Bool
starts_with_newline String.[] = false
starts_with_newline (String.◌∷◌ c s) = code c == 10

abbrev cons_first_line : Char → List String → List String
cons_first_line c [] = String.◌∷◌ c String.[] ∷ []
cons_first_line c (l ∷ ls) = String.◌∷◌ c l ∷ ls

-- `s.splitlines()`; a carriage return before a newline is one boundary with it
unfoldable pub split_lines : String → List String
split_lines String.[] = []
split_lines (String.◌∷◌ c s) =
    let rest = split_lines s in
    if code c == 13 && starts_with_newline s
    then rest
    else if is_line_break (code c)
    then String.[] ∷ rest
    else cons_first_line c rest

abbrev pub codes : String → List ℕ
codes String.[] = []
codes (String.◌∷◌ c s) = code c ∷ codes s

-- The texts of one character that `for c in s` goes over
abbrev pub characters : String → List String
characters String.[] = []
characters (String.◌∷◌ c s) = (String.◌∷◌ c String.[]) ∷ characters s

-- `str.lower` on ASCII letters; other code points stay
abbrev lower_code : ℕ → ℕ
lower_code c = if leb b'A' c && leb c b'Z' then c + 32 else c

abbrev lower_codes : String → List ℕ
lower_codes String.[] = []
lower_codes (String.◌∷◌ c s) = lower_code (code c) ∷ lower_codes s

abbrev begins_with : List ℕ → List ℕ → Bool
begins_with [] ys = true
begins_with (x ∷ xs) [] = false
begins_with (x ∷ xs) (y ∷ ys) = x == y && begins_with xs ys

abbrev has_infix : List ℕ → List ℕ → Bool
has_infix xs [] = begins_with xs []
has_infix xs (y ∷ ys) = begins_with xs (y ∷ ys) || has_infix xs ys

-- `needle in s.lower()`
unfoldable pub lower_contains : String → String → Bool
lower_contains needle s = has_infix (codes needle) (lower_codes s)

-- `needle in s`
unfoldable pub contains : String → String → Bool
contains needle s = elim (find? s needle) [ none ↦ false | some _ ↦ true ]

abbrev pub all_digits : String → Bool
all_digits String.[] = true
all_digits (String.◌∷◌ c s) = leb b'0' (code c) && leb (code c) b'9' && all_digits s

-- `s.isdigit()`, on ASCII
unfoldable pub is_digits : String → Bool
is_digits String.[] = false
is_digits (String.◌∷◌ c s) = all_digits (String.◌∷◌ c s)

abbrev digits_from : ℕ → String → ℕ
digits_from n String.[] = n
digits_from n (String.◌∷◌ c s) = digits_from (n * 10 + (code c - 48)) s

-- `int(s)`, for a text of ASCII digits
unfoldable pub to_number : String → ℕ
to_number s = digits_from 0 s

-- `s or t`, for texts
abbrev pub or_text : String → String → String
or_text String.[] t = t
or_text (String.◌∷◌ c s) t = String.◌∷◌ c s

-- `bool(s)`
abbrev pub is_nonempty : String → Bool
is_nonempty String.[] = false
is_nonempty (String.◌∷◌ c s) = true

-- `sep.join(xs)`
unfoldable pub join : String → List String → String
join sep [] = ""
join sep (x ∷ []) = x
join sep (x ∷ y ∷ xs) = x <> sep <> join sep (y ∷ xs)

abbrev digit : ℕ → String
digit n =
    if n == 0
    then "0"
    else if n == 1
    then "1"
    else if n == 2
    then "2"
    else if n == 3
    then "3"
    else if n == 4
    then "4"
    else if n == 5
    then "5"
    else if n == 6
    then "6"
    else if n == 7
    then "7"
    else if n == 8
    then "8"
    else "9"

-- The last `fuel` decimal digits of a number, without leading zeros.
abbrev decimal_from : ℕ → ℕ → String
decimal_from zero n = ""
decimal_from (suc fuel) n = elim (ltb n 10) [
  | true ↦ digit n
  | false ↦ decimal_from fuel (n / 10) <> digit (n % 10)
]

-- `str(n)`; a number has fewer digits than its successor says.
unfoldable pub decimal : ℕ → String
decimal n = decimal_from (suc n) n

-- `s.split("=", 1)[1]`, for a text with an equals sign
unfoldable pub after_equals : String → String
after_equals String.[] = String.[]
after_equals (String.◌∷◌ c s) = if code c == b'=' then s else after_equals s

abbrev cons_unless_semicolon : Char → String → String
cons_unless_semicolon c String.[] = if code c == b';' then String.[] else String.◌∷◌ c String.[]
cons_unless_semicolon c (String.◌∷◌ d s) = String.◌∷◌ c (String.◌∷◌ d s)

-- `s.rstrip(";")`
unfoldable pub right_strip_semicolons : String → String
right_strip_semicolons String.[] = String.[]
right_strip_semicolons (String.◌∷◌ c s) = cons_unless_semicolon c (right_strip_semicolons s)

abbrev is_hex_digit : ℕ → Bool
is_hex_digit c = (leb b'a' c && leb c b'f') || (leb b'0' c && leb c b'9')

abbrev all_hex : List ℕ → Bool
all_hex [] = true
all_hex (c ∷ cs) = is_hex_digit c && all_hex cs

abbrev count_codes : List ℕ → ℕ
count_codes [] = 0
count_codes (c ∷ cs) = suc (count_codes cs)

-- `[a-f0-9]{n}`, for the whole text
unfoldable pub is_hex : ℕ → String → Bool
is_hex n s = all_hex (codes s) && count_codes (codes s) == n
