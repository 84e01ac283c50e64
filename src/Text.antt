-- ===== src/Text.antt =====
-- The string operations of JavaScript that the sources call, over the native text.
-- Strings are sequences of code points here; the sources only trim, split at a line feed, test a
-- prefix and print numbers, where code points and UTF-16 units agree.
pub mod Laws
use Prim.Native.Char.{Char, code}
use Prim.Native.String.{[], ◌∷◌}
use mathlib.Core.List.{[], ◌∷◌}
use Prim.Native.String
use shiplog_prototype.Prelude.{
  ℕ, zero, suc, ◌+◌, ◌*◌, ◌-◌, ◌/◌, ◌%◌, String, Bool, true, false, ◌&&◌, ◌||◌, Option, none, some,
  leb, ltb, nat_eq, List, if◌then◌else◌, ◌≡◌, refl,
}

-- Template literals and `+` on strings.
abbrev pub append : String → String → String
append s t = String.◌++◌ s t

-- White space and line terminators, which `trim` drops.
is_space : ℕ → Bool
is_space c =
    (leb 9 c && leb c 13)
    || nat_eq c 32
    || nat_eq c 160
    || nat_eq c 0x1680
    || (leb 0x2000 c && leb c 0x200a)
    || nat_eq c 0x2028
    || nat_eq c 0x2029
    || nat_eq c 0x202f
    || nat_eq c 0x205f
    || nat_eq c 0x3000
    || nat_eq c 0xfeff

trim_start : String → String
trim_start [] = []
trim_start (c ∷ s) = let rest = trim_start s in if is_space (code c) then rest else c ∷ s

-- A character is kept if it is no space, or if something after it is kept.
keep_char : Char → String → String
keep_char c [] = if is_space (code c) then [] else c ∷ []
keep_char c (d ∷ t) = c ∷ d ∷ t

trim_end : String → String
trim_end [] = []
trim_end (c ∷ s) = keep_char c (trim_end s)

unfoldable pub trim : String → String
unfolding trim_start trim_end keep_char is_space
trim s = trim_end (trim_start s)

-- `s.split('\n')[0]`.
unfoldable pub first_line : String → String
first_line [] = []
first_line (c ∷ s) = let rest = first_line s in if nat_eq (code c) 10 then [] else c ∷ rest

is_digit : ℕ → Bool
is_digit c = leb b'0' c && leb c b'9'

all_digits : String → Bool
all_digits [] = true
all_digits (c ∷ s) = is_digit (code c) && all_digits s

-- `/^\d+$/.test(s)`.
unfoldable pub is_decimal : String → Bool
unfolding all_digits is_digit
is_decimal [] = false
is_decimal (c ∷ s) = all_digits (c ∷ s)

number_from : ℕ → String → ℕ
number_from n [] = n
number_from n (c ∷ s) = number_from (n * 10 + (code c - b'0')) s

-- `Number(s)` on a text of decimal digits.
unfoldable pub number_of : String → ℕ
unfolding number_from
number_of s = number_from 0 s

digit : ℕ → Char
digit zero = "0"
digit (suc zero) = "1"
digit (suc (suc zero)) = "2"
digit (suc (suc (suc zero))) = "3"
digit (suc (suc (suc (suc zero)))) = "4"
digit (suc (suc (suc (suc (suc zero))))) = "5"
digit (suc (suc (suc (suc (suc (suc zero)))))) = "6"
digit (suc (suc (suc (suc (suc (suc (suc zero))))))) = "7"
digit (suc (suc (suc (suc (suc (suc (suc (suc zero)))))))) = "8"
digit _ = "9"

-- One digit a round, the last one first; each round divides by ten.
decimal_from : ℕ → ℕ → String → String
decimal_from zero n acc = acc
decimal_from (suc fuel) n acc =
    let longer = decimal_from fuel (n / 10) (digit (n % 10) ∷ acc) in
    if leb n 9 then digit n ∷ acc else longer

-- `String(n)` of a natural number. The number itself is fuel enough: see `number_of-decimal`.
unfoldable pub decimal : ℕ → String
unfolding decimal_from digit
decimal n = decimal_from (suc n) n []

-- The order by which `Array.prototype.sort` puts texts. It compares UTF-16 units; code points
-- give the same order on the basic plane.
unfoldable pub le_text : String → String → Bool
le_text [] t = true
le_text (c ∷ s) [] = false
le_text (c ∷ s) (d ∷ t) =
    let rest = le_text s t in
    if ltb (code c) (code d) then true else if nat_eq (code c) (code d) then rest else false

-- `parts.join(sep)`.
unfoldable pub join : String → List String → String
join sep [] = ""
join sep (p ∷ []) = p
join sep (p ∷ q ∷ ps) = append p (append sep (join sep (q ∷ ps)))

decimal_test : decimal 1205 ≡ "1205"
unfolding decimal
decimal_test = refl

trim_test : trim "  a b \n" ≡ "a b"
unfolding trim
trim_test = refl
