-- ===== src/Exec/Stoi.antt =====
-- `std::stoi`, with an `int` of 32 bits.
use Prim.Native.Char.{Char, code}
use mosaic_core.Base.{
  ℕ, zero, suc, ◌+◌, ◌*◌, ◌-◌, String, Bool, true, false, Option, none, some, ◌&&◌, ◌||◌,
  if◌then◌else◌, leb,
}
use mosaic_core.Base.Int.{ℤ, pos, negsuc}
use mosaic_core.Exec.{Outcome, ok, throws}

-- The digit that a character is.
abbrev digit : Char → Option ℕ
digit c = if leb 48 (code c) && leb (code c) 57 then some (code c - 48) else none

abbrev is_space : Char → Bool
is_space c = leb (code c) 13 && leb 9 (code c) || leb 32 (code c) && leb (code c) 32

unfoldable skip_spaces : String → String
skip_spaces String.[] = ""
skip_spaces (String.◌∷◌ c rest) = if is_space c then skip_spaces rest else String.◌∷◌ c rest

-- The number before the first character that is no digit, behind a number that was read.
unfoldable digits_from : ℕ → String → ℕ
digits_from n String.[] = n
digits_from n (String.◌∷◌ c rest) = elim (digit c) [
  | none ↦ n
  | some d ↦ digits_from (n * 10 + d) rest
]

abbrev starts_with_digit : String → Bool
starts_with_digit String.[] = false
starts_with_digit (String.◌∷◌ c rest) = elim (digit c) [ none ↦ false | some d ↦ true ]

abbrev positive : ℕ → Outcome ℤ
positive n = if leb n 2147483647 then ok (pos n) else throws "out_of_range"

abbrev negative : ℕ → Outcome ℤ
negative zero = ok (pos 0)
negative (suc n) = if leb n 2147483647 then ok (negsuc n) else throws "out_of_range"

abbrev number : (ℕ → Outcome ℤ) → String → Outcome ℤ
number sign text =
    if starts_with_digit text then sign (digits_from 0 text) else throws "invalid_argument"

abbrev signed_number : String → Outcome ℤ
signed_number String.[] = throws "invalid_argument"
signed_number (String.◌∷◌ c rest) =
    if leb 43 (code c) && leb (code c) 43
    then number positive rest
    else if leb 45 (code c) && leb (code c) 45
    then number negative rest
    else number positive (String.◌∷◌ c rest)

unfoldable pub stoi : String → Outcome ℤ
unfolding skip_spaces digits_from
stoi text = signed_number (skip_spaces text)
