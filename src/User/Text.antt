-- ===== src/User/Text.antt =====
-- How the user file is read and written: std::getline, operator >> of a stream and operator << of an int,
-- in the C locale. Text is its bytes.
pub mod RoundTrip
use ftpn.Filter.DomainBlacklist.{is_space, is_empty}
use ftpn.Prelude.{
  ℕ, zero, suc, ◌+◌, ◌-◌, ◌*◌, ◌/◌, ◌%◌, ◌^◌, Bool, true, false, not, ◌&&◌, ◌||◌, Option, none,
  some, List, [], ◌∷◌, ◌++◌, leb, ltb, ◌==◌, if◌then◌else◌,
}

-- The lines of a file: each ends before a line feed or at the end of the file.
unfoldable pub add_to_line : ℕ → List (List ℕ) → List (List ℕ)
add_to_line c [] = (c ∷ []) ∷ []
add_to_line c (line ∷ lines) = (c ∷ line) ∷ lines

unfoldable pub lines_of : List ℕ → List (List ℕ)
unfolding add_to_line
lines_of [] = []
lines_of (c ∷ s) = let rest = lines_of s in if c == 10 then [] ∷ rest else add_to_line c rest

unfoldable pub skip_space : List ℕ → List ℕ
skip_space [] = []
skip_space (c ∷ s) = let rest = skip_space s in if is_space c then rest else c ∷ s

-- Up to the next blank, and from it on.
unfoldable pub break_space : List ℕ → List ℕ × List ℕ
break_space [] = ([], [])
break_space (c ∷ s) =
    let rest = break_space s in if is_space c then ([], c ∷ s) else (c ∷ rest.0, rest.1)

-- `>>` into a string; it fails at the end.
unfoldable pub read_word : List ℕ → Option (List ℕ × List ℕ)
unfolding skip_space break_space
read_word s = let r = break_space (skip_space s) in if is_empty r.0 then none else some r

abbrev pub is_digit : ℕ → Bool
is_digit c = leb b'0' c && leb c b'9'

-- The digits in front, as a number behind those read.
unfoldable pub read_digits : List ℕ → ℕ → ℕ × List ℕ
read_digits [] n = (n, [])
read_digits (c ∷ s) n =
    let rest = read_digits s (n * 10 + (c - b'0')) in if is_digit c then rest else (n, c ∷ s)

-- An int; the source has 32 bits for it.
pub data ℤ : Type 0 where
  pos : ℕ → ℤ
  negsuc : ℕ → ℤ

abbrev pub negative : ℕ → ℤ
negative zero = pos 0
negative (suc n) = negsuc n

abbrev pub starts_with_digit : List ℕ → Bool
starts_with_digit [] = false
starts_with_digit (c ∷ s) = is_digit c

unfoldable pub read_unsigned : ℕ → (ℕ → ℤ) → List ℕ → Option (ℤ × List ℕ)
unfolding read_digits
read_unsigned limit sign s =
    let r = read_digits s 0 in
    if starts_with_digit s && leb r.0 limit then some (sign r.0, r.1) else none

-- `>>` into an int, behind the blanks: it fails with no digit or a value out of range.
unfoldable pub read_signed : List ℕ → Option (ℤ × List ℕ)
unfolding read_unsigned
read_signed [] = none
read_signed (c ∷ s) =
    if c == b'-'
    then read_unsigned 2147483648 negative s
    else if c == b'+'
    then read_unsigned 2147483647 pos s
    else read_unsigned 2147483647 pos (c ∷ s)

unfoldable pub read_int : List ℕ → Option (ℤ × List ℕ)
unfolding skip_space read_signed
read_int s = read_signed (skip_space s)

-- The decimal digits of a number in front of a text; `fuel` digits at most.
unfoldable pub write_digits : ℕ → ℕ → List ℕ → List ℕ
write_digits zero n s = s
write_digits (suc fuel) n s =
    let rest = write_digits fuel (n / 10) ((b'0' + n % 10) ∷ s) in
    if ltb n 10 then (b'0' + n) ∷ s else rest

-- `<<` of an int, which has ten digits at most.
unfoldable pub write_int : ℤ → List ℕ
unfolding write_digits
write_int (pos n) = write_digits 10 n []
write_int (negsuc n) = b'-' ∷ write_digits 10 (suc n) []
