-- ===== src/Prelude/Text.antt =====
-- Texts as the program reads and writes them: `>>` of a `std::istringstream`, `std::to_string`.
pub mod Decimal
pub mod Lines
use Prim.Native.Nat.{ℕ, zero, suc, ◌+◌, ◌*◌, ◌-◌, ◌/◌, ◌%◌, ◌^◌}
use mathlib.Core.Bool.{Bool, true, false, ◌&&◌, ◌||◌}
use mathlib.Core.Option.{Option, none, some}
use mathlib.Core.List.{List, [], ◌∷◌, ◌++◌}
use squid_storage.Prelude.Tests.{◌==◌, ltb, leb, if◌then◌else◌}
use squid_storage.Prelude.Key.{Bytes}
use squid_storage.Prelude.Int.{ℤ, pos, negsuc}

-- `std::isspace` in the classic locale.
abbrev pub is_space : ℕ → Bool
is_space c = c == 32 || (leb 9 c && leb c 13)

abbrev pub is_digit : ℕ → Bool
is_digit c = leb 48 c && leb c 57

unfoldable pub skip_spaces : Bytes → Bytes
skip_spaces [] = []
skip_spaces (c ∷ s) = if is_space c then skip_spaces s else c ∷ s

-- The text up to the next space, and the rest.
unfoldable pub span_word : Bytes → Bytes × Bytes
span_word [] = ([], [])
span_word (c ∷ s) =
    let (word, rest) = span_word s in if is_space c then ([], c ∷ s) else (c ∷ word, rest)

abbrev pub word_of : Bytes × Bytes → Option (Bytes × Bytes)
word_of ([], rest) = none
word_of (c ∷ cs, rest) = some (c ∷ cs, rest)

-- `ss >> text`, which fails on an empty text.
unfoldable pub read_word : Bytes → Option (Bytes × Bytes)
read_word s = word_of (span_word (skip_spaces s))

-- The digits at the front as a number, what was read so far first.
unfoldable pub read_digits : ℕ → Bytes → ℕ × Bytes
read_digits n [] = (n, [])
read_digits n (c ∷ s) =
    let more = read_digits (10 * n + (c - 48)) s in if is_digit c then more else (n, c ∷ s)

-- At least one digit.
abbrev pub read_number : Bytes → Option (ℕ × Bytes)
read_number [] = none
read_number (c ∷ s) = if is_digit c then some (read_digits 0 (c ∷ s)) else none

abbrev pub negated : ℕ → ℤ
negated n = if n == 0 then pos 0 else negsuc (n - 1)

-- `ss >> number`, which fails out of the range of an `int`.
abbrev pub in_range : Bool → ℕ × Bytes → Option (ℤ × Bytes)
in_range true (n, rest) = if leb n (2 ^ 31) then some (negated n, rest) else none
in_range false (n, rest) = if ltb n (2 ^ 31) then some (pos n, rest) else none

abbrev pub signed : Bytes → Bool × Bytes
signed [] = (false, [])
signed (c ∷ s) = if c == 45 then (true, s) else if c == 43 then (false, s) else (false, c ∷ s)

abbrev pub ranged : Bool → Option (ℕ × Bytes) → Option (ℤ × Bytes)
ranged negative none = none
ranged negative (some r) = in_range negative r

abbrev pub number_after : Bool × Bytes → Option (ℤ × Bytes)
number_after (negative, t) = ranged negative (read_number t)

unfoldable pub read_int : Bytes → Option (ℤ × Bytes)
read_int s = number_after (signed (skip_spaces s))

-- The digits of `n` before `rest`, at most `fuel` of them.
unfoldable pub digits : ℕ → ℕ → Bytes → Bytes
digits zero n rest = rest
digits (suc fuel) n rest =
    let more = digits fuel (n / 10) ((48 + n % 10) ∷ rest) in
    if ltb n 10 then (48 + n) ∷ rest else more

-- `std::to_string` of an `int`, which has at most 10 digits.
unfoldable pub show_int : ℤ → Bytes
unfolding digits
show_int (pos n) = digits 10 n []
show_int (negsuc n) = 45 ∷ digits 10 (suc n) []

abbrev pub push_char : ℕ → List Bytes → List Bytes
push_char c [] = (c ∷ []) ∷ []
push_char c (l ∷ ls) = (c ∷ l) ∷ ls

-- The lines that `std::getline` gives. A newline at the end begins no line.
unfoldable pub lines : Bytes → List Bytes
lines [] = []
lines (c ∷ s) = let more = lines s in if c == 10 then [] ∷ more else push_char c more

-- Each line with `std::endl` after it.
unfoldable pub write_lines : List Bytes → Bytes
write_lines [] = []
write_lines (l ∷ ls) = l ++ 10 ∷ write_lines ls
