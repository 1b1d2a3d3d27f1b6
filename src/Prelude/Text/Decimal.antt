-- ===== src/Prelude/Text/Decimal.antt =====
-- An `int` that was written is read back, by `>>` after a text.
use Prim.Native.Nat.{ℕ, zero, suc, ◌+◌, ◌*◌, ◌-◌, ◌/◌, ◌%◌, ◌^◌, ◌≤◌, ◌<◌}
use mathlib.Core.Path.{◌≡◌, refl, ◌∙◌, ap, sym}
use mathlib.Core.Logic.{◌⊎◌, inl, inr}
use mathlib.Core.Bool.{true, false}
use mathlib.Core.Option.{some}
use mathlib.Core.List.{[], ◌∷◌, ◌++◌, append-nil}
use native.Mathlib.Omega.{arith}
use squid_storage.Prelude.Tests.{ltb, Bool-cases, ltb→lt, le→leb}
use squid_storage.Prelude.Key.{Bytes}
use squid_storage.Prelude.Int.{ℤ, pos, negsuc, IsInt}
use squid_storage.Prelude.Text.{
  is_space, is_digit, skip_spaces, read_digits, read_number, negated, in_range, signed, ranged,
  number_after, read_int, digits, show_int,
}

-- The text does not go on with a digit.
abbrev pub NoDigit : Bytes → Type 0
NoDigit [] = Unit
NoDigit (c ∷ s) = is_digit c ≡ false

abbrev pub IsDigits : Bytes → Type 0
IsDigits [] = ⊥
IsDigits (c ∷ s) = (48 ≤ c) × (c ≤ 57)

pow10 : ℕ → ℕ
pow10 zero = 1
pow10 (suc n) = 10 * pow10 n

is_digit_at : (c : ℕ) → c < 10 → is_digit (48 + c) ≡ true
is_digit_at c h = ground (arith, h)

sub_at : (c : ℕ) → 48 + c - 48 ≡ c
sub_at c = omega arith

in_digits : (c : ℕ) → 48 ≤ c → c ≤ 57 → is_digit c ≡ true
in_digits c h k = ground (arith, h, k)

no_space : (c : ℕ) → 48 ≤ c → is_space c ≡ false
no_space c h = ground (arith, h)

digit_at :
    (n c : ℕ) (rest : Bytes)
    → c < 10
    → read_digits n ((48 + c) ∷ rest) ≡ read_digits (10 * n + c) rest
unfolding read_digits
digit_at n c rest h = rw (is_digit_at c h, sub_at c)

last_digit :
    (n : ℕ) (rest : Bytes) → read_digits (n / 10) ((48 + n % 10) ∷ rest) ≡ read_digits n rest
last_digit n rest =
    digit_at (n / 10) (n % 10) rest (omega arith) ∙ ap (λ i. read_digits i rest) (omega arith)

-- The digits are read as the number, and reading goes on after them.
read_digits-digits :
    (fuel n : ℕ) (rest : Bytes)
    → n < pow10 fuel
    → read_digits 0 (digits fuel n rest) ≡ read_digits n rest
unfolding digits pow10
read_digits-digits zero n rest h = ap (λ i. read_digits i rest) (omega (arith, h))
read_digits-digits (suc fuel) n rest h = elim (Bool-cases (ltb n 10)) [
  | inl e ↦ rw e (digit_at 0 n rest (ltb→lt n 10 e) ∙ ap (λ i. read_digits i rest) (omega arith))
  | inr e ↦ rw e (
      read_digits-digits fuel (n / 10) ((48 + n % 10) ∷ rest) (omega (arith, h))
      ∙ last_digit n rest)
]

digits-IsDigits :
    (fuel n : ℕ) (rest : Bytes) → IsDigits rest ⊎ (0 < fuel) → IsDigits (digits fuel n rest)
unfolding digits
digits-IsDigits zero n rest (inl h) = h
digits-IsDigits zero n rest (inr h) = absurd (omega (arith, h))
digits-IsDigits (suc fuel) n rest h = elim (Bool-cases (ltb n 10)) [
  | inl e ↦ rw e (omega arith, omega (arith, ltb→lt n 10 e))
  | inr e ↦
      rw e (digits-IsDigits fuel (n / 10) ((48 + n % 10) ∷ rest) (inl (omega arith, omega arith)))
]

digits-append : (fuel n : ℕ) (s t : Bytes) → digits fuel n s ++ t ≡ digits fuel n (s ++ t)
unfolding digits
digits-append zero n s t = refl
digits-append (suc fuel) n s t = elim (Bool-cases (ltb n 10)) [
  | inl e ↦ rw e
  | inr e ↦ rw e (digits-append fuel (n / 10) ((48 + n % 10) ∷ s) t)
]

read_digits-stop : (n : ℕ) (rest : Bytes) → NoDigit rest → read_digits n rest ≡ (n, rest)
unfolding read_digits
read_digits-stop n [] h = refl
read_digits-stop n (c ∷ s) h = rw h

read_number-IsDigits : (s : Bytes) → IsDigits s → read_number s ≡ some (read_digits 0 s)
read_number-IsDigits (c ∷ s) h = rw (in_digits c h.0 h.1)
read_number-IsDigits [] h = absurd h

signed-IsDigits : (s : Bytes) → IsDigits s → signed (skip_spaces s) ≡ (false, s)
unfolding skip_spaces
signed-IsDigits (c ∷ s) h = rw (no_space c h.0) (ground (arith, h))
signed-IsDigits [] h = absurd h

shown :
    (n : ℕ) (rest : Bytes)
    → n < 2 ^ 32
    → NoDigit rest
    → read_number (digits 10 n rest) ≡ some (n, rest)
unfolding pow10
shown n rest h stop =
    read_number-IsDigits (digits 10 n rest) (digits-IsDigits 10 n rest (inr (omega arith)))
    ∙ ap some (read_digits-digits 10 n rest (omega (arith, h)) ∙ read_digits-stop n rest stop)

in_range-pos : (n : ℕ) (rest : Bytes) → n < 2 ^ 31 → in_range false (n, rest) ≡ some (pos n, rest)
in_range-pos n rest h = ground (arith, h)

suc_minus : (n : ℕ) → suc n - 1 ≡ n
suc_minus n = omega arith

negated-suc : (n : ℕ) → negated (suc n) ≡ negsuc n
negated-suc n = ground (arith, ap negsuc (suc_minus n))

in_range-negsuc :
    (n : ℕ) (rest : Bytes) → n < 2 ^ 31 → in_range true (suc n, rest) ≡ some (negsuc n, rest)
in_range-negsuc n rest h = rw (le→leb (suc n) (2 ^ 31) h) (ap (λ v. some (v, rest)) (negated-suc n))

-- A space and a number, before a text that does not go on with a digit.
pub read_int-show_int :
    (v : ℤ) (rest : Bytes)
    → IsInt v
    → NoDigit rest
    → read_int (32 ∷ show_int v ++ rest) ≡ some (v, rest)
unfolding read_int show_int skip_spaces
read_int-show_int (pos n) rest h stop = rw (digits-append 10 n [] rest) (
    ap number_after
      (signed-IsDigits (digits 10 n rest) (digits-IsDigits 10 n rest (inr (omega arith))))
    ∙ ap (ranged false) (shown n rest (omega (arith, h)) stop)
    ∙ in_range-pos n rest h)
read_int-show_int (negsuc n) rest h stop =
    rw (digits-append 10 (suc n) [] rest)
      (ap (ranged true) (shown (suc n) rest (omega (arith, h)) stop) ∙ in_range-negsuc n rest h)

read_int-space : (s : Bytes) → read_int (32 ∷ s) ≡ read_int s
unfolding read_int skip_spaces
read_int-space s = refl

-- A number that is the whole text.
pub read_int-whole : (v : ℤ) → IsInt v → read_int (show_int v) ≡ some (v, [])
read_int-whole v h =
    sym (read_int-space (show_int v))
    ∙ ap (λ r. read_int (32 ∷ r)) (sym (append-nil (show_int v)))
    ∙ read_int-show_int v [] h tt
