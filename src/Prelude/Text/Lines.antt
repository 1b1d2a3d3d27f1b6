-- ===== src/Prelude/Text/Lines.antt =====
-- Words and lines that were written are read back.
use Prim.Native.Nat.{ℕ, zero, suc, ◌+◌, ◌%◌, ◌/◌}
use mathlib.Core.Path.{◌≡◌, refl, ◌∙◌, ap}
use mathlib.Core.Logic.{inl, inr}
use mathlib.Core.Bool.{false}
use mathlib.Core.Option.{some}
use mathlib.Core.List.{List, [], ◌∷◌, ◌++◌}
use native.Mathlib.Omega.{arith}
use squid_storage.Prelude.Tests.{ltb, ◌==◌, Bool-cases}
use squid_storage.Prelude.Key.{Bytes}
use squid_storage.Prelude.Lists.{All}
use squid_storage.Prelude.Int.{ℤ, pos, negsuc}
use squid_storage.Prelude.Text.{
  is_space, skip_spaces, span_word, word_of, read_word, digits, show_int, push_char, lines,
  write_lines,
}

abbrev pub NotSpace : ℕ → Type 0
NotSpace c = is_space c ≡ false

-- A text that `>>` reads whole.
abbrev pub IsWord : Bytes → Type 0
IsWord [] = ⊥
IsWord (c ∷ s) = NotSpace c × All NotSpace s

span_word-append : (s rest : Bytes) → All NotSpace s → span_word (s ++ 32 ∷ rest) ≡ (s, 32 ∷ rest)
unfolding span_word
span_word-append [] rest h = refl
span_word-append (c ∷ s) rest h = rw (span_word-append s rest h.1, h.0)

skip_spaces-word : (c : ℕ) (s : Bytes) → NotSpace c → skip_spaces (c ∷ s) ≡ c ∷ s
unfolding skip_spaces
skip_spaces-word c s h = rw h

pub read_word-append :
    (s rest : Bytes) → IsWord s → read_word (s ++ 32 ∷ rest) ≡ some (s, 32 ∷ rest)
unfolding read_word
read_word-append [] rest h = absurd h
read_word-append (c ∷ s) rest h =
    ap (λ r. word_of (span_word r)) (skip_spaces-word c (s ++ 32 ∷ rest) h.0)
    ∙ ap word_of (span_word-append (c ∷ s) rest h)

span_word-end : (s : Bytes) → All NotSpace s → span_word s ≡ (s, [])
unfolding span_word
span_word-end [] h = refl
span_word-end (c ∷ s) h = rw (span_word-end s h.1, h.0)

-- The last word of a text, after a space.
pub read_word-end : (s : Bytes) → IsWord s → read_word (32 ∷ s) ≡ some (s, [])
unfolding read_word skip_spaces
read_word-end [] h = absurd h
read_word-end (c ∷ s) h =
    ap (λ r. word_of (span_word r)) (skip_spaces-word c s h.0)
    ∙ ap word_of (span_word-end (c ∷ s) h)

abbrev pub NotNewline : ℕ → Type 0
NotNewline c = (c == 10) ≡ false

abbrev pub IsLine : Bytes → Type 0
IsLine s = All NotNewline s

pub lines-append : (s rest : Bytes) → IsLine s → lines (s ++ 10 ∷ rest) ≡ s ∷ lines rest
unfolding lines
lines-append [] rest h = refl
lines-append (c ∷ s) rest h = rw (h.0, lines-append s rest h.1)

pub lines-write_lines : (ls : List Bytes) → All IsLine ls → lines (write_lines ls) ≡ ls
unfolding write_lines
lines-write_lines [] h = unfold lines in refl
lines-write_lines (l ∷ ls) h =
    lines-append l (write_lines ls) h.0 ∙ ap (λ r. l ∷ r) (lines-write_lines ls h.1)

push_char-IsLine :
    (c : ℕ) (ls : List Bytes) → NotNewline c → All IsLine ls → All IsLine (push_char c ls)
push_char-IsLine c [] h k = ((h, tt), tt)
push_char-IsLine c (l ∷ ls) h k = ((h, k.0), k.1)

pub lines-IsLine : (s : Bytes) → All IsLine (lines s)
unfolding lines
lines-IsLine [] = tt
lines-IsLine (c ∷ s) = elim (Bool-cases (c == 10)) [
  | inl e ↦ rw e (tt, lines-IsLine s)
  | inr e ↦ rw e (push_char-IsLine c (lines s) e (lines-IsLine s))
]

not_newline : (c : ℕ) → NotSpace c → NotNewline c
not_newline c h = ground (arith, h)

pub word-IsLine : (s : Bytes) → All NotSpace s → IsLine s
word-IsLine [] h = tt
word-IsLine (c ∷ s) h = (not_newline c h.0, word-IsLine s h.1)

pub append-IsLine : (s t : Bytes) → IsLine s → IsLine t → IsLine (s ++ t)
append-IsLine [] t h k = k
append-IsLine (c ∷ s) t h k = (h.0, append-IsLine s t h.1 k)

digit-NotNewline : (n : ℕ) → NotNewline (48 + n)
digit-NotNewline n = ground arith

digits-IsLine : (fuel n : ℕ) (rest : Bytes) → IsLine rest → IsLine (digits fuel n rest)
unfolding digits
digits-IsLine zero n rest h = h
digits-IsLine (suc fuel) n rest h = elim (Bool-cases (ltb n 10)) [
  | inl e ↦ rw e (digit-NotNewline n, h)
  | inr e ↦ rw e (digits-IsLine fuel (n / 10) ((48 + n % 10) ∷ rest) (digit-NotNewline (n % 10), h))
]

pub show_int-IsLine : (v : ℤ) → IsLine (show_int v)
unfolding show_int
show_int-IsLine (pos n) = digits-IsLine 10 n [] tt
show_int-IsLine (negsuc n) = (refl, digits-IsLine 10 (suc n) [] tt)

-- A word and a number on a line.
pub entry-IsLine : (s : Bytes) (v : ℤ) → All NotSpace s → IsLine (s ++ 32 ∷ show_int v)
entry-IsLine s v h = append-IsLine s (32 ∷ show_int v) (word-IsLine s h) (refl, show_int-IsLine v)
