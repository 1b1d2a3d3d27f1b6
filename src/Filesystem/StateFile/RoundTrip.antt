-- ===== src/Filesystem/StateFile/RoundTrip.antt =====
-- The version map that was saved is loaded.
use squid_storage.Prelude.{
  ℕ, zero, suc, ◌+◌, ◌%◌, ◌/◌, ◌≡◌, refl, ◌∙◌, sym, ap, false, Bool-cases, inl, inr, ltb, ◌==◌,
  none, some, [], ◌∷◌, ◌++◌, append-nil, arith,
}
use squid_storage.Prelude.Lists.{All}
use squid_storage.Prelude.Key.{Bytes, bytes_key}
use squid_storage.Prelude.Int.{ℤ, pos, negsuc, IsInt}
use squid_storage.Prelude.Map.{Map, assign}
use squid_storage.Prelude.Map.Laws.{IsOrdered, assign-append}
use squid_storage.Prelude.Text.{show_int, digits, lines}
use squid_storage.Prelude.Text.Decimal.{read_int-whole}
use squid_storage.Prelude.Text.Lines.{IsLine, lines-append, append-IsLine, show_int-IsLine}
use squid_storage.Filesystem.StateFile.{
  split_at, split_last, saved_version, saved_entry, load_line, load_lines, load_version_map,
  save_version_map,
}

abbrev NotBlank : ℕ → Type 0
NotBlank c = (c == 32) ≡ false

digit-NotBlank : (n : ℕ) → NotBlank (48 + n)
digit-NotBlank n = ground arith

digits-NotBlank :
    (fuel n : ℕ) (rest : Bytes) → All NotBlank rest → All NotBlank (digits fuel n rest)
unfolding digits
digits-NotBlank zero n rest h = h
digits-NotBlank (suc fuel) n rest h = elim (Bool-cases (ltb n 10)) [
  | inl e ↦ rw e (digit-NotBlank n, h)
  | inr e ↦ rw e (digits-NotBlank fuel (n / 10) ((48 + n % 10) ∷ rest) (digit-NotBlank (n % 10), h))
]

show_int-NotBlank : (v : ℤ) → All NotBlank (show_int v)
unfolding show_int
show_int-NotBlank (pos n) = digits-NotBlank 10 n [] tt
show_int-NotBlank (negsuc n) = (refl, digits-NotBlank 10 (suc n) [] tt)

split_last-none : (s : Bytes) → All NotBlank s → split_last s ≡ none
unfolding split_last
split_last-none [] h = refl
split_last-none (c ∷ s) h = ap (split_at c s) (split_last-none s h.1) ∙ rw h.0

split_last-append : (p s : Bytes) → All NotBlank s → split_last (p ++ 32 ∷ s) ≡ some (p, s)
unfolding split_last
split_last-append [] s h = ap (split_at 32 s) (split_last-none s h)
split_last-append (c ∷ p) s h = ap (split_at c (p ++ 32 ∷ s)) (split_last-append p s h)

-- A path that a line can begin with: without a newline, not empty, and no comment.
abbrev pub IsSaved : Bytes → Type 0
IsSaved [] = ⊥
IsSaved (c ∷ s) = ((c == 35) ≡ false) × IsLine (c ∷ s)

abbrev pub AllSaved : Map Bytes ℤ → Type 0
AllSaved [] = Unit
AllSaved ((p, v) ∷ m) = IsSaved p × IsInt v × AllSaved m

-- `stoi` of the number that was written, which has no space before it.
load_line-saved :
    (p : Bytes) (v : ℤ) (m : Map Bytes ℤ)
    → IsSaved p
    → IsInt v
    → load_line (p ++ 32 ∷ show_int v) m ≡ assign p v m
unfolding load_line
load_line-saved [] v m s h = absurd s
load_line-saved (c ∷ p) v m s h = rw s.0 (
    ap (λ r. saved_entry r m) (split_last-append (c ∷ p) (show_int v) (show_int-NotBlank v))
    ∙ ap (λ r. saved_version (c ∷ p) r m) (read_int-whole v h))

saved-IsLine : (p : Bytes) (v : ℤ) → IsSaved p → IsLine (p ++ 32 ∷ show_int v)
saved-IsLine [] v s = absurd s
saved-IsLine (c ∷ p) v s = append-IsLine (c ∷ p) (32 ∷ show_int v) s.1 (refl, show_int-IsLine v)

load_lines-saved :
    (m xs : Map Bytes ℤ)
    → AllSaved m
    → IsOrdered (xs ++ m)
    → load_lines (lines (save_version_map m)) xs ≡ xs ++ m
unfolding load_lines save_version_map
load_lines-saved [] xs s o = unfold lines in sym (append-nil xs)
load_lines-saved ((p, v) ∷ m) xs s o =
    let moved = assign-append p v xs m o in
    ap (λ r. load_lines r xs)
      (lines-append (p ++ 32 ∷ show_int v) (save_version_map m) (saved-IsLine p v s.0))
    ∙ ap (load_lines (lines (save_version_map m))) (load_line-saved p v xs s.0 s.1)
    ∙ load_lines-saved m (assign p v xs) s.2 (rw moved o)
    ∙ moved

-- The server loads the version map that it saved, for all paths that are not empty, have no newline
-- and do not begin with `#`, with spaces or without, and for all versions that an `int` can be.
pub load_version_map-save_version_map :
    (m : Map Bytes ℤ) → IsOrdered m → AllSaved m → load_version_map (save_version_map m) ≡ m
unfolding load_version_map
load_version_map-save_version_map m o s = load_lines-saved m [] s o
