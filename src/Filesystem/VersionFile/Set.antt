-- ===== src/Filesystem/VersionFile/Set.antt =====
-- `setFileVersion` on the text is an update of the map from paths to versions.
use squid_storage.Prelude.{
  ◌≡◌, refl, ◌∙◌, sym, ap, Bool, true, false, Bool-cases, inl, inr, if◌then◌else◌, Option, none,
  some, List, [], ◌∷◌, ◌++◌, append-nil, arith,
}
use squid_storage.Prelude.Lists.{All}
use squid_storage.Prelude.Key.{Bytes, bytes_eq, bytes_eq_iff}
use squid_storage.Prelude.Int.{ℤ, IsInt}
use squid_storage.Prelude.Text.{read_int, show_int, lines}
use squid_storage.Prelude.Text.Decimal.{read_int-show_int}
use squid_storage.Prelude.Text.Lines.{
  IsWord, IsLine, read_word-append, lines-write_lines, lines-IsLine, entry-IsLine,
}
use squid_storage.Filesystem.VersionFile.{
  entry_version, entry_path, entry_of, entry_line, version_or, version_in, version_found,
  get_file_version, rewritten, rewrite, with_entry, set_file_version,
}

entry_of-entry_line :
    (p : Bytes) (v : ℤ) → IsWord p → IsInt v → entry_of (entry_line p v) ≡ some (p, v)
unfolding entry_of
entry_of-entry_line p v w h =
    ap entry_path (read_word-append p (show_int v) w)
    ∙ ap (entry_version p)
        (ap (λ r. read_int (32 ∷ r)) (sym (append-nil (show_int v))) ∙ read_int-show_int v [] h tt)

entry_line-IsLine : (p : Bytes) (v : ℤ) → IsWord p → IsLine (entry_line p v)
entry_line-IsLine (c ∷ p) v w = entry-IsLine (c ∷ p) v w
entry_line-IsLine [] v w = absurd w

-- What the rewritten lines have for `q`, if the old ones have `old`.
abbrev seen_in : Bytes → Bytes → ℤ → Bool → Option ℤ → Option ℤ
seen_in p q v found old = if bytes_eq p q then (if found then some v else none) else old

set_line :
    (p q : Bytes) (v : ℤ) (l word : Bytes) (u : ℤ) (ls : List Bytes) (found : Bool) (old : Option ℤ)
    → entry_of (entry_line p v) ≡ some (p, v)
    → bytes_eq word p ≡ true
    → version_in q ls ≡ seen_in p q v found old
    → version_in q (entry_line p v ∷ ls) ≡ seen_in p q v true (version_or q (some (word, u)) old)
unfolding version_in
set_line p q v l word u ls found old e same h =
    let word_p = (bytes_eq_iff word p).0 same in
    ap (λ r. version_or q r (version_in q ls)) e
    ∙ ground (arith, h, word_p, bytes_eq_iff p q, bytes_eq_iff word q)

keep_line :
    (p q : Bytes) (v : ℤ) (l word : Bytes) (u : ℤ) (ls : List Bytes) (found : Bool) (old : Option ℤ)
    → entry_of l ≡ some (word, u)
    → bytes_eq word p ≡ false
    → version_in q ls ≡ seen_in p q v found old
    → version_in q (l ∷ ls) ≡ seen_in p q v found (version_or q (some (word, u)) old)
unfolding version_in
keep_line p q v l word u ls found old e other h =
    ap (λ r. version_or q r (version_in q ls)) e
    ∙ ground (arith, h, other, bytes_eq_iff word p, bytes_eq_iff p q, bytes_eq_iff word q)

line_seen :
    (p q : Bytes) (v : ℤ) (l : Bytes) (e : Option (Bytes × ℤ)) (r : List Bytes × Bool)
    (old : Option ℤ)
    → entry_of (entry_line p v) ≡ some (p, v)
    → entry_of l ≡ e
    → version_in q r.0 ≡ seen_in p q v r.1 old
    → version_in q (rewritten p v l e r).0
      ≡ seen_in p q v (rewritten p v l e r).1 (version_or q e old)
line_seen p q v l none r old shown e h = h
line_seen p q v l (some (word, u)) (ls, found) old shown e h = elim (Bool-cases (bytes_eq word p)) [
  | inl same ↦ rw same (set_line p q v l word u ls found old shown same h)
  | inr other ↦ rw other (keep_line p q v l word u ls found old e other h)
]

rewrite_lem :
    (p q : Bytes) (v : ℤ) (ls : List Bytes)
    → entry_of (entry_line p v) ≡ some (p, v)
    → version_in q (rewrite p v ls).0 ≡ seen_in p q v (rewrite p v ls).1 (version_in q ls)
unfolding rewrite version_in
rewrite_lem p q v [] shown = ground arith
rewrite_lem p q v (l ∷ ls) shown =
    line_seen p q v l (entry_of l) (rewrite p v ls) (version_in q ls) shown refl
      (rewrite_lem p q v ls shown)

abbrev or_last : Option ℤ → Option ℤ → Option ℤ
or_last none last = last
or_last (some u) last = some u

or_last_moves :
    (q : Bytes) (e : Option (Bytes × ℤ)) (old last : Option ℤ)
    → version_or q e (or_last old last) ≡ or_last (version_or q e old) last
or_last_moves q none old last = refl
or_last_moves q (some (word, u)) old last = elim (Bool-cases (bytes_eq word q)) [
  | inl b ↦ rw b
  | inr b ↦ rw b
]

-- A line at the end counts for a path that has no other.
version_at_end :
    (q : Bytes) (ls : List Bytes) (p : Bytes) (v : ℤ) (l : Bytes)
    → entry_of l ≡ some (p, v)
    → version_in q (ls ++ l ∷ [])
      ≡ or_last (version_in q ls) (if bytes_eq p q then some v else none)
unfolding version_in
version_at_end q [] p v l e = ap (λ r. version_or q r none) e
version_at_end q (k ∷ ls) p v l e =
    ap (version_or q (entry_of k)) (version_at_end q ls p v l e)
    ∙ or_last_moves q (entry_of k) (version_in q ls) (if bytes_eq p q then some v else none)

last_only :
    (b : Bool) (v : ℤ) (old : Option ℤ)
    → or_last (if b then none else old) (if b then some v else none) ≡ (if b then some v else old)
last_only true v old = refl
last_only false v none = refl
last_only false v (some u) = refl

with_entry_lem :
    (p q : Bytes) (v : ℤ) (r : List Bytes × Bool) (old : Option ℤ)
    → entry_of (entry_line p v) ≡ some (p, v)
    → version_in q r.0 ≡ seen_in p q v r.1 old
    → version_in q (with_entry p v r) ≡ (if bytes_eq p q then some v else old)
with_entry_lem p q v (ls, true) old shown h = h
with_entry_lem p q v (ls, false) old shown h =
    version_at_end q ls p v (entry_line p v) shown
    ∙ ap (λ r. or_last r (if bytes_eq p q then some v else none)) h
    ∙ last_only (bytes_eq p q) v old

-- The lines that are written have no newline in them.
rewritten-IsLine :
    (p : Bytes) (v : ℤ) (l : Bytes) (e : Option (Bytes × ℤ)) (r : List Bytes × Bool)
    → IsLine (entry_line p v)
    → IsLine l
    → All IsLine r.0
    → All IsLine (rewritten p v l e r).0
rewritten-IsLine p v l none r k m h = h
rewritten-IsLine p v l (some (word, u)) (ls, found) k m h = elim (Bool-cases (bytes_eq word p)) [
  | inl same ↦ rw same (k, h)
  | inr other ↦ rw other (m, h)
]

rewrite-IsLine :
    (p : Bytes) (v : ℤ) (ls : List Bytes)
    → IsLine (entry_line p v)
    → All IsLine ls
    → All IsLine (rewrite p v ls).0
unfolding rewrite
rewrite-IsLine p v [] e h = tt
rewrite-IsLine p v (l ∷ ls) e h =
    rewritten-IsLine p v l (entry_of l) (rewrite p v ls) e h.0 (rewrite-IsLine p v ls e h.1)

append-IsLine_end :
    (ls : List Bytes) (l : Bytes) → All IsLine ls → IsLine l → All IsLine (ls ++ l ∷ [])
append-IsLine_end [] l h k = (k, tt)
append-IsLine_end (m ∷ ls) l h k = (h.0, append-IsLine_end ls l h.1 k)

with_entry-IsLine :
    (p : Bytes) (v : ℤ) (r : List Bytes × Bool)
    → IsLine (entry_line p v)
    → All IsLine r.0
    → All IsLine (with_entry p v r)
with_entry-IsLine p v (ls, true) k h = h
with_entry-IsLine p v (ls, false) k h = append-IsLine_end ls (entry_line p v) h k

found_if :
    (b : Bool) (v : ℤ) (old : Option ℤ)
    → version_found (if b then some v else old) ≡ (if b then v else version_found old)
found_if true v old = refl
found_if false v old = refl

-- After the version of a path without a space is set, the file gives that version for the path, and
-- for every other path what it gave before, whatever lines the file had.
pub get_file_version-set_file_version :
    (p q : Bytes) (v : ℤ) (text : Bytes)
    → IsWord p
    → IsInt v
    → get_file_version q (set_file_version p v text)
      ≡ (if bytes_eq p q then v else get_file_version q text)
unfolding get_file_version set_file_version
get_file_version-set_file_version p q v text w h =
    let shown = entry_of-entry_line p v w h in
    let line = entry_line-IsLine p v w in
    let r = rewrite p v (lines text) in
    let read =
      lines-write_lines (with_entry p v r)
        (with_entry-IsLine p v r line (rewrite-IsLine p v (lines text) line (lines-IsLine text))) in
    ap (λ ls. version_found (version_in q ls)) read
    ∙ ap version_found (
        with_entry_lem p q v r (version_in q (lines text)) shown
          (rewrite_lem p q v (lines text) shown))
    ∙ found_if (bytes_eq p q) v (version_in q (lines text))
