-- ===== src/Filesystem/VersionFile/Drop.antt =====
-- `deleteFileAndVersion` takes a path out of the map from paths to versions.
use squid_storage.Prelude.{
  ◌≡◌, refl, ◌∙◌, ap, Bool, true, false, Bool-cases, inl, inr, if◌then◌else◌, Option, none, some,
  List, [], ◌∷◌, arith,
}
use squid_storage.Prelude.Lists.{All}
use squid_storage.Prelude.Key.{Bytes, bytes_eq, bytes_eq_iff}
use squid_storage.Prelude.Int.{ℤ, negsuc}
use squid_storage.Prelude.Text.{lines}
use squid_storage.Prelude.Text.Lines.{IsLine, lines-write_lines, lines-IsLine}
use squid_storage.Filesystem.VersionFile.{
  entry_of, version_or, version_in, version_found, get_file_version, kept, without,
  drop_file_version,
}

none_if :
    (b : Bool) (old : Option ℤ)
    → version_found (if b then none else old) ≡ (if b then negsuc 0 else version_found old)
none_if true old = refl
none_if false old = refl

kept_line :
    (p q l word : Bytes) (u : ℤ) (ls : List Bytes) (old : Option ℤ)
    → entry_of l ≡ some (word, u)
    → bytes_eq word p ≡ false
    → version_in q ls ≡ (if bytes_eq p q then none else old)
    → version_in q (l ∷ ls) ≡ (if bytes_eq p q then none else version_or q (some (word, u)) old)
unfolding version_in
kept_line p q l word u ls old e other h =
    ap (λ r. version_or q r (version_in q ls)) e
    ∙ ground (arith, h, other, bytes_eq_iff word p, bytes_eq_iff p q, bytes_eq_iff word q)

kept_lem :
    (p q l : Bytes) (e : Option (Bytes × ℤ)) (ls : List Bytes) (old : Option ℤ)
    → entry_of l ≡ e
    → version_in q ls ≡ (if bytes_eq p q then none else old)
    → version_in q (kept p l e ls) ≡ (if bytes_eq p q then none else version_or q e old)
kept_lem p q l none ls old e h = h
kept_lem p q l (some (word, u)) ls old e h = elim (Bool-cases (bytes_eq word p)) [
  | inl same ↦
      rw same (ground (arith, h, same, bytes_eq_iff word p, bytes_eq_iff p q, bytes_eq_iff word q))
  | inr other ↦ rw other (kept_line p q l word u ls old e other h)
]

without_lem :
    (p q : Bytes) (ls : List Bytes)
    → version_in q (without p ls) ≡ (if bytes_eq p q then none else version_in q ls)
unfolding without version_in
without_lem p q [] = ground arith
without_lem p q (l ∷ ls) =
    kept_lem p q l (entry_of l) (without p ls) (version_in q ls) refl (without_lem p q ls)

kept-IsLine :
    (p l : Bytes) (e : Option (Bytes × ℤ)) (ls : List Bytes)
    → IsLine l
    → All IsLine ls
    → All IsLine (kept p l e ls)
kept-IsLine p l none ls k h = h
kept-IsLine p l (some (word, u)) ls k h = elim (Bool-cases (bytes_eq word p)) [
  | inl same ↦ rw same h
  | inr other ↦ rw other (k, h)
]

without-IsLine : (p : Bytes) (ls : List Bytes) → All IsLine ls → All IsLine (without p ls)
unfolding without
without-IsLine p [] h = tt
without-IsLine p (l ∷ ls) h =
    kept-IsLine p l (entry_of l) (without p ls) h.0 (without-IsLine p ls h.1)

-- After the version of a path is dropped, the file gives -1 for it, and for every other path what
-- it gave before.
pub get_file_version-drop_file_version :
    (p q text : Bytes)
    → get_file_version q (drop_file_version p text)
      ≡ (if bytes_eq p q then negsuc 0 else get_file_version q text)
unfolding get_file_version drop_file_version
get_file_version-drop_file_version p q text =
    let read =
      lines-write_lines (without p (lines text))
        (without-IsLine p (lines text) (lines-IsLine text)) in
    ap (λ ls. version_found (version_in q ls)) read
    ∙ ap version_found (without_lem p q (lines text))
    ∙ none_if (bytes_eq p q) (version_in q (lines text))
