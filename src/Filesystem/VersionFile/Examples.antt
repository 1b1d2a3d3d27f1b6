-- ===== src/Filesystem/VersionFile/Examples.antt =====
-- A version file with a line that cannot be read.
use squid_storage.Prelude.{◌≡◌, refl, if◌then◌else◌, ◌++◌, ◌∷◌, [], arith}
use squid_storage.Prelude.Key.{Bytes, codes, bytes_eq}
use squid_storage.Prelude.Int.{pos}
use squid_storage.Prelude.Text.{
  skip_spaces, span_word, read_word, read_digits, read_int, digits, show_int, lines, write_lines,
}
use squid_storage.Filesystem.VersionFile.{entry_of, get_file_version, rewrite, set_file_version}
use squid_storage.Filesystem.VersionFile.Set.{get_file_version-set_file_version}

abbrev text : Bytes
text = codes "a 12" ++ 10 ∷ codes "no version" ++ 10 ∷ codes "b -1"

written : set_file_version (codes "a") (pos 7) text ≡ codes "a 7" ++ 10 ∷ codes "b -1" ++ 10 ∷ []
unfolding set_file_version rewrite entry_of read_word skip_spaces span_word read_int read_digits
    lines write_lines show_int digits
written = refl

get_file_version-set_file_version_example :
    get_file_version (codes "b") (set_file_version (codes "a") (pos 7) text)
    ≡ (if bytes_eq (codes "a") (codes "b") then pos 7 else get_file_version (codes "b") text)
get_file_version-set_file_version_example =
    get_file_version-set_file_version (codes "a") (codes "b") (pos 7) text (refl, tt) (omega arith)
