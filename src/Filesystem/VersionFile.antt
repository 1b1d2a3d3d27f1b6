-- ===== src/Filesystem/VersionFile.antt =====
-- common/src/filesystem/filemanager.cpp: the text of .squid/fileVersions.txt, a path and a version on
-- each line. A file that is not there is empty.
pub mod Set
pub mod Drop
mod Examples
use squid_storage.Prelude.{
  Bool, true, false, ◌||◌, if◌then◌else◌, Option, none, some, List, [], ◌∷◌, ◌++◌,
}
use squid_storage.Prelude.Key.{Bytes, bytes_eq, bytes_key}
use squid_storage.Prelude.Int.{ℤ, pos, negsuc}
use squid_storage.Prelude.Map.{Map, find, assign}
use squid_storage.Prelude.Text.{read_word, read_int, show_int, lines, write_lines}

-- `iss >> filePath >> version`; a line that cannot be read gives nothing.
abbrev pub entry_version : Bytes → Option (ℤ × Bytes) → Option (Bytes × ℤ)
entry_version path none = none
entry_version path (some r) = some (path, r.0)

abbrev pub entry_path : Option (Bytes × Bytes) → Option (Bytes × ℤ)
entry_path none = none
entry_path (some r) = entry_version r.0 (read_int r.1)

unfoldable pub entry_of : Bytes → Option (Bytes × ℤ)
entry_of line = entry_path (read_word line)

abbrev pub entry_line : Bytes → ℤ → Bytes
entry_line path v = path ++ 32 ∷ show_int v

-- The loop of `getFileVersion`: the first line of the path.
abbrev pub version_or : Bytes → Option (Bytes × ℤ) → Option ℤ → Option ℤ
version_or path none later = later
version_or path (some e) later = if bytes_eq e.0 path then some e.1 else later

unfoldable pub version_in : Bytes → List Bytes → Option ℤ
version_in path [] = none
version_in path (l ∷ ls) = version_or path (entry_of l) (version_in path ls)

-- `getFileVersion`, with -1 for a path that is not there.
abbrev pub version_found : Option ℤ → ℤ
version_found none = negsuc 0
version_found (some v) = v

unfoldable pub get_file_version : Bytes → Bytes → ℤ
unfolding version_in
get_file_version path text = version_found (version_in path (lines text))

-- The loop of `setFileVersion`: the new lines, and whether the path was there.
abbrev pub rewritten :
    Bytes → ℤ → Bytes → Option (Bytes × ℤ) → List Bytes × Bool → List Bytes × Bool
rewritten path v l none later = later
rewritten path v l (some e) (ls, found) =
    if bytes_eq e.0 path then (entry_line path v ∷ ls, true) else (l ∷ ls, found)

unfoldable pub rewrite : Bytes → ℤ → List Bytes → List Bytes × Bool
unfolding entry_of
rewrite path v [] = ([], false)
rewrite path v (l ∷ ls) = rewritten path v l (entry_of l) (rewrite path v ls)

abbrev pub with_entry : Bytes → ℤ → List Bytes × Bool → List Bytes
with_entry path v (ls, true) = ls
with_entry path v (ls, false) = ls ++ entry_line path v ∷ []

unfoldable pub set_file_version : Bytes → ℤ → Bytes → Bytes
unfolding rewrite
set_file_version path v text = write_lines (with_entry path v (rewrite path v (lines text)))

-- The loop of `deleteFileAndVersion`.
abbrev pub kept : Bytes → Bytes → Option (Bytes × ℤ) → List Bytes → List Bytes
kept path l none later = later
kept path l (some e) later = if bytes_eq e.0 path then later else l ∷ later

unfoldable pub without : Bytes → List Bytes → List Bytes
unfolding entry_of
without path [] = []
without path (l ∷ ls) = kept path l (entry_of l) (without path ls)

unfoldable pub drop_file_version : Bytes → Bytes → Bytes
unfolding without
drop_file_version path text = write_lines (without path (lines text))

-- `getFileVersionMap`: the versions of the files that are there, 0 for one without a line. A later
-- line of a path counts here.
abbrev pub saved_with : Option (Bytes × ℤ) → Map Bytes ℤ → Map Bytes ℤ
saved_with none m = m
saved_with (some e) m = assign e.0 e.1 m

unfoldable pub saved_versions : List Bytes → Map Bytes ℤ → Map Bytes ℤ
unfolding entry_of
saved_versions [] m = m
saved_versions (l ∷ ls) m = saved_versions ls (saved_with (entry_of l) m)

abbrev pub version_or_zero : Option ℤ → ℤ
version_or_zero none = pos 0
version_or_zero (some v) = v

unfoldable pub versions_of : List Bytes → Map Bytes ℤ → Map Bytes ℤ → Map Bytes ℤ
versions_of [] saved m = m
versions_of (f ∷ fs) saved m = versions_of fs saved (assign f (version_or_zero (find f saved)) m)

unfoldable pub get_file_version_map : List Bytes → Bytes → Map Bytes ℤ
unfolding saved_versions versions_of
get_file_version_map files text = versions_of files (saved_versions (lines text) []) []
