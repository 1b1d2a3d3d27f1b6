-- ===== src/Filesystem/StateFile.antt =====
-- server/src/state_manager.hpp: the text of the server's version file, which is written whole. A path
-- is all of a line up to its last space.
pub mod RoundTrip
mod Examples
use squid_storage.Prelude.{ℕ, ◌==◌, if◌then◌else◌, Option, none, some, List, [], ◌∷◌, ◌++◌}
use squid_storage.Prelude.Key.{Bytes, bytes_key}
use squid_storage.Prelude.Int.{ℤ}
use squid_storage.Prelude.Map.{Map, assign}
use squid_storage.Prelude.Text.{read_int, show_int, lines}

-- `rfind(' ')`, and what stands before and after.
abbrev pub split_at : ℕ → Bytes → Option (Bytes × Bytes) → Option (Bytes × Bytes)
split_at c s none = if c == 32 then some ([], s) else none
split_at c s (some r) = some (c ∷ r.0, r.1)

unfoldable pub split_last : Bytes → Option (Bytes × Bytes)
split_last [] = none
split_last (c ∷ s) = split_at c s (split_last s)

-- `std::stoi`, whose exceptions leave the line out.
abbrev pub saved_version : Bytes → Option (ℤ × Bytes) → Map Bytes ℤ → Map Bytes ℤ
saved_version path none m = m
saved_version path (some r) m = assign path r.0 m

abbrev pub saved_entry : Option (Bytes × Bytes) → Map Bytes ℤ → Map Bytes ℤ
saved_entry none m = m
saved_entry (some r) m = saved_version r.0 (read_int r.1) m

-- A line that is empty or begins with `#` is left out.
unfoldable pub load_line : Bytes → Map Bytes ℤ → Map Bytes ℤ
load_line [] m = m
load_line (c ∷ s) m = if c == 35 then m else saved_entry (split_last (c ∷ s)) m

unfoldable pub load_lines : List Bytes → Map Bytes ℤ → Map Bytes ℤ
load_lines [] m = m
load_lines (l ∷ ls) m = load_lines ls (load_line l m)

unfoldable pub load_version_map : Bytes → Map Bytes ℤ
unfolding load_lines
load_version_map text = load_lines (lines text) []

unfoldable pub save_version_map : Map Bytes ℤ → Bytes
save_version_map [] = []
save_version_map ((path, v) ∷ m) = (path ++ 32 ∷ show_int v) ++ 10 ∷ save_version_map m
