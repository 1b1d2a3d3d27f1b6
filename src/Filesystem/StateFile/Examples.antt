-- ===== src/Filesystem/StateFile/Examples.antt =====
-- A version map with a path that has a space.
use squid_storage.Prelude.{◌≡◌, refl, [], ◌∷◌, arith}
use squid_storage.Prelude.Key.{Bytes, codes, bytes_key}
use squid_storage.Prelude.Int.{ℤ, pos, negsuc}
use squid_storage.Prelude.Map.{Map}
use squid_storage.Filesystem.StateFile.{load_version_map, save_version_map}
use squid_storage.Filesystem.StateFile.RoundTrip.{load_version_map-save_version_map}

abbrev versions : Map Bytes ℤ
versions = (codes "a b", pos 12) ∷ (codes "c", negsuc 0) ∷ []

load_version_map-save_version_map_example : load_version_map (save_version_map versions) ≡ versions
load_version_map-save_version_map_example =
    load_version_map-save_version_map versions (ground arith)
      ((refl, (refl, (refl, (refl, tt)))), omega arith, ((refl, (refl, tt)), omega arith, tt))
