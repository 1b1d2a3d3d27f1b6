-- ===== src/Filesystem/SyncPlanner/Examples.antt =====
-- A plan for two small maps.
use squid_storage.Prelude.{◌≡◌, refl, some, [], ◌∷◌, arith}
use squid_storage.Prelude.Key.{Bytes, codes, bytes_key}
use squid_storage.Prelude.Int.{ℤ, pos}
use squid_storage.Prelude.Map.{Map, find}
use squid_storage.Prelude.Map.Laws.{IsOrdered}
use squid_storage.Filesystem.SyncPlanner.{upload, download, create_remote, sync_op, plan_sync}
use squid_storage.Filesystem.SyncPlanner.Plan.{ops_for, Planned, ops_for-plan_sync}

abbrev mine : Map Bytes ℤ
mine = (codes "a", pos 3) ∷ (codes "b", pos 1) ∷ (codes "c", pos 0) ∷ (codes "d", pos 4) ∷ []

abbrev theirs : Map Bytes ℤ
theirs = (codes "a", pos 2) ∷ (codes "b", pos 5) ∷ (codes "d", pos 4) ∷ (codes "e", pos 7) ∷ []

mine-IsOrdered : IsOrdered mine
mine-IsOrdered = ground arith

theirs-IsOrdered : IsOrdered theirs
theirs-IsOrdered = ground arith

plan_runs :
    plan_sync mine theirs
    ≡ sync_op upload (codes "a") (pos 3)
      ∷ sync_op download (codes "b") (pos 5)
      ∷ sync_op create_remote (codes "c") (pos 0)
      ∷ sync_op download (codes "e") (pos 7)
      ∷ []
unfolding plan_sync
plan_runs = refl

ops_for-plan_sync_example :
    Planned (codes "b") (some (pos 1)) (some (pos 5)) (ops_for (codes "b") (plan_sync mine theirs))
unfolding find
ops_for-plan_sync_example =
    ops_for-plan_sync (codes "b") mine theirs mine-IsOrdered theirs-IsOrdered
