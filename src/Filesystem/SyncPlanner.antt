-- ===== src/Filesystem/SyncPlanner.antt =====
-- common/src/filesystem/syncplanner.hpp: what a client and a server have to exchange so that both
-- hold the newest version of every file.
mod Plan
mod Examples
use squid_storage.Prelude.{
  ◌≡◌, Bool, true, false, if◌then◌else◌, Option, none, some, List, [], ◌∷◌, ◌++◌, map,
}
use squid_storage.Prelude.Key.{Bytes, bytes_key}
use squid_storage.Prelude.Int.{ℤ, ltz}
use squid_storage.Prelude.Map.{Map, find, assign, erase}

pub data SyncAction : Type 0 where
  upload download create_remote : SyncAction

pub record SyncOp : Type 0 where
  pub action : SyncAction
  pub file_path : Bytes
  pub version : ℤ

abbrev pub sync_op : SyncAction → Bytes → ℤ → SyncOp
sync_op a p v = record { action = a; file_path = p; version = v }

-- Both sides have the file: the newer version goes to the other side.
unfoldable pub compare_versions : Bytes → ℤ → ℤ → List SyncOp
compare_versions p l r =
    if ltz r l then sync_op upload p l ∷ [] else if ltz l r then sync_op download p r ∷ [] else []

-- The first loop: the operations, and what of the remote map no local file has erased.
unfoldable pub scan_local : Map Bytes ℤ → Map Bytes ℤ → List SyncOp × Map Bytes ℤ
unfolding find erase compare_versions
scan_local [] remote = ([], remote)
scan_local ((p, v) ∷ local) remote = elim (find p remote) [
  | some r ↦
      let (ops, rest) = scan_local local (erase p remote) in (compare_versions p v r ++ ops, rest)
  | none ↦ let (ops, rest) = scan_local local remote in (sync_op create_remote p v ∷ ops, rest)
]

-- The second loop: files that the server alone has.
unfoldable pub download_rest : Map Bytes ℤ → List SyncOp
download_rest [] = []
download_rest ((p, v) ∷ remote) = sync_op download p v ∷ download_rest remote

unfoldable pub plan_sync : Map Bytes ℤ → Map Bytes ℤ → List SyncOp
unfolding scan_local download_rest
plan_sync local remote = let (ops, rest) = scan_local local remote in ops ++ download_rest rest
