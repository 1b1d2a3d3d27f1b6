-- ===== src/DataNode/Deletes.antt =====
-- What a data node deletes is gone.
use squid_storage.Prelude.{◌≡◌, sym, subst, true, if◌then◌else◌, none, some}
use squid_storage.Prelude.Key.{Bytes, bytes_key, bytes_eq}
use squid_storage.Prelude.Int.{ℤ, negsuc}
use squid_storage.Prelude.Map.{find}
use squid_storage.Prelude.Map.Laws.{find-erase}
use squid_storage.Protocol.Opcode.{delete_file}
use squid_storage.Protocol.Format.{response_ack}
use squid_storage.Filesystem.VersionFile.{get_file_version}
use squid_storage.Filesystem.VersionFile.Drop.{get_file_version-drop_file_version}
use squid_storage.DataNode.{FileSystem, Node, respond, deleted, delete_file_and_version, dispatch}

module _ (fs : FileSystem) where
  -- What `q` and its version are once `path` is deleted.
  abbrev pub Deleted : Bytes → Bytes → Node → Node → Type 0
  Deleted q path n d =
      (find (fs.resolve_path q) d.disk ≡ (
        if bytes_eq (fs.resolve_path path) (fs.resolve_path q)
        then none
        else find (fs.resolve_path q) n.disk))
      × (get_file_version q d.version_text
          ≡ (if bytes_eq path q then negsuc 0 else get_file_version q n.version_text))

  -- A request to delete a file that is there removes it and its version, and leaves every other file
  -- and version as it was.
  pub dispatch-deletes :
      (q path s : Bytes) (v : ℤ) (n : Node)
      → find (fs.resolve_path path) n.disk ≡ some s
      → Deleted q path n (dispatch fs delete_file path v n)
  unfolding dispatch delete_file_and_version respond
  dispatch-deletes q path s v n there =
      subst
        (λ r.
          Deleted q path n
            (respond (response_ack true) (deleted fs path (fs.resolve_path path) n r)))
        (sym there)
        (
          find-erase (fs.resolve_path q) (fs.resolve_path path) n.disk,
          get_file_version-drop_file_version path q n.version_text,
        )
