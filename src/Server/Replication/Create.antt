-- ===== src/Server/Replication/Create.antt =====
-- The creation of a file: all or nothing, by its quorum.
use squid_storage.Prelude.{
  ℕ, ◌≤◌, ◌<◌, ◌≡◌, refl, ◌∙◌, true, false, some, map, Bool-cases, ◌≢◌, inl, inr, le→not-ltb,
  lt→ltb,
}
use squid_storage.Prelude.Lists.{length}
use squid_storage.Prelude.Key.{Bytes, bytes_key, bytes_eq, bytes_eq_iff}
use squid_storage.Prelude.Int.{ℤ}
use squid_storage.Prelude.Map.{find}
use squid_storage.Prelude.Map.Laws.{IsOrdered, find-assign_self, find-assign_ne}
use squid_storage.Filesystem.StateFile.{save_version_map}
use squid_storage.Server.State.{create_file, Net, undo_create, FileLock, State}
use squid_storage.Server.Locks.{file_lock, insert_lock}
use squid_storage.Server.Locks.Rebuild.{insert_there}
use squid_storage.Server.Replication.{
  quorum, acked_by, holders_of, hold_all, persistable, persist_state, commit_create,
  propagate_create_file,
}
use squid_storage.Server.Replication.Calls.{
  acks_at, acked_by-IsOrdered, find-acked_by, updated, hold_all-Registers,
}

-- Both files under `.squid` hold what the server knows.
pub record IsDurable (st : State) : Type 0 where
  pub versions_saved : st.version_file ≡ save_version_map st.versions
  pub holders_saved : st.holder_file ≡ persistable st.holders

-- The file is known at the version, its holders are the data nodes that acknowledged and those that
-- were holders before, it has a lock entry, the state is saved, and other files are as they were.
pub record Created (net : Net) (path : Bytes) (v : ℤ) (file_data : Bytes) (s t : State)
    : Type 0 where
  pub version : find path t.versions ≡ some v
  pub held :
      (name : Bytes)
      → find name (holders_of path t)
        ≡ updated
            (acks_at net (create_file path v file_data) (find name s.data_nodes))
            (find name (holders_of path s))
  pub lock : (l : FileLock) × (find path t.locks ≡ some l)
  pub durable : IsDurable t
  pub other_versions : (p : Bytes) → path ≢ p → find p t.versions ≡ find p s.versions
  pub other_holders : (p : Bytes) → path ≢ p → holders_of p t ≡ holders_of p s

not_eq : (a b : Bytes) → a ≢ b → bytes_eq a b ≡ false
not_eq a b h = elim (Bool-cases (bytes_eq a b)) [
  | inl e ↦ absurd (h ((bytes_eq_iff a b).0 e))
  | inr e ↦ e
]

pub commit_create-Created :
    (net : Net) (now : ℕ) (path : Bytes) (v : ℤ) (file_data : Bytes) (st : State)
    → IsOrdered st.data_nodes
    → Created net path v file_data st
        (commit_create now path v (acked_by net (create_file path v file_data) st.data_nodes) st)
unfolding commit_create persist_state insert_lock
commit_create-Created net now path v file_data st o =
    let c = create_file path v file_data in
    let acked = acked_by net c st.data_nodes in
    let r = hold_all-Registers path acked st (acked_by-IsOrdered net c st.data_nodes o) in
    record {
      version = find-assign_self path v (hold_all path acked st).versions;
      held = λ name. r.held name ∙ rw (find-acked_by net c name st.data_nodes o);
      lock = insert_there path (file_lock path now) (hold_all path acked st).locks;
      durable = record { versions_saved = refl; holders_saved = refl };
      other_versions =
          λ p h. find-assign_ne p path v (hold_all path acked st).versions h ∙ rw r.same_versions;
      other_holders = λ p h. r.others p (not_eq path p h);
    }

-- A creation succeeds exactly when a quorum of the connected data nodes acknowledges it. Then the
-- file is known at the version that was asked for, every data node that acknowledged is a holder, and
-- the two files on disk agree with the memory. Otherwise nothing changes on the server, and exactly
-- the data nodes that acknowledged are told to delete the file again.
pub propagate_create_file_lem :
    (net : Net) (now : ℕ) (path : Bytes) (v : ℤ) (origin file_data : Bytes) (st : State)
    → IsOrdered st.data_nodes
    → let acked = acked_by net (create_file path v file_data) st.data_nodes in
      let done = propagate_create_file net now path v origin file_data st in
      (quorum st ≤ length acked → (done.2 ≡ true) × Created net path v file_data st done.0)
      × (length acked < quorum st → done ≡ (st, map (λ node. undo_create node.1 path) acked, false))
unfolding propagate_create_file
propagate_create_file_lem net now path v origin file_data st o =
    let acked = acked_by net (create_file path v file_data) st.data_nodes in
    (
      λ enough.
          rw (le→not-ltb (length acked) (quorum st) enough)
            (refl, commit_create-Created net now path v file_data st o),
      λ few. rw (lt→ltb (length acked) (quorum st) few),
    )
