-- ===== src/Server/Replication/Delete.antt =====
-- The deletion of a file.
use squid_storage.Prelude.{
  ◌+◌, ◌/◌, ℕ, ◌≤◌, ◌<◌, ◌≡◌, refl, Bool, true, false, ◌&&◌, ltb, none, [], min, arith, ◌⊎◌, ◌≢◌,
  lt→ltb,
}
use squid_storage.Prelude.Lists.{length}
use squid_storage.Prelude.Key.{Bytes, bytes_key}
use squid_storage.Prelude.Map.{find}
use squid_storage.Prelude.Map.Laws.{find-erase_self, find-erase_ne}
use squid_storage.Server.State.{delete_file, Net, State}
use squid_storage.Server.Locks.{erase_lock}
use squid_storage.Server.Replication.{
  quorum, acked_by, asked, holders_of, persist_state, commit_delete, propagate_delete_file,
}
use squid_storage.Server.Replication.Votes.{is_live, votes_for, count, length-acked_by, asked-count}
use squid_storage.Server.Replication.Create.{IsDurable}

-- Nothing of the file is left on the server, the state is saved, and other files are as they were.
pub record Deleted (path : Bytes) (s t : State) : Type 0 where
  pub no_version : find path t.versions ≡ none
  pub no_holders : find path t.holders ≡ none
  pub no_lock : find path t.locks ≡ none
  pub durable : IsDurable t
  pub other_versions : (p : Bytes) → path ≢ p → find p t.versions ≡ find p s.versions
  pub other_holders : (p : Bytes) → path ≢ p → find p t.holders ≡ find p s.holders
  pub other_locks : (p : Bytes) → path ≢ p → find p t.locks ≡ find p s.locks

commit_delete-Deleted :
    (on_disk : Bool) (path : Bytes) (st : State) → Deleted path st (commit_delete on_disk path st)
unfolding commit_delete persist_state erase_lock
commit_delete-Deleted true path st = record {
  no_version = find-erase_self path st.versions;
  no_holders = find-erase_self path st.holders;
  no_lock = find-erase_self path st.locks;
  durable = record { versions_saved = refl; holders_saved = refl };
  other_versions = λ p h. find-erase_ne p path st.versions h;
  other_holders = λ p h. find-erase_ne p path st.holders h;
  other_locks = λ p h. find-erase_ne p path st.locks h;
}
commit_delete-Deleted false path st = record {
  no_version = find-erase_self path st.versions;
  no_holders = find-erase_self path st.holders;
  no_lock = find-erase_self path st.locks;
  durable = record { versions_saved = refl; holders_saved = refl };
  other_versions = λ p h. find-erase_ne p path st.versions h;
  other_holders = λ p h. find-erase_ne p path st.holders h;
  other_locks = λ p h. find-erase_ne p path st.locks h;
}

refused :
    (total acks needed : ℕ)
    → 0 < total
    → acks < min needed total
    → ltb 0 total && ltb acks (min needed total) ≡ true
refused total acks needed h k = rw (lt→ltb 0 total h) (lt→ltb acks (min needed total) k)

allowed :
    (total acks needed : ℕ)
    → (total ≡ 0) ⊎ (min needed total ≤ acks)
    → ltb 0 total && ltb acks (min needed total) ≡ false
allowed total acks needed h = ground arith

-- How many live data nodes hold the file, how many of them acknowledge its deletion, and how many
-- have to.
abbrev pub live_count : Net → Bytes → State → ℕ
live_count net path st = count (is_live net) (holders_of path st)

abbrev pub delete_votes : Net → Bytes → State → ℕ
delete_votes net path st = count (votes_for net (delete_file path)) (holders_of path st)

abbrev pub delete_needs : Net → Bytes → State → ℕ
delete_needs net path st = min (st.replication_factor / 2 + 1) (live_count net path st)

-- A deletion takes place when no live data node holds the file, or as many of those that do
-- acknowledge it as half the replication factor and one more, or all of them where they are fewer:
-- then no version, holder or lock of the file is left. Otherwise nothing changes on the server and
-- nobody is told.
pub propagate_delete_file_lem :
    (net : Net) (on_disk : Bool) (path origin : Bytes) (st : State)
    → let done = propagate_delete_file net on_disk path origin st in
      ((live_count net path st ≡ 0) ⊎ (delete_needs net path st ≤ delete_votes net path st)
        → Deleted path st done.0)
      × (0 < live_count net path st
          → delete_votes net path st < delete_needs net path st
          → done ≡ (st, []))
unfolding propagate_delete_file
propagate_delete_file_lem net on_disk path origin st =
    let nodes = holders_of path st in
    let total = asked net nodes in
    let acks = length (acked_by net (delete_file path) nodes) in
    let live = asked-count net nodes in
    let votes = length-acked_by net (delete_file path) nodes in
    (
      λ fine.
          rw (allowed total acks (quorum st) (rw (live, votes) fine))
            (commit_delete-Deleted on_disk path st),
      λ some_asked few.
          rw (refused total acks (quorum st) (rw live some_asked) (rw (live, votes) few)),
    )
