-- ===== src/Server/Replication/Update.antt =====
-- The update of a file: the server gives the new version, one above the old.
use squid_storage.Prelude.{
  ℕ, ◌+◌, ◌/◌, ◌∙◌, sym, none, Option-cases, inl, inr, ◌≤◌, ◌<◌, ◌≡◌, refl, ap, some, [], min,
  arith, ◌≢◌, le→not-ltb, lt→ltb,
}
use squid_storage.Prelude.Lists.{length}
use squid_storage.Prelude.Key.{Bytes, bytes_key}
use squid_storage.Prelude.Int.{ℤ, negsuc, succz}
use squid_storage.Prelude.Map.{find}
use squid_storage.Prelude.Map.Laws.{find-assign_self, find-assign_ne}
use squid_storage.Server.State.{update_file, Net, State}
use squid_storage.Server.Replication.{
  quorum, acked_by, holders_of, persist_state, next_version, commit_update, propagate_update_file,
}
use squid_storage.Server.Replication.Votes.{votes_for, count, length-acked_by}
use squid_storage.Server.Replication.Create.{IsDurable}

-- One more than the server's version of the file, or than the client's where the server has none.
pub record IsNext (path : Bytes) (seen v : ℤ) (s : State) : Type 0 where
  pub after_known : (old : ℤ) → find path s.versions ≡ some old → v ≡ succz old
  pub after_seen : find path s.versions ≡ none → v ≡ succz seen

-- The file has the version, the state is saved, and other versions, the holders and the locks are as
-- they were.
pub record Updated (path : Bytes) (v : ℤ) (s t : State) : Type 0 where
  pub version : find path t.versions ≡ some v
  pub durable : IsDurable t
  pub other_versions : (p : Bytes) → path ≢ p → find p t.versions ≡ find p s.versions
  pub same_holders : t.holders ≡ s.holders
  pub same_locks : t.locks ≡ s.locks

pub next_version-IsNext :
    (path : Bytes) (seen : ℤ) (st : State) → IsNext path seen (next_version path seen st) st
next_version-IsNext path seen st = record { after_known = λ old h. rw h; after_seen = λ h. rw h }

commit_update-Updated :
    (path : Bytes) (v : ℤ) (st : State) → Updated path v st (commit_update path v st)
unfolding commit_update persist_state
commit_update-Updated path v st = record {
  version = find-assign_self path v st.versions;
  durable = record { versions_saved = refl; holders_saved = refl };
  other_versions = λ p h. find-assign_ne p path v st.versions h;
  same_holders = refl;
  same_locks = refl;
}

-- How many live holders acknowledge the update, and how many have to.
abbrev pub update_votes : Net → Bytes → ℤ → Bytes → State → ℕ
update_votes net path v file_data st =
    count (votes_for net (update_file path v file_data)) (holders_of path st)

abbrev pub update_needs : Bytes → State → ℕ
update_needs path st = min (st.replication_factor / 2 + 1) (length (holders_of path st))

pub propagate_update_file_lem :
    (net : Net) (path : Bytes) (seen : ℤ) (origin file_data : Bytes) (st : State)
    → let done = propagate_update_file net path seen origin file_data st in
      (v : ℤ) × IsNext path seen v st
      × (update_needs path st ≤ update_votes net path v file_data st
          → (done.2 ≡ v) × Updated path v st done.0)
      × (update_votes net path v file_data st < update_needs path st → done ≡ (st, [], negsuc 0))
unfolding propagate_update_file
propagate_update_file_lem net path seen origin file_data st =
    let v = next_version path seen st in
    let nodes = holders_of path st in
    let acked = acked_by net (update_file path v file_data) nodes in
    let votes = length-acked_by net (update_file path v file_data) nodes in
    (
      v,
      next_version-IsNext path seen st,
      λ enough.
          rw
            (le→not-ltb (length acked) (min (quorum st) (length nodes))
              (omega (arith, enough, votes)))
            (refl, commit_update-Updated path v st),
      λ few.
          rw (lt→ltb (length acked) (min (quorum st) (length nodes)) (omega (arith, few, votes))),
    )

-- There is one next version.
pub next_unique :
    (path : Bytes) (seen v w : ℤ) (st : State)
    → IsNext path seen v st
    → IsNext path seen w st
    → v ≡ w
next_unique path seen v w st h k = elim (Option-cases (find path st.versions)) [
  | inl absent ↦ h.after_seen absent ∙ sym (k.after_seen absent)
  | inr (old, there) ↦ h.after_known old there ∙ sym (k.after_known old there)
]

held_by_nobody :
    (path : Bytes) (s t : State)
    → t.holders ≡ s.holders
    → holders_of path s ≡ []
    → holders_of path t ≡ []
held_by_nobody path s t e h = rw e h

-- An update of a file that no data node holds is committed with no acknowledgement at all: whatever
-- the sessions answer, the new version is recorded and returned, though nobody stored the bytes.
pub propagate_update_file_unheld :
    (net : Net) (path : Bytes) (seen : ℤ) (origin file_data : Bytes) (st : State)
    → holders_of path st ≡ []
    → let v = next_version path seen st in
      let done = propagate_update_file net path seen origin file_data st in
      (done.2 ≡ v) × (find path done.0.versions ≡ some v) × (holders_of path done.0 ≡ [])
propagate_update_file_unheld net path seen origin file_data st h =
    let after = (propagate_update_file net path seen origin file_data st).0 in
    let (v, is_next, good, bad) = propagate_update_file_lem net path seen origin file_data st in
    let done = good (omega (arith, ap length h)) in
    let same =
      next_unique path seen v (next_version path seen st) st is_next
        (next_version-IsNext path seen st) in
    (
      done.0 ∙ same,
      done.1.version ∙ ap some same,
      held_by_nobody path st after done.1.same_holders h,
    )
