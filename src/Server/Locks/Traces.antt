-- ===== src/Server/Locks/Traces.antt =====
-- Mutual exclusion over every history of events of the lock manager.
use squid_storage.Prelude.{
  ℕ, ◌+◌, ◌≡◌, ◌∙◌, true, false, some, List, [], ◌∷◌, Option-cases, Bool-cases, inl, inr,
  not-ltb→le,
}
use squid_storage.Prelude.Lists.{All}
use squid_storage.Prelude.Key.{Bytes, bytes_key, bytes_eq, bytes_eq_iff}
use squid_storage.Prelude.Map.{find, assign}
use squid_storage.Prelude.Map.Laws.{
  IsOrdered, assign-IsOrdered, erase-IsOrdered, find-assign_ne, find-erase_ne,
}
use squid_storage.Server.State.{Net, FileLock, State}
use squid_storage.Server.Locks.{
  file_lock, lock_interval, ensure_entry, take_lock, acquire_lock, release_lock, expired_locks,
  release_one, release_expired, check_file_lock_expiration, insert_lock, erase_lock,
}
use squid_storage.Server.Locks.Rebuild.{
  insert_kept, insert-IsOrdered, build_file_lock_map-Grows, ensure_entry-Grows,
}
use squid_storage.Server.Locks.Exclusion.{
  Holds, Holds-Grows, Holds-entry, acquire_cases, acquire_lock_grants, acquire_lock_refuses, Event,
  acquires, releases, expiry_check, creates, deletes, rebuilds, step, may_end,
}
use squid_storage.Server.Locks.Expiry.{check_file_lock_expiration-Holds}

-- A change to the entry of another path.
assign_away-Holds :
    (path p client : Bytes) (until : ℕ) (l : FileLock) (st : State)
    → bytes_eq p path ≡ false
    → Holds path client until st
    → Holds path client until (record st { locks = assign p l st.locks })
assign_away-Holds path p client until l st away h = record {
  entry = h.entry;
  found = find-assign_ne path p l st.locks (λ e. cc (away, (bytes_eq_iff p path).1 e)) ∙ h.found;
  is_locked = h.is_locked;
  by_client = h.by_client;
  expires = h.expires;
}

take_lock-Holds :
    (now until : ℕ) (path p client other : Bytes) (l : FileLock) (st : State)
    → find p st.locks ≡ some l
    → Holds path client until st
    → Holds path client until (take_lock now p other l st).0
unfolding take_lock
take_lock-Holds now until path p client other l st there h = elim (Bool-cases l.locked) [
  | inl busy ↦ rw busy h
  | inr free ↦ elim (Bool-cases (bytes_eq p path)) [
    | inl here ↦
        let locked = Holds-entry l h (rw (← (bytes_eq_iff p path).0 here) there) in
        cc (locked, free)
    | inr away ↦ rw free (assign_away-Holds path p client until _ st away h)
  ]
]

acquire_lock-Holds :
    (net : Net) (now until : ℕ) (path p client other : Bytes) (st : State)
    → Holds path client until st
    → Holds path client until (acquire_lock net now p other st).0
acquire_lock-Holds net now until path p client other st h =
    let ready = ensure_entry net now p st in
    let still = Holds-Grows (ensure_entry-Grows net now p st) h in
    elim (acquire_cases net now p other st) [
      | inl (absent, e) ↦ rw e still
      | inr (l, there, e) ↦ rw e (take_lock-Holds now until path p client other l ready there still)
    ]

release_lock-Holds :
    (net : Net) (now until : ℕ) (path p client : Bytes) (st : State)
    → bytes_eq p path ≡ false
    → Holds path client until st
    → Holds path client until (release_lock net now p st).0
unfolding release_lock
release_lock-Holds net now until path p client st away h = elim (Option-cases (find p st.locks)) [
  | inl absent ↦ rw (absent, release_lock) (Holds-Grows (build_file_lock_map-Grows net now st) h)
  | inr (l, there) ↦ rw (there, release_lock) (assign_away-Holds path p client until _ st away h)
]

-- One event that may not end the hold leaves it as it is.
step-Holds :
    (path client : Bytes) (until : ℕ) (e : Event) (st : State)
    → IsOrdered st.locks
    → may_end path until e ≡ false
    → Holds path client until st
    → Holds path client until (step e st)
unfolding step insert_lock erase_lock
step-Holds path client until (acquires net now p other) st o m h =
    acquire_lock-Holds net now until path p client other st h
step-Holds path client until (releases net now p) st o m h =
    release_lock-Holds net now until path p client st m h
step-Holds path client until (expiry_check now) st o m h =
    check_file_lock_expiration-Holds now until path client st o (not-ltb→le until now m) h
step-Holds path client until (creates now p) st o m h = record {
  entry = h.entry;
  found = insert_kept p path (file_lock p now) h.entry st.locks h.found;
  is_locked = h.is_locked;
  by_client = h.by_client;
  expires = h.expires;
}
step-Holds path client until (deletes p) st o m h = record {
  entry = h.entry;
  found = find-erase_ne path p st.locks (λ e. cc (m, (bytes_eq_iff p path).1 e)) ∙ h.found;
  is_locked = h.is_locked;
  by_client = h.by_client;
  expires = h.expires;
}
step-Holds path client until (rebuilds net now) st o m h =
    Holds-Grows (build_file_lock_map-Grows net now st) h

-- The lock map stays in key order.
release_one-IsOrdered :
    (e : Bytes × Bytes) (st : State) → IsOrdered st.locks → IsOrdered (release_one e st).0.locks
unfolding release_one
release_one-IsOrdered (p, holder) st o = elim (Option-cases (find p st.locks)) [
  | inl absent ↦ rw (absent, release_one) o
  | inr (l, there) ↦ rw (there, release_one) (assign-IsOrdered p _ st.locks o)
]

release_expired-IsOrdered :
    (es : List (Bytes × Bytes)) (st : State)
    → IsOrdered st.locks
    → IsOrdered (release_expired es st).0.locks
unfolding release_expired
release_expired-IsOrdered [] st o = o
release_expired-IsOrdered (e ∷ es) st o =
    release_expired-IsOrdered es (release_one e st).0 (release_one-IsOrdered e st o)

take_lock-IsOrdered :
    (now : ℕ) (p other : Bytes) (l : FileLock) (st : State)
    → IsOrdered st.locks
    → IsOrdered (take_lock now p other l st).0.locks
unfolding take_lock
take_lock-IsOrdered now p other l st o = elim (Bool-cases l.locked) [
  | inl busy ↦ rw busy o
  | inr free ↦ rw free (assign-IsOrdered p _ st.locks o)
]

pub acquire_lock-IsOrdered :
    (net : Net) (now : ℕ) (p other : Bytes) (st : State)
    → IsOrdered st.locks
    → IsOrdered (acquire_lock net now p other st).0.locks
acquire_lock-IsOrdered net now p other st o =
    let ready = (ensure_entry-Grows net now p st).ordered o in
    elim (acquire_cases net now p other st) [
      | inl (absent, e) ↦ rw e ready
      | inr (l, there, e) ↦
          rw e (take_lock-IsOrdered now p other l (ensure_entry net now p st) ready)
    ]

release_lock-IsOrdered :
    (net : Net) (now : ℕ) (p : Bytes) (st : State)
    → IsOrdered st.locks
    → IsOrdered (release_lock net now p st).0.locks
unfolding release_lock
release_lock-IsOrdered net now p st o = elim (Option-cases (find p st.locks)) [
  | inl absent ↦ rw (absent, release_lock) ((build_file_lock_map-Grows net now st).ordered o)
  | inr (l, there) ↦ rw (there, release_lock) (assign-IsOrdered p _ st.locks o)
]

pub step-IsOrdered : (e : Event) (st : State) → IsOrdered st.locks → IsOrdered (step e st).locks
unfolding step insert_lock erase_lock check_file_lock_expiration
step-IsOrdered (acquires net now p other) st o = acquire_lock-IsOrdered net now p other st o
step-IsOrdered (releases net now p) st o = release_lock-IsOrdered net now p st o
step-IsOrdered (expiry_check now) st o = release_expired-IsOrdered (expired_locks now st.locks) st o
step-IsOrdered (creates now p) st o = insert-IsOrdered p (file_lock p now) st.locks o
step-IsOrdered (deletes p) st o = erase-IsOrdered p st.locks o
step-IsOrdered (rebuilds net now) st o = (build_file_lock_map-Grows net now st).ordered o

unfoldable pub run : List Event → State → State
unfolding step
run [] st = st
run (e ∷ es) st = run es (step e st)

pub run-Holds :
    (path client : Bytes) (until : ℕ) (es : List Event) (st : State)
    → IsOrdered st.locks
    → All (λ e. may_end path until e ≡ false) es
    → Holds path client until st
    → Holds path client until (run es st)
unfolding run
run-Holds path client until [] st o m h = h
run-Holds path client until (e ∷ es) st o m h =
    run-Holds path client until es (step e st) (step-IsOrdered e st o) m.1
      (step-Holds path client until e st o m.0 h)

pub run-IsOrdered :
    (es : List Event) (st : State) → IsOrdered st.locks → IsOrdered (run es st).locks
unfolding run
run-IsOrdered [] st o = o
run-IsOrdered (e ∷ es) st o = run-IsOrdered es (step e st) (step-IsOrdered e st o)

-- Once a client was given a lock, then after every history of events of the lock manager that
-- neither releases the path nor deletes it nor checks expiry after the lock's five minutes, the lock is
-- still the client's, and every further request for it is refused.
pub acquire_lock_excludes :
    (net net' : Net) (now now' : ℕ) (path client other : Bytes) (es : List Event) (st : State)
    → IsOrdered st.locks
    → (acquire_lock net now path client st).1 ≡ true
    → All (λ e. may_end path (now + lock_interval) e ≡ false) es
    → let later = run es (acquire_lock net now path client st).0 in
      Holds path client (now + lock_interval) later
      × (acquire_lock net' now' path other later ≡ (later, false))
acquire_lock_excludes net net' now now' path client other es st o won m =
    let got = (acquire_lock_grants net now path client st won).0 in
    let ordered = acquire_lock-IsOrdered net now path client st o in
    let still =
      run-Holds path client (now + lock_interval) es (acquire_lock net now path client st).0 ordered
        m got in
    (still, acquire_lock_refuses net' now' (now + lock_interval) path client other _ still)
