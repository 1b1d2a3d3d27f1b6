-- ===== src/Server/Locks/Exclusion.antt =====
-- Mutual exclusion: a lock that a client has taken is not given to anybody until it is released,
-- expires, or its file is deleted.
use squid_storage.Prelude.{
  ℕ, ◌+◌, ◌≡◌, refl, Bool, true, false, ltb, none, some, arith, Option-cases, Bool-cases, ◌⊎◌, inl,
  inr,
}
use squid_storage.Prelude.Key.{Bytes, bytes_key, bytes_eq}
use squid_storage.Prelude.Map.{find}
use squid_storage.Prelude.Map.Laws.{find-assign_self}
use squid_storage.Server.State.{Net, FileLock, State}
use squid_storage.Server.Locks.{
  lock_interval, ensure_entry, take_lock, acquire_lock, release_lock, check_file_lock_expiration,
  insert_lock, erase_lock, build_file_lock_map,
}
use squid_storage.Server.Locks.Rebuild.{Grows, ensure_entry-Grows}

-- The client holds the lock on the path, until the time.
pub record Holds (path client : Bytes) (until : ℕ) (st : State) : Type 0 where
  pub entry : FileLock
  pub found : find path st.locks ≡ some entry
  pub is_locked : entry.locked ≡ true
  pub by_client : entry.client_holder ≡ client
  pub expires : entry.expiration_time ≡ until

pub acquire_cases :
    (net : Net) (now : ℕ) (path client : Bytes) (st : State)
    → let ready = ensure_entry net now path st in
      ((find path ready.locks ≡ none) × (acquire_lock net now path client st ≡ (ready, false)))
      ⊎ ((l : FileLock) × (find path ready.locks ≡ some l)
          × (acquire_lock net now path client st ≡ take_lock now path client l ready))
unfolding acquire_lock
acquire_cases net now path client st =
    let ready = ensure_entry net now path st in
    elim (Option-cases (find path ready.locks)) [
      | inl absent ↦ inl (absent, rw (absent, acquire_lock))
      | inr (l, there) ↦ inr (l, there, rw (there, acquire_lock))
    ]

take_lock_grants :
    (now : ℕ) (path client : Bytes) (l : FileLock) (st : State)
    → (take_lock now path client l st).1 ≡ true
    → Holds path client (now + lock_interval) (take_lock now path client l st).0
      × (l.locked ≡ false)
unfolding take_lock
take_lock_grants now path client l st won = elim (Bool-cases l.locked) [
  | inl busy ↦ cc (rw busy at won)
  | inr free ↦ rw free (
    record {
      entry = record l {
        locked = true;
        client_holder = client;
        expiration_time = now + lock_interval;
      };
      found = find-assign_self path _ st.locks;
      is_locked = refl;
      by_client = refl;
      expires = refl;
    },
    refl,
  )
]

pub Holds-entry :
    {path client : Bytes} {until : ℕ} {st : State} (l : FileLock)
    → Holds path client until st
    → find path st.locks ≡ some l
    → l.locked ≡ true
Holds-entry l h there = ground (arith, h.found, h.is_locked)

pub Holds-Grows :
    {path client : Bytes} {until : ℕ} {s t : State}
    → Grows s t
    → Holds path client until s
    → Holds path client until t
Holds-Grows {path} g h = record {
  entry = h.entry;
  found = g.kept path h.entry h.found;
  is_locked = h.is_locked;
  by_client = h.by_client;
  expires = h.expires;
}

-- A client that is given a lock holds it for five minutes from then on, and nobody held it before.
pub acquire_lock_grants :
    (net : Net) (now : ℕ) (path client : Bytes) (st : State)
    → (acquire_lock net now path client st).1 ≡ true
    → Holds path client (now + lock_interval) (acquire_lock net now path client st).0
      × ((other : Bytes) (until : ℕ) → ¬ Holds path other until st)
acquire_lock_grants net now path client st won = elim (acquire_cases net now path client st) [
  | inl (absent, e) ↦ cc (rw e at won)
  | inr (l, there, e) ↦
      let ready = ensure_entry net now path st in
      let got = take_lock_grants now path client l ready (rw e at won) in
      (
        rw e got.0,
        λ other until h.
            let locked = Holds-entry l (Holds-Grows (ensure_entry-Grows net now path st) h) there in
            cc (locked, got.1),
      )
]

-- While a client holds a lock, every request for it is refused, the holder's own too, and the
-- holder, its time and the whole state stay as they were.
pub acquire_lock_refuses :
    (net : Net) (now until : ℕ) (path holder client : Bytes) (st : State)
    → Holds path holder until st
    → acquire_lock net now path client st ≡ (st, false)
unfolding acquire_lock ensure_entry take_lock
acquire_lock_refuses net now until path holder client st h = ground (arith, h.found, h.is_locked)

-- The requests and timers that reach the lock manager.
pub data Event : Type 0 where
  acquires : Net → ℕ → Bytes → Bytes → Event
  releases : Net → ℕ → Bytes → Event
  expiry_check : ℕ → Event
  creates : ℕ → Bytes → Event
  deletes : Bytes → Event
  rebuilds : Net → ℕ → Event

unfoldable pub step : Event → State → State
step (acquires net now path client) st = (acquire_lock net now path client st).0
step (releases net now path) st = (release_lock net now path st).0
step (expiry_check now) st = (check_file_lock_expiration now st).0
step (creates now path) st = insert_lock now path st
step (deletes path) st = erase_lock path st
step (rebuilds net now) st = build_file_lock_map net now st

-- The events that may end a hold on the path: its release, its deletion, and an expiry check after
-- the hold's time.
abbrev pub may_end : Bytes → ℕ → Event → Bool
may_end path until (releases net now p) = bytes_eq p path
may_end path until (expiry_check now) = ltb until now
may_end path until (deletes p) = bytes_eq p path
may_end path until _ = false
