-- ===== src/Server/Locks/Expiry.antt =====
-- The expiry check: it spares every lock whose time has not come, and the gap between its two
-- halves.
use squid_storage.Prelude.{
  ℕ, ◌≤◌, ◌≡◌, refl, ◌∙◌, true, false, some, List, [], ◌∷◌, arith, Option-cases, Bool-cases, ◌⊎◌,
  inl, inr,
}
use squid_storage.Prelude.Lists.{All}
use squid_storage.Prelude.Key.{Bytes, bytes_key, bytes_eq, bytes_eq_iff, bytes_before_irrefl}
use squid_storage.Prelude.Map.{Map, find, After}
use squid_storage.Prelude.Map.Laws.{IsOrdered, find-assign_self, find-assign_ne}
use squid_storage.Server.State.{FileLock, State}
use squid_storage.Server.Locks.{
  expired_locks, release_one, release_expired, check_file_lock_expiration, unlock,
}
use squid_storage.Server.Locks.Exclusion.{Holds}

-- The list names other paths only.
abbrev Spares : Bytes → List (Bytes × Bytes) → Type 0
Spares path es = All (λ e. bytes_eq e.0 path ≡ false) es

not_eq_after : (p k : Bytes) → bytes_key.before p k ≡ true → bytes_eq k p ≡ false
not_eq_after p k h = elim (Bool-cases (bytes_eq k p)) [
  | inl e ↦ ground (arith, bytes_eq_iff k p, bytes_before_irrefl p)
  | inr e ↦ e
]

expired_locks-After :
    (now : ℕ) (path : Bytes) (m : Map Bytes FileLock)
    → After path m
    → Spares path (expired_locks now m)
unfolding expired_locks
expired_locks-After now path [] a = tt
expired_locks-After now path ((k, l) ∷ m) a =
    ground (arith, not_eq_after path k a.0, expired_locks-After now path m a.1)

expired_locks-Spares :
    (now : ℕ) (path : Bytes) (l : FileLock) (m : Map Bytes FileLock)
    → IsOrdered m
    → find path m ≡ some l
    → now ≤ l.expiration_time
    → Spares path (expired_locks now m)
unfolding expired_locks find
expired_locks-Spares now path l [] o there h = tt
expired_locks-Spares now path l ((k, x) ∷ m) o there h = elim (Bool-cases (bytes_eq k path)) [
  | inl here ↦ ground (arith, bytes_eq_iff k path, expired_locks-After now k m o.0)
  | inr away ↦ ground (arith, expired_locks-Spares now path l m o.1)
]

release_one-Holds :
    (path client : Bytes) (until : ℕ) (e : Bytes × Bytes) (st : State)
    → bytes_eq e.0 path ≡ false
    → Holds path client until st
    → Holds path client until (release_one e st).0
unfolding release_one
release_one-Holds path client until (p, holder) st away h = elim (Option-cases (find p st.locks)) [
  | inl absent ↦ rw (absent, release_one) h
  | inr (l, there) ↦
      rw (there, release_one)
        (record {
          entry = h.entry;
          found =
              find-assign_ne path p _ st.locks (λ e. cc (away, (bytes_eq_iff p path).1 e))
              ∙ h.found;
          is_locked = h.is_locked;
          by_client = h.by_client;
          expires = h.expires;
        })
]

release_expired-Holds :
    (path client : Bytes) (until : ℕ) (es : List (Bytes × Bytes)) (st : State)
    → Spares path es
    → Holds path client until st
    → Holds path client until (release_expired es st).0
unfolding release_expired
release_expired-Holds path client until [] st s h = h
release_expired-Holds path client until (e ∷ es) st s h =
    release_expired-Holds path client until es (release_one e st).0 s.1
      (release_one-Holds path client until e st s.0 h)

-- An expiry check that runs whole spares a lock whose time has not come.
pub check_file_lock_expiration-Holds :
    (now until : ℕ) (path client : Bytes) (st : State)
    → IsOrdered st.locks
    → now ≤ until
    → Holds path client until st
    → Holds path client until (check_file_lock_expiration now st).0
unfolding check_file_lock_expiration
check_file_lock_expiration-Holds now until path client st o h held =
    release_expired-Holds path client until (expired_locks now st.locks) st
      (expired_locks-Spares now path held.entry st.locks o held.found (omega (arith, held.expires)))
      held

-- The path has an entry that nobody holds.
pub record IsOpen (path : Bytes) (st : State) : Type 0 where
  pub entry : FileLock
  pub found : find path st.locks ≡ some entry
  pub not_locked : entry.locked ≡ false

unlock-IsOpen :
    (path p : Bytes) (l : FileLock) (st : State)
    → ((p ≡ path) ⊎ IsOpen path st)
    → IsOpen path (unlock p l st)
unlock-IsOpen path p l st (inl e) = record {
  entry = record l { locked = false };
  found = rw e (find-assign_self path (record l { locked = false }) st.locks);
  not_locked = refl;
}
unlock-IsOpen path p l st (inr h) = elim (Bool-cases (bytes_eq p path)) [
  | inl here ↦ record {
    entry = record l { locked = false };
    found =
        rw ((bytes_eq_iff p path).0 here)
          (find-assign_self path (record l { locked = false }) st.locks);
    not_locked = refl;
  }
  | inr away ↦ record {
    entry = h.entry;
    found = find-assign_ne path p _ st.locks (λ e. cc (away, (bytes_eq_iff p path).1 e)) ∙ h.found;
    not_locked = h.not_locked;
  }
]

release_one-IsOpen :
    (path : Bytes) (e : Bytes × Bytes) (st : State)
    → IsOpen path st
    → IsOpen path (release_one e st).0
unfolding release_one
release_one-IsOpen path (p, holder) st h = elim (Option-cases (find p st.locks)) [
  | inl absent ↦ rw (absent, release_one) h
  | inr (l, there) ↦ rw (there, release_one) (unlock-IsOpen path p l st (inr h))
]

release_one_opens :
    (path client holder : Bytes) (until : ℕ) (st : State)
    → Holds path client until st
    → IsOpen path (release_one (path, holder) st).0
unfolding release_one
release_one_opens path client holder until st h =
    rw (h.found, release_one) (unlock-IsOpen path path h.entry st (inl refl))

release_expired-IsOpen :
    (path : Bytes) (es : List (Bytes × Bytes)) (st : State)
    → IsOpen path st
    → IsOpen path (release_expired es st).0
unfolding release_expired
release_expired-IsOpen path [] st h = h
release_expired-IsOpen path (e ∷ es) st h =
    release_expired-IsOpen path es (release_one e st).0 (release_one-IsOpen path e st h)

-- The list names the path.
abbrev pub Lists : Bytes → List (Bytes × Bytes) → Type 0
Lists path [] = ⊥
Lists path (e ∷ es) = (e.0 ≡ path) ⊎ Lists path es

-- The second half of an expiry check opens every lock that the first half listed, as it then stands
-- and without a look at its time: if the lock was released and given to another client in between,
-- that client loses it however long it had left.
pub release_expired_unchecked :
    (path client : Bytes) (until : ℕ) (es : List (Bytes × Bytes)) (st : State)
    → Lists path es
    → Holds path client until st
    → IsOpen path (release_expired es st).0
unfolding release_expired
release_expired_unchecked path client until [] st named h = absurd named
release_expired_unchecked path client until ((p, holder) ∷ es) st (inl e) h =
    release_expired-IsOpen path es (release_one (p, holder) st).0
      (rw e (release_one_opens path client holder until st h))
release_expired_unchecked path client until ((p, holder) ∷ es) st (inr rest) h =
    elim (Bool-cases (bytes_eq p path)) [
      | inl here ↦
          release_expired-IsOpen path es (release_one (p, holder) st).0
            (rw ((bytes_eq_iff p path).0 here) (release_one_opens path client holder until st h))
      | inr away ↦
          release_expired_unchecked path client until es (release_one (p, holder) st).0 rest
            (release_one-Holds path client until (p, holder) st away h)
    ]
