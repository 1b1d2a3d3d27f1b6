-- ===== src/Server/Locks/Reports.antt =====
-- After a rebuild the lock map has an entry for every file that a data node reports.
use squid_storage.Prelude.{
  ℕ, ◌≡◌, Bool, true, false, if◌then◌else◌, some, [], ◌∷◌, Bool-cases, inl, inr, some-injective,
}
use squid_storage.Prelude.Key.{Bytes, bytes_key, bytes_eq, bytes_eq_iff}
use squid_storage.Prelude.Int.{ℤ}
use squid_storage.Prelude.Map.{Map, find, insert}
use squid_storage.Protocol.Message.{is_response, get_file_version_map}
use squid_storage.Server.State.{SessionPtr, Net, sync_status, FileLock, State}
use squid_storage.Server.Locks.{
  file_lock, store_version, add_reported, add_node, add_nodes, build_file_lock_map,
}
use squid_storage.Server.Locks.Rebuild.{
  Grows, insert_there, add_reported-Grows, add_nodes-Grows, build_file_lock_map-Grows,
}

abbrev pub IsListed : Bytes → State → Type 0
IsListed p st = (l : FileLock) × (find p st.locks ≡ some l)

IsListed-Grows : (p : Bytes) (s t : State) → Grows s t → IsListed p s → IsListed p t
IsListed-Grows p s t g h = (h.0, g.kept p h.0 h.1)

insert-IsListed :
    (now : ℕ) (p : Bytes) (v : ℤ) (b : Bool) (st : State)
    → let added = record st { locks = insert p (file_lock p now) st.locks } in
      IsListed p (if b then store_version p v added else added)
insert-IsListed now p v true st = insert_there p (file_lock p now) st.locks
insert-IsListed now p v false st = insert_there p (file_lock p now) st.locks

add_reported-IsListed :
    (now : ℕ) (p : Bytes) (v : ℤ) (m : Map Bytes ℤ) (st : State)
    → find p m ≡ some v
    → IsListed p (add_reported now m st)
unfolding add_reported find
add_reported-IsListed now p v [] st h = absurd (cc)
add_reported-IsListed now p v ((q, w) ∷ m) st h = elim (Bool-cases (bytes_eq q p)) [
  | inl here ↦
      IsListed-Grows p _ _ (add_reported-Grows now m _)
        (rw (← (bytes_eq_iff q p).0 here) (insert-IsListed now q w _ st))
  | inr away ↦ add_reported-IsListed now p v m _ (rw away at h)
]

-- What a data node that is asked reports.
pub record Reports (net : Net) (s : ℕ) (p : Bytes) (v : ℤ) : Type 0 where
  pub alive : net.is_alive s ≡ true
  pub answers : is_response (net.answer s sync_status) ≡ true
  pub has : find p (get_file_version_map (net.answer s sync_status)) ≡ some v

add_node-IsListed :
    (net : Net) (now : ℕ) (s : ℕ) (p : Bytes) (v : ℤ) (st : State)
    → Reports net s p v
    → IsListed p (add_node net now (some s) st)
unfolding add_node
add_node-IsListed net now s p v st r =
    rw (r.alive, r.answers)
      (add_reported-IsListed now p v (get_file_version_map (net.answer s sync_status)) st r.has)

add_nodes-IsListed :
    (net : Net) (now : ℕ) (name : Bytes) (s : ℕ) (p : Bytes) (v : ℤ) (nodes : Map Bytes SessionPtr)
    (st : State)
    → find name nodes ≡ some (some s)
    → Reports net s p v
    → IsListed p (add_nodes net now nodes st)
unfolding add_nodes find
add_nodes-IsListed net now name s p v [] st h r = absurd (cc)
add_nodes-IsListed net now name s p v ((n, t) ∷ nodes) st h r =
    elim (Bool-cases (bytes_eq n name)) [
      | inl here ↦
          let same : t ≡ some s = some-injective (rw here at h) in
          IsListed-Grows p _ _ (add_nodes-Grows net now nodes _)
            (rw same (add_node-IsListed net now s p v st r))
      | inr away ↦ add_nodes-IsListed net now name s p v nodes _ (rw away at h) r
    ]

-- Rebuilding the lock map leaves every entry that is there as it was, adds open entries only, and
-- then has an entry for every file that is reported by a connected data node which is alive and
-- answers. Of the rest of the state it changes at most the version file on disk: the endpoints, the
-- holders and the versions in memory, and the holder file stay.
pub build_file_lock_map_lem :
    (net : Net) (now : ℕ) (st : State)
    → Grows st (build_file_lock_map net now st)
      × ((name : Bytes) (s : ℕ) (p : Bytes) (v : ℤ)
          → find name st.data_nodes ≡ some (some s)
          → Reports net s p v
          → IsListed p (build_file_lock_map net now st))
unfolding build_file_lock_map
build_file_lock_map_lem net now st = (
  build_file_lock_map-Grows net now st,
  λ name s p v h r. add_nodes-IsListed net now name s p v st.data_nodes st h r,
)
