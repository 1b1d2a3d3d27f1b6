-- ===== src/Server/Locks/Rebuild.antt =====
-- Rebuilding the lock map adds entries, all of them open, and touches none that is there.
use squid_storage.Prelude.{
  ℕ, ◌≡◌, refl, ◌∙◌, Bool, true, false, if◌then◌else◌, Option, none, some, [], ◌∷◌, arith,
  Option-cases, Bool-cases, inl, inr,
}
use squid_storage.Prelude.Key.{Bytes, bytes_key, bytes_eq, bytes_eq_iff}
use squid_storage.Prelude.Int.{ℤ}
use squid_storage.Prelude.Map.{Map, find, insert}
use squid_storage.Prelude.Map.Laws.{
  IsOrdered, assign-IsOrdered, find-insert_old, find-insert_new, find-insert_ne,
}
use squid_storage.Protocol.Message.{is_response, get_file_version_map}
use squid_storage.Server.State.{SessionPtr, Net, sync_status, FileLock, State}
use squid_storage.Server.Locks.{
  file_lock, store_version, add_reported, add_node, add_nodes, build_file_lock_map, ensure_entry,
}

-- Nothing but the lock map and the version file changes, and an entry that was there stays as it was.
pub record Grows (s t : State) : Type 0 where
  pub kept : (p : Bytes) (l : FileLock) → find p s.locks ≡ some l → find p t.locks ≡ some l
  pub opened :
      (p : Bytes) (l : FileLock)
      → find p s.locks ≡ none
      → find p t.locks ≡ some l
      → l.locked ≡ false
  pub ordered : IsOrdered s.locks → IsOrdered t.locks
  pub same_nodes : t.data_nodes ≡ s.data_nodes
  pub same_holders : t.holders ≡ s.holders
  pub same_versions : t.versions ≡ s.versions
  pub same_clients : t.clients ≡ s.clients
  pub same_holder_file : t.holder_file ≡ s.holder_file

Grows-refl : (s : State) → Grows s s
Grows-refl s = record {
  kept = λ p l h. h;
  opened = λ p l h k. cc;
  ordered = λ o. o;
  same_nodes = refl;
  same_holders = refl;
  same_versions = refl;
  same_clients = refl;
  same_holder_file = refl;
}

pub same_lock : {a : Option FileLock} {x y : FileLock} → a ≡ some x → a ≡ some y → some x ≡ some y
same_lock h k = cc

Grows-trans : {s t u : State} → Grows s t → Grows t u → Grows s u
Grows-trans {s} {t} {u} g h = record {
  kept = λ p l e. h.kept p l (g.kept p l e);
  opened = λ p l e k. elim (Option-cases (find p t.locks)) [
    | inl absent ↦ h.opened p l absent k
    | inr (l', there) ↦ g.opened p l e (there ∙ same_lock (h.kept p l' there) k)
  ];
  ordered = λ o. h.ordered (g.ordered o);
  same_nodes = h.same_nodes ∙ g.same_nodes;
  same_holders = h.same_holders ∙ g.same_holders;
  same_versions = h.same_versions ∙ g.same_versions;
  same_clients = h.same_clients ∙ g.same_clients;
  same_holder_file = h.same_holder_file ∙ g.same_holder_file;
}

-- A new entry is open.
insert_open :
    (now : ℕ) (path p : Bytes) (l : FileLock) (m : Map Bytes FileLock)
    → find p m ≡ none
    → find p (insert path (file_lock path now) m) ≡ some l
    → l.locked ≡ false
insert_open now path p l m absent there = elim (Bool-cases (bytes_eq path p)) [
  | inl here ↦ ground (arith, bytes_eq_iff path p, find-insert_new path (file_lock path now) m)
  | inr away ↦ ground (
    arith,
    bytes_eq_iff path p,
    find-insert_ne p path (file_lock path now) m (λ e. cc (away, (bytes_eq_iff path p).1 e)),
  )
]

pub insert_kept :
    (k p : Bytes) (v l : FileLock) (m : Map Bytes FileLock)
    → find p m ≡ some l
    → find p (insert k v m) ≡ some l
insert_kept k p v l m there = elim (Bool-cases (bytes_eq k p)) [
  | inl here ↦ let e = (bytes_eq_iff k p).0 here in rw (find-insert_old k v l m (rw e there)) there
  | inr away ↦ find-insert_ne p k v m (λ e. cc (away, (bytes_eq_iff k p).1 e)) ∙ there
]

pub insert_there :
    (path : Bytes) (x : FileLock) (m : Map Bytes FileLock)
    → (l : FileLock) × (find path (insert path x m) ≡ some l)
insert_there path x m = elim (Option-cases (find path m)) [
  | inl absent ↦ (x, find-insert_new path x m absent)
  | inr (l, there) ↦ (l, insert_kept path path x l m there)
]

pub insert-IsOrdered :
    (k : Bytes) (l : FileLock) (m : Map Bytes FileLock) → IsOrdered m → IsOrdered (insert k l m)
unfolding insert
insert-IsOrdered k l m o = elim (Option-cases (find k m)) [
  | inl absent ↦ rw (absent, insert) (assign-IsOrdered k l m o)
  | inr (x, there) ↦ rw (there, insert) o
]

insert-Grows :
    (now : ℕ) (path : Bytes) (st : State)
    → Grows st (record st { locks = insert path (file_lock path now) st.locks })
insert-Grows now path st = record {
  kept = λ p l h. insert_kept path p (file_lock path now) l st.locks h;
  opened = λ p l h k. insert_open now path p l st.locks h k;
  ordered = insert-IsOrdered path (file_lock path now) st.locks;
  same_nodes = refl;
  same_holders = refl;
  same_versions = refl;
  same_clients = refl;
  same_holder_file = refl;
}

store-Grows : {s t : State} (path : Bytes) (v : ℤ) → Grows s t → Grows s (store_version path v t)
store-Grows path v g = record {
  kept = g.kept;
  opened = g.opened;
  ordered = g.ordered;
  same_nodes = g.same_nodes;
  same_holders = g.same_holders;
  same_versions = g.same_versions;
  same_clients = g.same_clients;
  same_holder_file = g.same_holder_file;
}

add_one-Grows :
    (now : ℕ) (path : Bytes) (v : ℤ) (b : Bool) (st : State)
    → let added = record st { locks = insert path (file_lock path now) st.locks } in
      Grows st (if b then store_version path v added else added)
add_one-Grows now path v true st = store-Grows path v (insert-Grows now path st)
add_one-Grows now path v false st = insert-Grows now path st

pub add_reported-Grows : (now : ℕ) (m : Map Bytes ℤ) (st : State) → Grows st (add_reported now m st)
unfolding add_reported
add_reported-Grows now [] st = Grows-refl st
add_reported-Grows now ((path, v) ∷ m) st =
    Grows-trans (add_one-Grows now path v _ st) (add_reported-Grows now m _)

add_live-Grows :
    (now : ℕ) (alive answered : Bool) (m : Map Bytes ℤ) (st : State)
    → Grows st (if alive then (if answered then add_reported now m st else st) else st)
add_live-Grows now true true m st = add_reported-Grows now m st
add_live-Grows now true false m st = Grows-refl st
add_live-Grows now false b m st = Grows-refl st

add_node-Grows :
    (net : Net) (now : ℕ) (s : SessionPtr) (st : State) → Grows st (add_node net now s st)
unfolding add_node
add_node-Grows net now none st = Grows-refl st
add_node-Grows net now (some s) st =
    let files = net.answer s sync_status in
    add_live-Grows now (net.is_alive s) (is_response files) (get_file_version_map files) st

pub add_nodes-Grows :
    (net : Net) (now : ℕ) (nodes : Map Bytes SessionPtr) (st : State)
    → Grows st (add_nodes net now nodes st)
unfolding add_nodes
add_nodes-Grows net now [] st = Grows-refl st
add_nodes-Grows net now ((name, s) ∷ nodes) st =
    Grows-trans (add_node-Grows net now s st) (add_nodes-Grows net now nodes _)

pub build_file_lock_map-Grows :
    (net : Net) (now : ℕ) (st : State) → Grows st (build_file_lock_map net now st)
unfolding build_file_lock_map
build_file_lock_map-Grows net now st = add_nodes-Grows net now st.data_nodes st

pub ensure_entry-Grows :
    (net : Net) (now : ℕ) (path : Bytes) (st : State) → Grows st (ensure_entry net now path st)
unfolding ensure_entry
ensure_entry-Grows net now path st = elim (Option-cases (find path st.locks)) [
  | inl absent ↦ rw (absent, ensure_entry) (build_file_lock_map-Grows net now st)
  | inr (l, there) ↦ rw (there, ensure_entry) (Grows-refl st)
]
