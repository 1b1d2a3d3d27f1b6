-- ===== src/Server/Requests/Exclusion.antt =====
-- Mutual exclusion between the clients, over the requests that the server handles.
use squid_storage.Prelude.{
  Bool-cases, inl, inr, some, ℕ, ◌+◌, ◌≡◌, refl, ◌∙◌, sym, ap, Bool, true, false, ◌&&◌, ltb, List,
  [], ◌∷◌, subst,
}
use squid_storage.Prelude.Lists.{All}
use squid_storage.Prelude.Key.{Bytes, bytes_key, bytes_eq}
use squid_storage.Prelude.Map.{find}
use squid_storage.Prelude.Map.Laws.{IsOrdered}
use squid_storage.Prelude.Map.{assign}
use squid_storage.Protocol.Message.{is_response, get_file_version_map}
use squid_storage.Server.State.{sync_status}
use squid_storage.Server.Accept.{accept_data_node, accept_client}
use squid_storage.Server.Replication.{register_data_node_files}
use squid_storage.Server.Replication.Rebalance.{send_heartbeats}
use squid_storage.Server.Replication.Rebalance.Locks.{
  register_data_node_files_locks, send_heartbeats_locks,
}
use squid_storage.Protocol.Opcode.{acquire_lock}
use squid_storage.Protocol.Frame.{Message}
use squid_storage.Server.State.{Net, State}
use squid_storage.Server.Locks as Locks
use squid_storage.Server.Locks.{
  file_lock, insert_lock, erase_lock, lock_interval, check_file_lock_expiration,
  build_file_lock_map,
}
use squid_storage.Server.Locks.Exclusion.{
  Holds, acquire_lock_grants, acquire_lock_refuses, Event, expiry_check, rebuilds, may_end, step,
}
use squid_storage.Server.Locks.Traces.{run, acquire_lock-IsOrdered, run-Holds, run-IsOrdered}
use squid_storage.Server.Requests.{
  acks, Client, path_of, seen_version, locked_answer, handle_opcode, handle_client_request,
}
use squid_storage.Server.Requests.Locking.{ends_hold, handle_opcode-AsEvents}

-- What happens to the server, in order: a request of a client, the timers of the lock manager and of
-- the heartbeat manager, and a data node or a client that connects. The end of a connection changes
-- nothing here.
pub data Moment : Type 0 where
  requested : Net → ℕ → Client → Message → Moment
  ticked : ℕ → Moment
  beat : Net → Moment
  node_joined : Net → ℕ → Bytes → ℕ → Moment
  client_joined : Net → Bytes → ℕ → Moment

unfoldable pub happens : Moment → State → State
unfolding handle_client_request
happens (requested net now client m) st = (handle_client_request net now client m st).0
happens (ticked now) st = (check_file_lock_expiration now st).0
happens (beat net) st = send_heartbeats net st
happens (node_joined net now name s) st = accept_data_node net now name s st
happens (client_joined net name s) st = (accept_client net name s st).0

unfoldable pub live : List Moment → State → State
unfolding happens
live [] st = st
live (m ∷ ms) st = live ms (happens m st)

-- The release or the deletion of the file by anybody, and the timer after the hold's time.
abbrev pub may_release : Bytes → ℕ → Moment → Bool
may_release path until (requested net now client m) =
    ends_hold m.opcode && bytes_eq (path_of m) path
may_release path until (ticked now) = ltb until now
may_release path until _ = false

Holds-locks :
    {path client : Bytes} {until : ℕ} {s t : State}
    → t.locks ≡ s.locks
    → Holds path client until s
    → Holds path client until t
Holds-locks {path} same h = record {
  entry = h.entry;
  found = ap (find path) same ∙ h.found;
  is_locked = h.is_locked;
  by_client = h.by_client;
  expires = h.expires;
}

-- The hold and the order of the lock map, after some events and what does the same to the locks.
events-Holds :
    (path client : Bytes) (until : ℕ) (es : List Event) (s t : State)
    → t.locks ≡ (run es s).locks
    → All (λ e. may_end path until e ≡ false) es
    → IsOrdered s.locks × Holds path client until s
    → IsOrdered t.locks × Holds path client until t
events-Holds path client until es s t same quiet (o, h) = (
  subst IsOrdered (sym same) (run-IsOrdered es s o),
  Holds-locks same (run-Holds path client until es s o quiet h),
)

node_joined-Holds :
    (net : Net) (now : ℕ) (name : Bytes) (s : ℕ) (path client : Bytes) (until : ℕ) (st : State)
    → IsOrdered st.locks × Holds path client until st
    → IsOrdered (accept_data_node net now name s st).locks
      × Holds path client until (accept_data_node net now name s st)
unfolding accept_data_node run step
node_joined-Holds net now name s path client until st h =
    let files = net.answer s sync_status in
    let known = record st { data_nodes = assign name (some s) st.data_nodes } in
    let listed = register_data_node_files name (some s) (get_file_version_map files) known in
    let same = register_data_node_files_locks name (some s) (get_file_version_map files) known in
    elim (Bool-cases (is_response files)) [
      | inl answered ↦ rw answered (
          events-Holds path client until (rebuilds net now ∷ []) listed _ refl (refl, tt)
            (events-Holds path client until [] st listed same tt h))
      | inr silent ↦ rw silent (events-Holds path client until [] st known refl tt h)
    ]

happens-Holds :
    (m : Moment) (path client : Bytes) (until : ℕ) (st : State)
    → may_release path until m ≡ false
    → IsOrdered st.locks × Holds path client until st
    → IsOrdered (happens m st).locks × Holds path client until (happens m st)
unfolding happens run step handle_client_request accept_client
happens-Holds (requested net now c m) path client until st quiet h =
    let (es, same, safe) =
      handle_opcode-AsEvents m.opcode net now c (path_of m) (seen_version m) st in
    events-Holds path client until es st _ same (safe path until quiet) h
happens-Holds (ticked now) path client until st quiet h =
    events-Holds path client until (expiry_check now ∷ []) st _ refl (quiet, tt) h
happens-Holds (beat net) path client until st quiet h =
    events-Holds path client until [] st _ (send_heartbeats_locks net st) tt h
happens-Holds (node_joined net now name s) path client until st quiet h =
    node_joined-Holds net now name s path client until st h
happens-Holds (client_joined net name s) path client until st quiet h =
    events-Holds path client until [] st _ refl tt h

live-Holds :
    (path client : Bytes) (until : ℕ) (ms : List Moment) (st : State)
    → All (λ m. may_release path until m ≡ false) ms
    → IsOrdered st.locks × Holds path client until st
    → Holds path client until (live ms st)
unfolding live
live-Holds path client until [] st quiet h = h.1
live-Holds path client until (m ∷ ms) st quiet h =
    live-Holds path client until ms (happens m st) quiet.1
      (happens-Holds m path client until st quiet.0 h)

acquire_handled :
    (net : Net) (now : ℕ) (client : Client) (m : Message) (st : State)
    → m.opcode ≡ acquire_lock
    → handle_client_request net now client m st
      ≡ locked_answer (Locks.acquire_lock net now (path_of m) client.name st)
unfolding handle_client_request
acquire_handled net now client m st h =
    ap (λ o. handle_opcode o net now client (path_of m) (seen_version m) st) h

granted : (r : State × Bool) → (locked_answer r).2 ≡ acks true ∷ [] → r.1 ≡ true
granted (st, true) h = refl
granted (st, false) h = absurd (cc)

-- A client asks for a lock and is answered by an ACK. Then, after every history of requests of any
-- clients, CLOSE among them, of expiry checks, of heartbeat rounds, and of data nodes and clients that
-- connect, in which nobody releases or deletes the file and no expiry check runs after the five
-- minutes of the lock, the lock is still the client's, and every request for it, also of the client
-- itself, is answered by a NACK and changes nothing.
pub handle_client_request_excludes :
    (net net' : Net) (now now' : ℕ) (client other : Client) (m m' : Message) (ms : List Moment)
    (st : State)
    → IsOrdered st.locks
    → m.opcode ≡ acquire_lock
    → (handle_client_request net now client m st).2 ≡ acks true ∷ []
    → All (λ e. may_release (path_of m) (now + lock_interval) e ≡ false) ms
    → m'.opcode ≡ acquire_lock
    → path_of m' ≡ path_of m
    → let later = live ms (handle_client_request net now client m st).0 in
      Holds (path_of m) client.name (now + lock_interval) later
      × (handle_client_request net' now' other m' later ≡ (later, [], acks false ∷ []))
handle_client_request_excludes net net' now now' client other m m' ms st o asks acked quiet asks'
      same =
    let path = path_of m in
    let until = now + lock_interval in
    let taken = Locks.acquire_lock net now path client.name st in
    let e = acquire_handled net now client m st asks in
    let won = granted taken (ap (λ r. r.2) (sym e) ∙ acked) in
    let got = (acquire_lock_grants net now path client.name st won).0 in
    let ordered = acquire_lock-IsOrdered net now path client.name st o in
    let later = live ms (handle_client_request net now client m st).0 in
    let still : Holds path client.name until later =
      live-Holds path client.name until ms _ quiet (rw e ordered, rw e got) in
    (
      still,
      acquire_handled net' now' other m' later asks'
          ∙ ap (λ p. locked_answer (Locks.acquire_lock net' now' p other.name later)) same
          ∙ ap locked_answer
              (acquire_lock_refuses net' now' until path client.name other.name later still),
    )
