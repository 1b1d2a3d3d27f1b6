-- ===== src/Server/Requests/Locking.antt =====
-- What a request does to the locks, as events of the lock manager.
use squid_storage.Prelude.{
  ℕ, ◌≡◌, refl, ap, Bool, true, false, ◌&&◌, ltb, some, List, [], ◌∷◌, Bool-cases, Option-cases,
  inl, inr, min,
}
use squid_storage.Prelude.Lists.{length, All}
use squid_storage.Prelude.Key.{Bytes, bytes_key, bytes_eq}
use squid_storage.Prelude.Int.{ℤ}
use squid_storage.Prelude.Map.{insert}
use squid_storage.Protocol.Opcode.{
  Opcode, create_file, update_file, delete_file, acquire_lock, release_lock, read_file,
}
use squid_storage.Server.State.{Net, State}
use squid_storage.Server.State as Calls
use squid_storage.Server.Locks.{file_lock, insert_lock, erase_lock}
use squid_storage.Server.Locks.Exclusion.{
  Event, acquires, releases, creates, deletes, may_end, step,
}
use squid_storage.Server.Locks.Traces.{run}
use squid_storage.Server.Replication.{
  acked_by, asked, quorum, holders_of, hold, hold_all, next_version, commit_create, commit_update,
  commit_delete, persist_state, propagate_create_file, propagate_update_file, propagate_delete_file,
  get_file_from_data_node,
}
use squid_storage.Server.Requests.{
  Client, handle_create, handle_update, handle_delete, handle_read, handle_opcode,
}

-- The requests that may end a hold.
abbrev pub ends_hold : Opcode → Bool
ends_hold release_lock = true
ends_hold delete_file = true
ends_hold _ = false

-- What an operation does to the locks is what some events of the lock manager do, and none of these
-- ends a hold on another path.
abbrev pub AsEvents : Bool → Bytes → State → State → Type 0
AsEvents may p s t =
    (es : List Event) × (t.locks ≡ (run es s).locks)
    × ((path : Bytes) (until : ℕ)
        → may && bytes_eq p path ≡ false
        → All (λ e. may_end path until e ≡ false) es)

unchanged : (may : Bool) (p : Bytes) (s t : State) → t.locks ≡ s.locks → AsEvents may p s t
unfolding run
unchanged may p s t same = ([], same, λ path until h. tt)

hold_all_locks :
    (path : Bytes) (nodes : List (Bytes × ℕ)) (st : State)
    → (hold_all path nodes st).locks ≡ st.locks
unfolding hold_all
hold_all_locks path [] st = refl
hold_all_locks path ((n, s) ∷ nodes) st = hold_all_locks path nodes (hold path n (some s) st)

handle_create-AsEvents :
    (net : Net) (now : ℕ) (client : Client) (p : Bytes) (v : ℤ) (st : State)
    → AsEvents false p st (handle_create net now client p v st).0
unfolding handle_create propagate_create_file commit_create persist_state insert_lock run step
handle_create-AsEvents net now client p v st = elim (Option-cases client.received) [
  | inl nothing ↦ rw nothing (unchanged false p st st refl)
  | inr (file_data, came) ↦
      let acked = acked_by net (Calls.create_file p v file_data) st.data_nodes in
      elim (Bool-cases (ltb (length acked) (quorum st))) [
        | inl few ↦ rw (came, few) (unchanged false p st st refl)
        | inr enough ↦
            rw (came, enough)
              (
                creates now p ∷ [],
                ap (λ l. insert p (file_lock p now) l) (hold_all_locks p acked st),
                λ path until h. (refl, tt),
              )
      ]
]

handle_update-AsEvents :
    (net : Net) (client : Client) (p : Bytes) (v : ℤ) (st : State)
    → AsEvents false p st (handle_update net client p v st).0
unfolding handle_update propagate_update_file commit_update persist_state
handle_update-AsEvents net client p v st = elim (Option-cases client.received) [
  | inl nothing ↦ rw nothing (unchanged false p st st refl)
  | inr (file_data, came) ↦
      let acked =
        acked_by net (Calls.update_file p (next_version p v st) file_data) (holders_of p st) in
      elim (Bool-cases (ltb (length acked) (min (quorum st) (length (holders_of p st))))) [
        | inl few ↦ rw (came, few) (unchanged false p st st refl)
        | inr enough ↦
            rw (came, enough) (unchanged false p st (commit_update p (next_version p v st) st) refl)
      ]
]

commit_delete_locks :
    (on_disk : Bool) (p : Bytes) (st : State)
    → (commit_delete on_disk p st).locks ≡ (erase_lock p st).locks
unfolding commit_delete persist_state
commit_delete_locks true p st = refl
commit_delete_locks false p st = refl

handle_delete-AsEvents :
    (net : Net) (client : Client) (p : Bytes) (st : State)
    → AsEvents true p st (handle_delete net client p st).0
unfolding handle_delete propagate_delete_file run step
handle_delete-AsEvents net client p st =
    let total = asked net (holders_of p st) in
    let votes = length (acked_by net (Calls.delete_file p) (holders_of p st)) in
    elim (Bool-cases (ltb 0 total && ltb votes (min (quorum st) total))) [
      | inl few ↦ rw few (unchanged true p st st refl)
      | inr enough ↦
          rw enough
            (deletes p ∷ [], commit_delete_locks client.on_disk p st, λ path until h. (h, tt))
    ]

handle_read-AsEvents :
    (net : Net) (client : Client) (p : Bytes) (st : State)
    → AsEvents false p st (handle_read net client p st).0
unfolding handle_read
handle_read-AsEvents net client p st = elim (Option-cases (get_file_from_data_node net p st)) [
  | inl nothing ↦ rw (nothing, handle_read) (unchanged false p st st refl)
  | inr (bytes, found) ↦ rw (found, handle_read) (unchanged false p st st refl)
]

pub handle_opcode-AsEvents :
    (op : Opcode) (net : Net) (now : ℕ) (client : Client) (p : Bytes) (v : ℤ) (st : State)
    → AsEvents (ends_hold op) p st (handle_opcode op net now client p v st).0
unfolding run step
handle_opcode-AsEvents create_file net now client p v st =
    handle_create-AsEvents net now client p v st
handle_opcode-AsEvents update_file net now client p v st = handle_update-AsEvents net client p v st
handle_opcode-AsEvents delete_file net now client p v st = handle_delete-AsEvents net client p st
handle_opcode-AsEvents acquire_lock net now client p v st =
    (acquires net now p client.name ∷ [], refl, λ path until h. (refl, tt))
handle_opcode-AsEvents release_lock net now client p v st =
    (releases net now p ∷ [], refl, λ path until h. (h, tt))
handle_opcode-AsEvents read_file net now client p v st = handle_read-AsEvents net client p st
handle_opcode-AsEvents _ net now client p v st = ([], refl, λ path until h. tt)
