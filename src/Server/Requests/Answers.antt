-- ===== src/Server/Requests/Answers.antt =====
-- Whether the last answer to a request tells the client what happened.
use squid_storage.Prelude.{
  ◌+◌, ◌/◌, none, le_or_lt, ◌≤◌, ℕ, ◌<◌, ◌≡◌, refl, ◌∙◌, ap, min, true, false, some, List, [], ◌∷◌,
  arith, Option-cases, inl, inr, ◌⊎◌,
}
use squid_storage.Prelude.Lists.{length}
use squid_storage.Prelude.Key.{Bytes, bytes_key}
use squid_storage.Prelude.Int.{ℤ, pos}
use squid_storage.Prelude.Map.Laws.{IsOrdered}
use squid_storage.Protocol.Opcode.{Opcode, create_file, delete_file}
use squid_storage.Protocol.Frame.{Message}
use squid_storage.Server.State.{Call, Net, Effect, State}
use squid_storage.Server.State as Calls
use squid_storage.Server.Replication.{quorum, acked_by, asked, holders_of}
use squid_storage.Server.Replication.Create.{Created, propagate_create_file_lem}
use squid_storage.Server.Replication.Update.{IsNext, Updated, update_votes, update_needs}
use squid_storage.Server.Replication.Delete.{propagate_delete_file_lem}
use squid_storage.Server.Replication.Votes.{votes_for, count, length-acked_by, asked-count}
use squid_storage.Server.Requests.{
  Answer, acks, acks_version, Client, path_of, seen_version, handle_create, handle_delete,
  handle_opcode, handle_client_request,
}

-- How many data nodes acknowledge the creation, and how many have to.
abbrev pub create_votes : Net → Bytes → ℤ → Bytes → State → ℕ
create_votes net path v file_data st =
    count (votes_for net (Calls.create_file path v file_data)) st.data_nodes

abbrev pub create_needs : State → ℕ
create_needs st = st.replication_factor / 2 + 1

-- The file came, enough data nodes stored it, the client is told so, and the file is known; or the
-- file came and too few stored it; or it never came.
abbrev pub CreateAnswered :
    Net → Client → Bytes → ℤ → State → State × List Effect × List Answer → Type 0
CreateAnswered net client path v st done =
    ((file_data : Bytes) × (client.received ≡ some file_data)
      × (create_needs st ≤ create_votes net path v file_data st)
      × (done.2 ≡ acks true ∷ acks true ∷ [])
      × Created net path v file_data st done.0)
    ⊎ ((file_data : Bytes) × (client.received ≡ some file_data)
        × (create_votes net path v file_data st < create_needs st)
        × (done.2 ≡ acks true ∷ acks false ∷ [])
        × (done.0 ≡ st))
    ⊎ ((client.received ≡ none) × (done ≡ (st, [], acks true ∷ acks false ∷ [])))

handle_create_answered :
    (net : Net) (now : ℕ) (client : Client) (path : Bytes) (v : ℤ) (st : State)
    → IsOrdered st.data_nodes
    → CreateAnswered net client path v st (handle_create net now client path v st)
unfolding handle_create
handle_create_answered net now client path v st o = elim (Option-cases client.received) [
  | inl nothing ↦ inr (inr (nothing, rw nothing))
  | inr (file_data, came) ↦
      let votes = length-acked_by net (Calls.create_file path v file_data) st.data_nodes in
      let (good, bad) = propagate_create_file_lem net now path v client.name file_data st o in
      elim (le_or_lt (create_needs st) (create_votes net path v file_data st)) [
        | inl enough ↦
            let (success, created) = good (omega (arith, enough, votes)) in
            inl (file_data, came, enough, rw (came, success) refl, rw came created)
        | inr few ↦
            let e = bad (omega (arith, few, votes)) in
            inr (inl (file_data, came, few, rw (came, e) refl, rw (came, e) refl))
      ]
]

handled_as :
    (net : Net) (now : ℕ) (client : Client) (m : Message) (st : State) (op : Opcode)
    → m.opcode ≡ op
    → handle_client_request net now client m st
      ≡ handle_opcode op net now client (path_of m) (seen_version m) st
unfolding handle_client_request
handled_as net now client m st op h =
    ap (λ o. handle_opcode o net now client (path_of m) (seen_version m) st) h

-- A creation is answered by an acknowledgement that asks for the file, and then by one more exactly
-- if the file came and half the replication factor and one more of the data nodes are alive and
-- acknowledge it; the file is then known at the client's version, and those become holders of it.
-- Otherwise the last answer is negative and nothing changed on the server.
pub create_answered :
    (net : Net) (now : ℕ) (client : Client) (m : Message) (st : State)
    → IsOrdered st.data_nodes
    → m.opcode ≡ create_file
    → CreateAnswered net client
        (path_of m)
        (seen_version m)
        st
        (handle_client_request net now client m st)
create_answered net now client m st o is_create =
    rw (handled_as net now client m st create_file is_create)
      (handle_create_answered net now client (path_of m) (seen_version m) st o)

-- The file came, enough of its holders stored it, and the client is told its new version; or the
-- file came and too few stored it; or it never came.
abbrev pub UpdateAnswered :
    Net → Client → Bytes → ℤ → ℕ → State → State × List Effect × List Answer → Type 0
UpdateAnswered net client path seen n st done =
    IsNext path seen (pos n) st
    × (((file_data : Bytes) × (client.received ≡ some file_data)
          × (update_needs path st ≤ update_votes net path (pos n) file_data st)
          × (done.2 ≡ acks true ∷ acks_version true (pos n) ∷ [])
          × Updated path (pos n) st done.0)
        ⊎ ((file_data : Bytes) × (client.received ≡ some file_data)
            × (update_votes net path (pos n) file_data st < update_needs path st)
            × (done ≡ (st, [], acks true ∷ acks false ∷ [])))
        ⊎ ((client.received ≡ none) × (done ≡ (st, [], acks true ∷ acks false ∷ []))))

delete_refused :
    (net : Net) (client : Client) (path : Bytes) (st : State)
    → 0 < asked net (holders_of path st)
    → length (acked_by net (Calls.delete_file path) (holders_of path st))
      < min (quorum st) (asked net (holders_of path st))
    → handle_delete net client path st ≡ (st, [], acks true ∷ [])
unfolding handle_delete
delete_refused net client path st live few =
    let total = asked-count net (holders_of path st) in
    let votes = length-acked_by net (Calls.delete_file path) (holders_of path st) in
    rw (
      (propagate_delete_file_lem net client.on_disk path client.name st).1 (rw (← total) live)
        (rw (← total, ← votes) few))

-- A deletion is acknowledged to the client also where it fails: if live data nodes hold the file and
-- fewer acknowledge than the quorum or all of them, the one answer is positive, nothing is deleted on
-- the server and no other client is told.
pub delete_answered :
    (net : Net) (now : ℕ) (client : Client) (m : Message) (st : State)
    → m.opcode ≡ delete_file
    → 0 < asked net (holders_of (path_of m) st)
    → length (acked_by net (Calls.delete_file (path_of m)) (holders_of (path_of m) st))
      < min (quorum st) (asked net (holders_of (path_of m) st))
    → handle_client_request net now client m st ≡ (st, [], acks true ∷ [])
delete_answered net now client m st is_delete live few =
    handled_as net now client m st delete_file is_delete
    ∙ delete_refused net client (path_of m) st live few
