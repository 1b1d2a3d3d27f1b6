-- ===== src/Client/Pushes.antt =====
-- What a client knows after a push and after a sync.
use squid_storage.Prelude.{
  ℕ, ◌^◌, ◌<◌, ◌≤◌, ◌≡◌, ◌⊎◌, inl, inr, ◌∙◌, ap, true, none, List, [], ◌∷◌, ◌++◌,
}
use squid_storage.Prelude.Lists.{length}
use squid_storage.Prelude.Key.{Bytes, bytes_key}
use squid_storage.Prelude.Int.{ℤ, IsInt, of_u32}
use squid_storage.Protocol.Opcode.{push_create_file, push_update_file, file_version}
use squid_storage.Protocol.Frame.{Fallible, returns, Message}
use squid_storage.Protocol.Message.{get_uint32}
use squid_storage.Protocol.Format.{push_create_file_format, push_update_file_format}
use squid_storage.Protocol.Format.Deliver.{deliver, Names, file_requests_arrive}
use squid_storage.Transport.Channel.{Channel, Written}
use squid_storage.Transport.Channel.Stream.{stream}
use squid_storage.Transport.Transfer.{send_file_data, receive_file_data}
use squid_storage.Transport.Transfer.RoundTrip.{receive_file-send_file_data}
use squid_storage.Client.{
  Client, tell, set_file_version, push_version, file_pushed, handle_push_of, handle_push,
}

-- The client once it was pushed `s` for a path.
abbrev pub pushed : Message → Bytes → ℤ → Bytes → Channel → Client → Client
pushed m path v s left c =
    tell m s
      (set_file_version path v (record c { connection = record c.connection { inbound = left } }))

file_pushed_lem :
    (m : Message) (b : ℕ) (path : Bytes) (v : ℤ) (s : Bytes) (left : Channel) (c : Client)
    → Names m (b ∷ path) v
    → file_pushed m c (true, s, left) ≡ pushed m (b ∷ path) v s left c
file_pushed_lem m b path v s left c names =
    let old = record c { connection = record c.connection { inbound = left } } in
    ap (λ p. tell m s (push_version p (of_u32 (get_uint32 m file_version 0)) old)) names.path
    ∙ ap (λ u. tell m s (push_version (b ∷ path) u old)) names.version

by_opcode :
    (m : Message) (c : Client)
    → (m.opcode ≡ push_create_file) ⊎ (m.opcode ≡ push_update_file)
    → handle_push m c ≡ file_pushed m c (receive_file_data [] c.connection.inbound)
unfolding handle_push handle_push_of
by_opcode m c (inl h) = ap (λ op. handle_push_of op m c) h
by_opcode m c (inr h) = ap (λ op. handle_push_of op m c) h

handle_push-file :
    (m : Message) (b : ℕ) (path : Bytes) (v : ℤ) (s rest : Bytes) (ws : List Written) (c : Client)
    → Names m (b ∷ path) v
    → (m.opcode ≡ push_create_file) ⊎ (m.opcode ≡ push_update_file)
    → (send_file_data s ws).1 ≡ true
    → stream c.connection.inbound ≡ (send_file_data s ws).0 ++ rest
    → (left : Channel) × (handle_push m c ≡ pushed m (b ∷ path) v s left c) × (stream left ≡ rest)
handle_push-file m b path v s rest ws c names op ok e =
    let ((left, run, stays), file) =
      receive_file-send_file_data s [] rest none ws c.connection.inbound ok e in
    let taken = ap (file_pushed m c) run ∙ file_pushed_lem m b path v s left c names in
    (left, by_opcode m c op ∙ taken, stays)

-- A push frame of the server arrives, and the bytes of the file follow it whole. The client then
-- takes exactly these bytes from the stream, gives them to its handler with the message, and knows
-- the version that was pushed for the path, if the path is not empty and has at most 65535 bytes.
pub handle_push-arrives :
    (b : ℕ) (path : Bytes) (v : ℤ) (s rest : Bytes) (ws : List Written) (seq : ℕ) (c : Client)
    → length (b ∷ path) ≤ 65535
    → IsInt v
    → seq < 2 ^ 32
    → (send_file_data s ws).1 ≡ true
    → stream c.connection.inbound ≡ (send_file_data s ws).0 ++ rest
    → let arrives = λ (frame : Fallible Bytes).
      (m : Message) × (left : Channel) × (deliver frame seq ≡ returns m)
      × (handle_push m c ≡ pushed m (b ∷ path) v s left c)
      × (stream left ≡ rest) in
      arrives (push_create_file_format (b ∷ path) v)
      × arrives (push_update_file_format (b ∷ path) v)
handle_push-arrives b path v s rest ws seq c hp hv hs ok e =
    let (x, y, created, updated) = file_requests_arrive (b ∷ path) v seq hp hv hs in
    let (left, run, stays) =
      handle_push-file created.0 b path v s rest ws c created.5 (inl created.2) ok e in
    let (left2, run2, stays2) =
      handle_push-file updated.0 b path v s rest ws c updated.5 (inr updated.2) ok e in
    ((created.0, left, created.1, run, stays), (updated.0, left2, updated.1, run2, stays2))
