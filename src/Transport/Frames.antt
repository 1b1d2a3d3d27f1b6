-- ===== src/Transport/Frames.antt =====
-- `SquidProtocol::receiveFrame` of common/src/squidprotocol/squidprotocol.cpp: one frame from the bytes
-- of the connection.
pub mod RoundTrip
pub mod Parses
use squid_storage.Prelude.{ℕ, zero, suc, ◌*◌, ltb, ◌==◌, if◌then◌else◌, some, [], ◌∷◌, ◌++◌}
use squid_storage.Prelude.Key.{Bytes}
use squid_storage.Protocol.Frame.{squid_magic, frame_header_size, read_u16, read_u32}
use squid_storage.Transport.Channel.{Reader, ◌>>=◌, give_up, gives, recv_exact}

-- `MAX_PAYLOAD_SIZE`, 16 MiB.
abbrev pub max_payload_size : ℕ
max_payload_size = 16 * 1024 * 1024

-- The length in the three bytes before a field.
abbrev pub field_length : Bytes → ℕ
field_length (i ∷ h ∷ l ∷ rest) = read_u16 h l
field_length _ = 0

-- A round of the loop over the fields. A read of 0 bytes reads nothing, so that it needs no test.
unfoldable pub receive_field : Reader Bytes
receive_field =
    recv_exact 3 >>= λ fhdr. recv_exact (field_length fhdr) >>= λ value. gives (fhdr ++ value)

unfoldable pub receive_fields : ℕ → Reader Bytes
receive_fields zero = gives []
receive_fields (suc n) =
    receive_field >>= λ field. receive_fields n >>= λ more. gives (field ++ more)

unfoldable pub receive_payload : ℕ → Reader Bytes
receive_payload n = if ltb max_payload_size n then give_up else recv_exact n

-- What comes after the header. The payload's length is looked at once the fields are there.
unfoldable pub after_header : Bytes → Reader Bytes
after_header (m ∷ n ∷ op ∷ fl ∷ nf ∷ s ∷ t ∷ u ∷ v ∷ p ∷ q ∷ r ∷ w ∷ []) =
    if read_u16 m n == squid_magic
    then (receive_fields nf >>= λ fields. receive_payload (read_u32 p q r w) >>= λ payload.
        gives (m ∷ n ∷ op ∷ fl ∷ nf ∷ s ∷ t ∷ u ∷ v ∷ p ∷ q ∷ r ∷ w ∷ (fields ++ payload)))
    else give_up
after_header _ = give_up

-- Nothing stands for the empty frame, which every failure gives after `alive_` is set to false.
unfoldable pub receive_frame : Reader Bytes
receive_frame = recv_exact frame_header_size >>= after_header
