-- ===== src/Transport/Order/Packets.antt =====
-- The frames that a sender numbers, as they come from the network.
use squid_storage.Prelude.{ℕ, ◌^◌, ◌≤◌, ◌<◌, ◌≡◌, ◌⊎◌, List, [], ◌∷◌, ◌++◌, arith}
use squid_storage.Prelude.Lists.{length, All, length-append}
use squid_storage.Prelude.Key.{Bytes}
use squid_storage.Protocol.Opcode.{Opcode}
use squid_storage.Protocol.Frame.{returns, BinaryField, Message, parse_message}
use squid_storage.Protocol.Frame.RoundTrip.{
  IsOpcode, IsField, Fits, body, parse_fields-body, read_u32-push_u32, mod_small,
}
use squid_storage.Transport.Frames.{max_payload_size}
use squid_storage.Transport.Frames.RoundTrip.{wire}

-- What a frame carries besides its number.
pub record Packet : Type 0 where
  pub opcode : Opcode
  pub flags : ℕ
  pub fields : List BinaryField
  pub payload : Bytes

-- The bounds that building a frame checks, a payload that is accepted, and values with a code.
pub record IsValid (p : Packet) : Type 0 where
  pub is_opcode : IsOpcode p.opcode
  pub few : length p.fields ≤ 255
  pub are_fields : All IsField p.fields
  pub fit : All Fits p.fields
  pub small : length p.payload ≤ max_payload_size

abbrev pub packet_wire : (ℕ → Packet) → ℕ → Bytes
packet_wire sent k = let p = sent k in wire p.opcode p.flags k p.fields p.payload

abbrev pub packet_message : (ℕ → Packet) → ℕ → Message
packet_message sent k = record {
  opcode = (sent k).opcode;
  flags = (sent k).flags;
  seq = k;
  payload_len = length (sent k).payload;
  fields = (sent k).fields;
}

-- The frames with the numbers `ks`, one after the other.
unfoldable pub on_wire : (ℕ → Packet) → List ℕ → Bytes
on_wire sent [] = []
on_wire sent (k ∷ ks) = packet_wire sent k ++ on_wire sent ks

abbrev pub Arrives : ℕ → List ℕ → Type 0
Arrives k [] = ⊥
Arrives k (j ∷ ks) = (j ≡ k) ⊎ Arrives k ks

pub parse_message-wire :
    (sent : ℕ → Packet) (k : ℕ)
    → IsValid (sent k)
    → k < 2 ^ 32
    → parse_message (packet_wire sent k) ≡ returns (packet_message sent k)
unfolding parse_message wire
parse_message-wire sent k v h =
    let p = sent k in
    rw (
      mod_small (length p.fields) v.few,
      parse_fields-body p.fields p.payload v.are_fields v.fit,
      v.is_opcode,
      read_u32-push_u32 k h,
      read_u32-push_u32 (length p.payload) (omega (arith, v.small)),
    )

pub length-on_wire : (sent : ℕ → Packet) (ks : List ℕ) → length ks ≤ length (on_wire sent ks)
unfolding on_wire wire
length-on_wire sent [] = omega arith
length-on_wire sent (k ∷ ks) = omega (
  arith,
  length-on_wire sent ks,
  length-append (body (sent k).fields ++ (sent k).payload) (on_wire sent ks),
)
