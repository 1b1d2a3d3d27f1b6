-- ===== src/Protocol/Frame/RoundTrip.antt =====
-- A frame that was built is read back whole, with the sequence number that was stamped on it.
use squid_storage.Prelude.{
  ℕ, suc, ◌/◌, ◌%◌, ◌^◌, ◌≤◌, ◌<◌, ◌≡◌, refl, List, [], ◌∷◌, ◌++◌, append_assoc, arith, le→not-ltb,
}
use squid_storage.Prelude.Lists.{length, All, length-append, take-append_length, drop-append_length}
use squid_storage.Prelude.Key.{Bytes}
use squid_storage.Protocol.Opcode.{Opcode, opcode_code, opcode_of, field_code, field_of}
use squid_storage.Protocol.Frame.{
  returns, ◌>>=◌, BinaryField, push_u16, read_u16, read_u32, build_fields, build_frame,
  frame_header, stamp_seq, parse_fields, parse_message,
}

-- An id that the enumeration has a value for, and the value read as it: any but an `unknown` that
-- is not a byte or has a name.
abbrev pub IsOpcode : Opcode → Type 0
IsOpcode op = opcode_of (opcode_code op) ≡ op

abbrev pub IsField : BinaryField → Type 0
IsField f = field_of (field_code f.id) ≡ f.id

abbrev pub Fits : BinaryField → Type 0
Fits f = length f.value ≤ 65535

pub read_u16-push_u16 : (v : ℕ) → v < 65536 → read_u16 (v / 256 % 256) (v % 256) ≡ v
read_u16-push_u16 v h = omega arith

pub read_u32-push_u32 :
    (v : ℕ)
    → v < 2 ^ 32
    → read_u32 (v / 2 ^ 24 % 256) (v / 2 ^ 16 % 256) (v / 2 ^ 8 % 256) (v % 256) ≡ v
read_u32-push_u32 v h = omega arith

pub mod_small : (n : ℕ) → n ≤ 255 → n % 256 ≡ n
mod_small n h = omega arith

-- The bytes of one field and of a list of them.
unfoldable pub field_bytes : BinaryField → Bytes
field_bytes f = field_code f.id ∷ push_u16 (length f.value) ++ f.value

unfoldable pub body : List BinaryField → Bytes
unfolding field_bytes
body [] = []
body (f ∷ fs) = field_bytes f ++ body fs

pub build_fields-eq_body :
    (fs : List BinaryField) → All Fits fs → build_fields fs ≡ returns (body fs)
unfolding build_fields body
build_fields-eq_body [] h = refl
build_fields-eq_body (f ∷ fs) h =
    rw (le→not-ltb 65535 (length f.value) h.0) (rw (build_fields-eq_body fs h.1))

pub build_frame-eq_returns :
    (op : Opcode) (flags payload_len : ℕ) (fs : List BinaryField)
    → length fs ≤ 255
    → All Fits fs
    → build_frame op flags fs payload_len
      ≡ returns (frame_header op flags (length fs) 0 payload_len ++ body fs)
unfolding build_frame
build_frame-eq_returns op flags payload_len fs n h =
    rw (le→not-ltb 255 (length fs) n) (rw (build_fields-eq_body fs h))

parse_field :
    (f : BinaryField) (n : ℕ) (rest : Bytes)
    → IsField f
    → Fits f
    → parse_fields (suc n) (field_bytes f ++ rest)
      ≡ (parse_fields n rest >>= λ fs. returns (f ∷ fs))
unfolding parse_fields field_bytes
parse_field f n rest i h = rw (
  read_u16-push_u16 (length f.value) (omega arith),
  le→not-ltb (length (f.value ++ rest)) (length f.value)
      (omega (arith, length-append f.value rest)),
  take-append_length f.value rest,
  drop-append_length f.value rest,
  i,
)

pub parse_fields-body :
    (fs : List BinaryField) (rest : Bytes)
    → All IsField fs
    → All Fits fs
    → parse_fields (length fs) (body fs ++ rest) ≡ returns fs
unfolding body
parse_fields-body [] rest i h = unfold parse_fields in refl
parse_fields-body (f ∷ fs) rest i h = rw (
  append_assoc (field_bytes f) (body fs) rest,
  parse_field f (length fs) (body fs ++ rest) i.0 h.0,
  parse_fields-body fs rest i.1 h.1,
)

-- A frame of at most 255 fields of at most 65535 bytes each is built, and once it is stamped with a
-- sequence number, and whatever payload follows it, it is read back with the same opcode, flags,
-- payload length and fields, and that number.
pub parse_message-build_frame :
    (op : Opcode) (flags payload_len seq : ℕ) (fs : List BinaryField) (payload : Bytes)
    → IsOpcode op
    → payload_len < 2 ^ 32
    → seq < 2 ^ 32
    → length fs ≤ 255
    → All IsField fs
    → All Fits fs
    → (build_frame op flags fs payload_len >>= λ frame.
        parse_message (stamp_seq frame seq ++ payload))
      ≡ returns
          (record { opcode = op; flags = flags; seq = seq; payload_len = payload_len; fields = fs })
unfolding stamp_seq parse_message
parse_message-build_frame op flags payload_len seq fs payload io hp hs n i h = rw (
  build_frame-eq_returns op flags payload_len fs n h,
  mod_small (length fs) n,
  parse_fields-body fs payload i h,
  io,
  read_u32-push_u32 seq hs,
  read_u32-push_u32 payload_len hp,
)
