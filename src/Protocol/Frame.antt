-- ===== src/Protocol/Frame.antt =====
-- common/src/squidprotocol/squidProtocolFormatter.cpp: a frame is a header of 13 bytes and a list of
-- fields, each an id, a length of two bytes and a value. Bytes are numbers below 256.
pub mod RoundTrip
pub mod Truncated
use squid_storage.Prelude.{
  ℕ, zero, suc, ◌+◌, ◌*◌, ◌/◌, ◌%◌, ◌^◌, ltb, ◌==◌, if◌then◌else◌, List, [], ◌∷◌, ◌++◌,
}
use squid_storage.Prelude.Lists.{length, take, drop}
use squid_storage.Prelude.Key.{Bytes}
use squid_storage.Protocol.Opcode.{Opcode, opcode_code, opcode_of, FieldId, field_code, field_of}

-- The `std::runtime_error`s that building and parsing throw.
pub data Error : Type 0 where
  too_many_fields field_too_long : Error
  frame_too_short bad_magic truncated_header truncated_value : Error

-- What code that may throw gives.
pub data Fallible {ℓ} (A : Type ℓ) : Type ℓ where
  returns : A → Fallible A
  throws : Error → Fallible A

module _ {ℓ κ} {A : Type ℓ} {B : Type κ} where
  -- What comes after a call runs only if the call returns.
  infixl 5 ◌>>=◌
  abbrev pub ◌>>=◌ : Fallible A → (A → Fallible B) → Fallible B
  throws e >>= rest = throws e
  returns a >>= rest = rest a

pub record BinaryField : Type 0 where
  pub id : FieldId
  pub value : Bytes

pub record Message : Type 0 where
  pub opcode : Opcode
  pub flags : ℕ  -- uint8_t
  pub seq : ℕ  -- uint32_t
  pub payload_len : ℕ  -- uint32_t
  pub fields : List BinaryField

abbrev pub squid_magic : ℕ
squid_magic = 0x5351

abbrev pub flag_response : ℕ
flag_response = 0x01

abbrev pub frame_header_size : ℕ
frame_header_size = 13

-- `pushU16` and `pushU32`: the high byte first.
abbrev pub push_u16 : ℕ → Bytes
push_u16 v = (v / 256 % 256) ∷ (v % 256) ∷ []

abbrev pub push_u32 : ℕ → Bytes
push_u32 v = (v / 2 ^ 24 % 256) ∷ (v / 2 ^ 16 % 256) ∷ (v / 2 ^ 8 % 256) ∷ (v % 256) ∷ []

-- `readU16` and `readU32`. The bytes do not overlap, so `|` is a sum.
abbrev pub read_u16 : ℕ → ℕ → ℕ
read_u16 a b = a * 256 + b

abbrev pub read_u32 : ℕ → ℕ → ℕ → ℕ → ℕ
read_u32 a b c d = a * 2 ^ 24 + b * 2 ^ 16 + c * 2 ^ 8 + d

-- The loop of `buildFrame`.
unfoldable pub build_fields : List BinaryField → Fallible Bytes
build_fields [] = returns []
build_fields (f ∷ fs) =
    if ltb 65535 (length f.value)
    then throws field_too_long
    else (build_fields fs >>= λ rest.
        returns (field_code f.id ∷ push_u16 (length f.value) ++ f.value ++ rest))

abbrev pub frame_header : Opcode → ℕ → ℕ → ℕ → ℕ → Bytes
frame_header op flags nfields seq payload_len =
    push_u16 squid_magic
    ++ opcode_code op ∷ flags ∷ (nfields % 256) ∷ push_u32 seq
    ++ push_u32 payload_len

-- The sequence number is 0 until `stamp_seq` writes it.
unfoldable pub build_frame : Opcode → ℕ → List BinaryField → ℕ → Fallible Bytes
unfolding build_fields
build_frame op flags fields payload_len =
    if ltb 255 (length fields)
    then throws too_many_fields
    else (build_fields fields >>= λ body.
        returns (frame_header op flags (length fields) 0 payload_len ++ body))

-- `stampSeq` writes bytes 5 to 8, unless the frame is shorter than a header.
unfoldable pub stamp_seq : Bytes → ℕ → Bytes
stamp_seq (m ∷ n ∷ op ∷ fl ∷ nf ∷ _ ∷ _ ∷ _ ∷ _ ∷ p ∷ q ∷ r ∷ s ∷ rest) seq =
    m ∷ n ∷ op ∷ fl ∷ nf ∷ push_u32 seq ++ p ∷ q ∷ r ∷ s ∷ rest
stamp_seq frame seq = frame

-- The loop of `parseMessage` over the bytes that are left.
unfoldable pub parse_fields : ℕ → Bytes → Fallible (List BinaryField)
parse_fields zero rest = returns []
parse_fields (suc n) (i ∷ h ∷ l ∷ rest) =
    let vlen = read_u16 h l in
    if ltb (length rest) vlen
    then throws truncated_value
    else (parse_fields n (drop vlen rest) >>= λ fs.
        returns (record { id = field_of i; value = take vlen rest } ∷ fs))
parse_fields (suc n) _ = throws truncated_header

-- What follows the last field is not looked at.
unfoldable pub parse_message : Bytes → Fallible Message
unfolding parse_fields
parse_message (m ∷ n ∷ op ∷ fl ∷ nf ∷ s ∷ t ∷ u ∷ v ∷ p ∷ q ∷ r ∷ w ∷ rest) =
    if read_u16 m n == squid_magic
    then (parse_fields nf rest >>= λ fs. returns (record {
      opcode = opcode_of op;
      flags = fl;
      seq = read_u32 s t u v;
      payload_len = read_u32 p q r w;
      fields = fs;
    }))
    else throws bad_magic
parse_message _ = throws frame_too_short
