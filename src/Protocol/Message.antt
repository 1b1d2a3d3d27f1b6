-- ===== src/Protocol/Message.antt =====
-- common/src/squidprotocol/squidProtocolFormatter.cpp: what callers read out of a message, and the
-- fields that carry it. The records themselves are in Frame.
use squid_storage.Prelude.{
  ℕ, ◌*◌, ◌+◌, ◌/◌, ◌%◌, ◌^◌, Bool, true, false, not, ◌&&◌, ◌==◌, if◌then◌else◌, Option, none, some,
  List, [], ◌∷◌, ◌++◌,
}
use squid_storage.Prelude.Key.{Bytes, bytes_key}
use squid_storage.Prelude.Int.{ℤ, of_u32}
use squid_storage.Prelude.Map.{Map, assign}
use squid_storage.Protocol.Opcode.{response, FieldId, ack, file_entry, ver_entry, field_code}
use squid_storage.Protocol.Frame.{BinaryField, Message, push_u32, read_u32, flag_response}

-- `fieldString`, `fieldUint32`, `fieldUint64` and `fieldBool`.
abbrev pub field_string : FieldId → Bytes → BinaryField
field_string i s = record { id = i; value = s }

abbrev pub field_uint32 : FieldId → ℕ → BinaryField
field_uint32 i v = record { id = i; value = push_u32 v }

-- The loop writes the low byte of `v` at the end and shifts, eight times.
abbrev pub field_uint64 : FieldId → ℕ → BinaryField
field_uint64 i v = record { id = i; value = push_u32 (v / 2 ^ 32) ++ push_u32 v }

abbrev pub field_bool : FieldId → Bool → BinaryField
field_bool i v = record { id = i; value = (if v then 0x01 else 0x00) ∷ [] }

-- The first field with the id. Ids are compared as bytes.
unfoldable pub find_field_in : FieldId → List BinaryField → Option BinaryField
find_field_in i [] = none
find_field_in i (f ∷ fs) = if field_code f.id == field_code i then some f else find_field_in i fs

unfoldable pub find_field : Message → FieldId → Option BinaryField
unfolding find_field_in
find_field m i = find_field_in i m.fields

unfoldable pub get_string : Message → FieldId → Bytes → Bytes
unfolding find_field
get_string m i def = elim (find_field m i) [ none ↦ def | some f ↦ f.value ]

-- A value shorter than the number gives the default; bytes behind it are not read.
abbrev pub uint32_or : Bytes → ℕ → ℕ
uint32_or (a ∷ b ∷ c ∷ d ∷ _) def = read_u32 a b c d
uint32_or _ def = def

abbrev pub uint64_or : Bytes → ℕ → ℕ
uint64_or (a ∷ b ∷ c ∷ d ∷ e ∷ f ∷ g ∷ h ∷ _) def = read_u32 a b c d * 2 ^ 32 + read_u32 e f g h
uint64_or _ def = def

abbrev pub bool_or : Bytes → Bool → Bool
bool_or [] def = def
bool_or (b ∷ _) def = not (b == 0x00)

unfoldable pub get_uint32 : Message → FieldId → ℕ → ℕ
unfolding find_field
get_uint32 m i def = elim (find_field m i) [ none ↦ def | some f ↦ uint32_or f.value def ]

unfoldable pub get_uint64 : Message → FieldId → ℕ → ℕ
unfolding find_field
get_uint64 m i def = elim (find_field m i) [ none ↦ def | some f ↦ uint64_or f.value def ]

unfoldable pub get_bool : Message → FieldId → Bool → Bool
unfolding find_field
get_bool m i def = elim (find_field m i) [ none ↦ def | some f ↦ bool_or f.value def ]

-- The flag is the lowest bit.
unfoldable pub is_response : Message → Bool
is_response m = not (m.flags % 2 == 0)

unfoldable pub is_ack : Message → Bool
unfolding is_response get_bool
is_ack m = is_response m && get_bool m ack false

-- The two vectors that `getFileVersionMap` collects.
unfoldable pub file_entries : List BinaryField → List Bytes
file_entries [] = []
file_entries (f ∷ fs) =
    if field_code f.id == field_code file_entry then f.value ∷ file_entries fs else file_entries fs

abbrev pub version_of : Bytes → List ℕ → List ℕ
version_of (a ∷ b ∷ c ∷ d ∷ _) vs = read_u32 a b c d ∷ vs
version_of _ vs = vs

unfoldable pub ver_entries : List BinaryField → List ℕ
ver_entries [] = []
ver_entries (f ∷ fs) =
    if field_code f.id == field_code ver_entry
    then version_of f.value (ver_entries fs)
    else ver_entries fs

-- `result[files[i]] = versions[i]`, up to the shorter of the two.
unfoldable pub pair_up : List Bytes → List ℕ → Map Bytes ℤ → Map Bytes ℤ
unfolding assign
pair_up (f ∷ fs) (v ∷ vs) result = pair_up fs vs (assign f (of_u32 v) result)
pair_up _ _ result = result

unfoldable pub get_file_version_map : Message → Map Bytes ℤ
unfolding file_entries ver_entries pair_up
get_file_version_map m = pair_up (file_entries m.fields) (ver_entries m.fields) []

-- `makeNack` and `makeAck`: messages made up locally.
abbrev pub local_answer : Bool → Message
local_answer b = record {
  opcode = response;
  flags = flag_response;
  seq = 0;
  payload_len = 0;
  fields = field_bool ack b ∷ [];
}

unfoldable pub make_nack : Message
make_nack = local_answer false

unfoldable pub make_ack : Message
make_ack = local_answer true
