-- ===== src/Protocol/Opcode/Codes.antt =====
-- Codes and names correspond.
use squid_storage.Prelude.{ℕ, ◌<◌, ◌≡◌, arith}
use squid_storage.Protocol.Opcode.{opcode_code, opcode_of, field_code, field_of}

-- Reading a byte as an opcode loses nothing.
pub opcode_code-opcode_of : (b : ℕ) → b < 256 → opcode_code (opcode_of b) ≡ b
unfolding opcode_of
opcode_code-opcode_of b h = ground arith

pub field_code-field_of : (b : ℕ) → b < 256 → field_code (field_of b) ≡ b
unfolding field_of
field_code-field_of b h = ground arith
