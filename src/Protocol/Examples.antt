-- ===== src/Protocol/Examples.antt =====
-- Frames of concrete requests and answers.
use squid_storage.Prelude.{◌≡◌, ◌↔◌, ◌≤◌, ℕ, zero, suc, refl, [], ◌∷◌, ◌++◌, arith}
use squid_storage.Prelude.Lists.{length, All}
use squid_storage.Prelude.Key.{Bytes, codes, bytes_key}
use squid_storage.Prelude.Int.{ℤ, pos}
use squid_storage.Prelude.Map.{Map}
use squid_storage.Prelude.Map.Laws.{IsOrdered}
use squid_storage.Protocol.Opcode.{create_file, file_path, opcode_of, field_of}
use squid_storage.Protocol.Frame.{
  Error, returns, throws, ◌>>=◌, too_many_fields, Message, build_frame, stamp_seq, parse_message,
}
use squid_storage.Protocol.Frame.RoundTrip.{Fits, parse_message-build_frame}
use squid_storage.Protocol.Frame.Truncated.{build_frame-returns_iff, parse_message_truncated}
use squid_storage.Protocol.Message.{field_string}
use squid_storage.Protocol.Format.{response_file_version_map}
use squid_storage.Protocol.Format.Deliver.{arrived}
use squid_storage.Protocol.Format.VersionMap.{version_map_too_large}

abbrev one_path : Message
one_path = arrived create_file 0 7 (field_string file_path (codes "a/b") ∷ [])

abbrev one_frame : Bytes
one_frame = 0x53 ∷ 0x51 ∷ 0x10 ∷ 0 ∷ 1 ∷ 0 ∷ 0 ∷ 0 ∷ 0 ∷ 0 ∷ 0 ∷ 0 ∷ 0 ∷ 1 ∷ 0 ∷ 3 ∷ codes "a/b"

one_frame_built : build_frame create_file 0 one_path.fields 0 ≡ returns one_frame
unfolding build_frame
one_frame_built = refl

stamped : parse_message (stamp_seq one_frame 0x0102) ≡ returns (record one_path { seq = 0x0102 })
unfolding parse_message stamp_seq opcode_of field_of
stamped = refl

parse_message-build_frame_example :
    (build_frame create_file 0 one_path.fields 0 >>= λ frame.
    parse_message (stamp_seq frame 7 ++ 9 ∷ []))
    ≡ returns one_path
unfolding opcode_of field_of
parse_message-build_frame_example =
    parse_message-build_frame create_file 0 0 7 one_path.fields (9 ∷ []) refl (omega arith)
      (omega arith) (omega arith) (refl, tt) (omega arith, tt)

build_frame-returns_iff_example :
    ((frame : Bytes) × (build_frame create_file 0 one_path.fields 0 ≡ returns frame))
    ↔ ((length one_path.fields ≤ 255) × All Fits one_path.fields)
build_frame-returns_iff_example = build_frame-returns_iff create_file 0 0 one_path.fields

abbrev cut_frame : Bytes
cut_frame = 0x53 ∷ 0x51 ∷ 0x10 ∷ 0 ∷ 1 ∷ 0 ∷ 0 ∷ 0 ∷ 7 ∷ 0 ∷ 0 ∷ 0 ∷ 0 ∷ 1 ∷ 0 ∷ 3 ∷ codes "a"

parse_message_truncated_example : (e : Error) × (parse_message cut_frame ≡ throws e)
unfolding opcode_of field_of build_frame stamp_seq
parse_message_truncated_example =
    parse_message_truncated create_file 0 0 7 b'/' one_path.fields one_frame cut_frame (codes "b")
      refl (omega arith) (omega arith) (refl, tt) refl refl

abbrev two_files : Map Bytes ℤ
two_files = (codes "a", pos 3) ∷ (codes "b", pos 0) ∷ []

two_files-IsOrdered : IsOrdered two_files
two_files-IsOrdered = ground arith

-- A map of `n` files.
abbrev many : ℕ → Map Bytes ℤ
many zero = []
many (suc n) = (n ∷ [], pos 0) ∷ many n

version_map_too_large_example : response_file_version_map (many 128) ≡ throws too_many_fields
version_map_too_large_example = version_map_too_large (many 128) (omega arith)
