-- ===== src/Protocol/Format/VersionMap.antt =====
-- The answer to a sync request: the map of versions arrives as it was sent, up to 127 files.
use squid_storage.Prelude.{
  ℕ, ◌*◌, ◌^◌, ◌≤◌, ◌<◌, ◌≡◌, refl, true, [], ◌∷◌, ◌++◌, map, arith, append-nil, sym, ◌∙◌, lt→ltb,
}
use squid_storage.Prelude.Lists.{length, All}
use squid_storage.Prelude.Key.{Bytes, bytes_key}
use squid_storage.Prelude.Int.{ℤ, IsInt, to_u32, to_u32-lt, of_u32-to_u32}
use squid_storage.Prelude.Map.{Map, assign}
use squid_storage.Prelude.Map.Laws.{IsOrdered, assign-append}
use squid_storage.Protocol.Opcode.{opcode_of, field_of, response}
use squid_storage.Protocol.Frame.{
  returns, throws, too_many_fields, Message, flag_response, build_frame,
}
use squid_storage.Protocol.Frame.RoundTrip.{IsField, Fits, read_u32-push_u32}
use squid_storage.Protocol.Message.{
  file_entries, ver_entries, pair_up, get_file_version_map, is_response,
}
use squid_storage.Protocol.Format.{version_fields, response_file_version_map}
use squid_storage.Protocol.Format.Deliver.{deliver, arrived, deliver-build_frame}

-- A map that a frame can hold: paths of at most 65535 bytes, and versions in the range of `int`.
abbrev pub IsSendable : Map Bytes ℤ → Type 0
IsSendable [] = Unit
IsSendable ((p, v) ∷ m) = (length p ≤ 65535) × IsInt v × IsSendable m

length-version_fields : (m : Map Bytes ℤ) → length (version_fields m) ≡ 2 * length m
unfolding version_fields
length-version_fields [] = refl
length-version_fields ((p, v) ∷ m) = omega (arith, length-version_fields m)

version_fields-IsField : (m : Map Bytes ℤ) → All IsField (version_fields m)
unfolding version_fields field_of
version_fields-IsField [] = tt
version_fields-IsField ((p, v) ∷ m) = (refl, (refl, version_fields-IsField m))

version_fields-Fits : (m : Map Bytes ℤ) → IsSendable m → All Fits (version_fields m)
unfolding version_fields
version_fields-Fits [] h = tt
version_fields-Fits ((p, v) ∷ m) h = (h.0, (omega arith, version_fields-Fits m h.2))

file_entries-version_fields : (m : Map Bytes ℤ) → file_entries (version_fields m) ≡ map (λ e. e.0) m
unfolding file_entries version_fields
file_entries-version_fields [] = refl
file_entries-version_fields ((p, v) ∷ m) = rw (file_entries-version_fields m)

ver_entries-version_fields :
    (m : Map Bytes ℤ) → ver_entries (version_fields m) ≡ map (λ e. to_u32 e.1) m
unfolding ver_entries version_fields
ver_entries-version_fields [] = refl
ver_entries-version_fields ((p, v) ∷ m) =
    rw (read_u32-push_u32 (to_u32 v) (to_u32-lt v), ver_entries-version_fields m)

pair_up-append :
    (m xs : Map Bytes ℤ)
    → IsSendable m
    → IsOrdered (xs ++ m)
    → pair_up (map (λ e. e.0) m) (map (λ e. to_u32 e.1) m) xs ≡ xs ++ m
unfolding pair_up
pair_up-append [] xs h o = sym (append-nil xs)
pair_up-append ((p, v) ∷ m) xs h o = rw (of_u32-to_u32 v h.1) (
    pair_up-append m (assign p v xs) h.2 (rw (assign-append p v xs m o) o)
    ∙ assign-append p v xs m o)

-- A map of at most 127 files, in key order, with paths of at most 65535 bytes and versions that are
-- `int`s, is read back by the receiver of the answer as the same map.
pub version_map_arrives :
    (m : Map Bytes ℤ) (seq : ℕ)
    → IsOrdered m
    → IsSendable m
    → length m ≤ 127
    → seq < 2 ^ 32
    → (msg : Message) × (deliver (response_file_version_map m) seq ≡ returns msg)
      × (is_response msg ≡ true)
      × (get_file_version_map msg ≡ m)
unfolding response_file_version_map get_file_version_map is_response
version_map_arrives m seq o h n hs = (
  arrived response flag_response seq (version_fields m),
  deliver-build_frame response flag_response seq (version_fields m) (unfold opcode_of in refl) hs
      (omega (arith, length-version_fields m)) (version_fields-IsField m) (version_fields-Fits m h),
  refl,
  rw (file_entries-version_fields m, ver_entries-version_fields m) (pair_up-append m [] h o),
)

-- A map of more than 127 files is never sent: the answer would have more fields than a frame can
-- count, and building it throws.
pub version_map_too_large :
    (m : Map Bytes ℤ) → 127 < length m → response_file_version_map m ≡ throws too_many_fields
unfolding response_file_version_map build_frame
version_map_too_large m h =
    rw (lt→ltb 255 (length (version_fields m)) (omega (arith, length-version_fields m)))
