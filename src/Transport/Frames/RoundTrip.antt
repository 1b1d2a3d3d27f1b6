-- ===== src/Transport/Frames/RoundTrip.antt =====
-- A frame on the connection is received whole and alone, and read as the message it was built from.
use squid_storage.Prelude.{
  ℕ, ◌/◌, ◌%◌, ◌^◌, ◌≤◌, ◌≡◌, refl, ◌∙◌, ap, le→not-ltb, some, List, [], ◌∷◌, ◌++◌, append_assoc,
  arith,
}
use squid_storage.Prelude.Lists.{length, All}
use squid_storage.Prelude.Key.{Bytes}
use squid_storage.Protocol.Opcode.{Opcode, field_code}
use squid_storage.Protocol.Frame.{BinaryField, push_u16, read_u32, frame_header}
use squid_storage.Protocol.Frame.RoundTrip.{
  Fits, field_bytes, body, read_u16-push_u16, read_u32-push_u32, mod_small,
}
use squid_storage.Transport.Channel.{Channel, Reader, ◌>>=◌, gives, recv_exact}
use squid_storage.Transport.Channel.Stream.{stream, Yields, Yields-then, recv_exact-front}
use squid_storage.Transport.Frames.{
  max_payload_size, field_length, receive_field, receive_fields, receive_payload, after_header,
  receive_frame,
}

field_header : BinaryField → Bytes
field_header f = field_code f.id ∷ push_u16 (length f.value)

receive_value :
    (f : BinaryField) (rest : Bytes) (ch : Channel)
    → Fits f
    → stream ch ≡ f.value ++ rest
    → Yields (recv_exact (field_length (field_header f))) ch f.value rest
unfolding field_header
receive_value f rest ch h e =
    rw (read_u16-push_u16 (length f.value) (omega (arith, h))) (recv_exact-front f.value rest ch e)

receive_field-front :
    (f : BinaryField) (rest : Bytes) (ch : Channel)
    → Fits f
    → stream ch ≡ field_bytes f ++ rest
    → Yields receive_field ch (field_bytes f) rest
unfolding receive_field field_bytes field_header
receive_field-front f rest ch h e =
    let hdr = field_header f in
    Yields-then (recv_exact 3)
      (λ fhdr. recv_exact (field_length fhdr) >>= λ value. gives (fhdr ++ value)) ch hdr
      (field_bytes f) (f.value ++ rest) rest (recv_exact-front hdr (f.value ++ rest) ch e)
      (λ d at.
        Yields-then (recv_exact (field_length hdr)) (λ value. gives (hdr ++ value)) d f.value
          (field_bytes f) rest rest (receive_value f rest d h at)
          (λ left stays. (left, refl, stays)))

receive_fields-body :
    (fs : List BinaryField) (rest : Bytes) (ch : Channel)
    → All Fits fs
    → stream ch ≡ body fs ++ rest
    → Yields (receive_fields (length fs)) ch (body fs) rest
unfolding receive_fields body
receive_fields-body [] rest ch h e = (ch, refl, e)
receive_fields-body (f ∷ fs) rest ch h e =
    let field = field_bytes f in
    Yields-then receive_field (λ r. receive_fields (length fs) >>= λ more. gives (r ++ more)) ch
      field (body (f ∷ fs)) (body fs ++ rest) rest
      (receive_field-front f (body fs ++ rest) ch h.0 (e ∙ append_assoc field (body fs) rest))
      (λ d at.
        Yields-then (receive_fields (length fs)) (λ more. gives (field ++ more)) d (body fs)
          (body (f ∷ fs)) rest rest (receive_fields-body fs rest d h.1 at)
          (λ left stays. (left, refl, stays)))

receive_payload-front :
    (payload rest : Bytes) (ch : Channel)
    → length payload ≤ max_payload_size
    → stream ch ≡ payload ++ rest
    → Yields (receive_payload (length payload)) ch payload rest
unfolding receive_payload
receive_payload-front payload rest ch h e =
    rw (le→not-ltb max_payload_size (length payload) h) (recv_exact-front payload rest ch e)

-- The bytes of a frame with its payload.
unfoldable pub wire : Opcode → ℕ → ℕ → List BinaryField → Bytes → Bytes
wire op flags seq fs payload =
    frame_header op flags (length fs) seq (length payload) ++ (body fs ++ payload)

after_fields : Bytes → ℕ → Bytes → Reader Bytes
after_fields header n fields =
    receive_payload n >>= λ payload. gives (header ++ (fields ++ payload))

-- The rest of a frame, whose header has the number `n` of fields and the payload's length `k`.
after_fields-front :
    (header : Bytes) (n k : ℕ) (fs : List BinaryField) (payload rest : Bytes) (ch : Channel)
    → n ≡ length fs
    → k ≡ length payload
    → All Fits fs
    → length payload ≤ max_payload_size
    → stream ch ≡ body fs ++ (payload ++ rest)
    → Yields (receive_fields n >>= after_fields header k) ch (header ++ (body fs ++ payload)) rest
unfolding after_fields
after_fields-front header n k fs payload rest ch nf np h p e =
    let whole = header ++ (body fs ++ payload) in
    Yields-then (receive_fields n) (after_fields header k) ch (body fs) whole (payload ++ rest) rest
      (rw nf (receive_fields-body fs (payload ++ rest) ch h e))
      (λ d at.
        Yields-then (receive_payload k) (λ r. gives (header ++ (body fs ++ r))) d payload whole rest
          rest (rw np (receive_payload-front payload rest d p at))
          (λ left stays. (left, refl, stays)))

-- A frame of at most 255 fields, each of at most 65535 bytes, and a payload of at most 16 MiB is
-- received whole from the front of the stream, and the bytes after it stay for the next read.
pub receive_frame-wire :
    (op : Opcode) (flags seq : ℕ) (fs : List BinaryField) (payload rest : Bytes) (ch : Channel)
    → length fs ≤ 255
    → All Fits fs
    → length payload ≤ max_payload_size
    → stream ch ≡ wire op flags seq fs payload ++ rest
    → (left : Channel) × (receive_frame ch ≡ (some (wire op flags seq fs payload), left))
      × (stream left ≡ rest)
unfolding receive_frame after_header wire after_fields
receive_frame-wire op flags seq fs payload rest ch n h p e =
    let hdr = frame_header op flags (length fs) seq (length payload) in
    let left_over = body fs ++ (payload ++ rest) in
    Yields-then (recv_exact 13) after_header ch hdr (hdr ++ (body fs ++ payload)) left_over rest
      (recv_exact-front hdr left_over ch
        (e ∙ ap (λ r. hdr ++ r) (append_assoc (body fs) payload rest)))
      (λ d at.
        after_fields-front hdr (length fs % 256)
          (read_u32 (length payload / 2 ^ 24 % 256) (length payload / 2 ^ 16 % 256)
            (length payload / 2 ^ 8 % 256) (length payload % 256))
          fs payload rest d (mod_small (length fs) n)
          (read_u32-push_u32 (length payload) (omega (arith, p))) h p at)
