-- ===== src/Protocol/Format/Deliver.antt =====
-- What the receiver of a frame reads out of it.
use squid_storage.Prelude.{
  ℕ, ◌≤◌, ◌<◌, ◌^◌, ◌%◌, ◌/◌, ◌≡◌, refl, Bool, false, List, [], ◌∷◌, arith, append-nil,
}
use squid_storage.Prelude.Lists.{length, All}
use squid_storage.Prelude.Key.{Bytes}
use squid_storage.Prelude.Int.{ℤ, IsInt, to_u32, of_u32, to_u32-lt, of_u32-to_u32}
use squid_storage.Protocol.Opcode.{
  Opcode, opcode_of, create_file, update_file, push_create_file, push_update_file, leader_hb,
  nack_stale_epoch, response, field_of, file_path, file_version, epoch,
}
use squid_storage.Protocol.Frame.{
  Fallible, returns, ◌>>=◌, BinaryField, Message, flag_response, read_u32, push_u32, build_frame,
  stamp_seq, parse_message,
}
use squid_storage.Protocol.Frame.RoundTrip.{
  IsOpcode, IsField, Fits, build_frame-eq_returns, parse_message-build_frame, read_u32-push_u32,
}
use squid_storage.Protocol.Message.{get_string, get_uint32, is_response, is_ack}
use squid_storage.Protocol.Format.{
  create_file_format, update_file_format, push_create_file_format, push_update_file_format,
  leader_hb_format, nack_stale_epoch_format, response_ack, response_ack_with_version, path_field,
  version_field,
}

-- A frame that is built, stamped, sent whole and parsed.
unfoldable pub deliver : Fallible Bytes → ℕ → Fallible Message
deliver r seq = r >>= λ frame. parse_message (stamp_seq frame seq)

-- The message that a frame of these fields becomes.
abbrev pub arrived : Opcode → ℕ → ℕ → List BinaryField → Message
arrived op flags seq fs = record {
  opcode = op;
  flags = flags;
  seq = seq;
  payload_len = 0;
  fields = fs;
}

pub deliver-build_frame :
    (op : Opcode) (flags seq : ℕ) (fs : List BinaryField)
    → IsOpcode op
    → seq < 2 ^ 32
    → length fs ≤ 255
    → All IsField fs
    → All Fits fs
    → deliver (build_frame op flags fs 0) seq ≡ returns (arrived op flags seq fs)
unfolding deliver
deliver-build_frame op flags seq fs io hs n i h =
    let read = parse_message-build_frame op flags 0 seq fs [] io (omega arith) hs n i h in
    rw (build_frame-eq_returns op flags 0 fs n h)
      (rw (build_frame-eq_returns op flags 0 fs n h, append-nil (stamp_seq _ seq)) at read)

-- A message that names a file and its version.
pub record Names (m : Message) (p : Bytes) (v : ℤ) : Type 0 where
  pub path : get_string m file_path [] ≡ p
  pub version : of_u32 (get_uint32 m file_version 0) ≡ v

pub version_read :
    (v : ℤ)
    → IsInt v
    → of_u32 (
        let w = to_u32 v in
        read_u32 (w / 2 ^ 24 % 256) (w / 2 ^ 16 % 256) (w / 2 ^ 8 % 256) (w % 256))
      ≡ v
version_read v h = rw (read_u32-push_u32 (to_u32 v) (to_u32-lt v)) (of_u32-to_u32 v h)

file_frame-Names :
    (op : Opcode) (seq : ℕ) (p : Bytes) (v : ℤ)
    → IsInt v
    → Names (arrived op 0 seq (path_field p ∷ version_field v ∷ [])) p v
unfolding get_string get_uint32
file_frame-Names op seq p v h = record { path = refl; version = version_read v h }

-- Each request and push about a file arrives as what it is, with the path and the version that were
-- sent, negative versions included, if the path has at most 65535 bytes.
pub file_requests_arrive :
    (p : Bytes) (v : ℤ) (seq : ℕ)
    → length p ≤ 65535
    → IsInt v
    → seq < 2 ^ 32
    → let sent = λ (op : Opcode) (frame : Fallible Bytes).
      (m : Message) × (deliver frame seq ≡ returns m)
      × (m.opcode ≡ op)
      × (m.seq ≡ seq)
      × (is_response m ≡ false)
      × Names m p v in
      sent create_file (create_file_format p v)
      × sent update_file (update_file_format p v)
      × sent push_create_file (push_create_file_format p v)
      × sent push_update_file (push_update_file_format p v)
unfolding create_file_format update_file_format push_create_file_format push_update_file_format
    is_response
file_requests_arrive p v seq hp hv hs = (
  sent create_file (unfold opcode_of in refl),
  sent update_file (unfold opcode_of in refl),
  sent push_create_file (unfold opcode_of in refl),
  sent push_update_file (unfold opcode_of in refl),
)
  where
    sent :
        (op : Opcode)
        → IsOpcode op
        → (m : Message) × (deliver (build_frame op 0 (path_field p ∷ version_field v ∷ []) 0) seq
            ≡ returns m)
          × (m.opcode ≡ op)
          × (m.seq ≡ seq)
          × (is_response m ≡ false)
          × Names m p v
    sent op io = (
      arrived op 0 seq (path_field p ∷ version_field v ∷ []),
      deliver-build_frame op 0 seq _ io hs (omega arith) (unfold field_of in (refl, (refl, tt)))
          (hp, (omega arith, tt)),
      refl,
      refl,
      refl,
      file_frame-Names op seq p v hv,
    )

-- An answer arrives as an acknowledgement exactly if it was sent as one, and one that carries a
-- version has that version.
answers_arrive :
    (b : Bool) (v : ℤ) (seq : ℕ)
    → IsInt v
    → seq < 2 ^ 32
    → ((m : Message) × (deliver (response_ack b) seq ≡ returns m) × (is_ack m ≡ b))
      × ((m : Message) × (deliver (response_ack_with_version b v) seq ≡ returns m)
          × (is_ack m ≡ b)
          × (of_u32 (get_uint32 m file_version 0) ≡ v))
unfolding response_ack response_ack_with_version is_ack get_uint32
answers_arrive b v seq hv hs = (
  (
    arrived response flag_response seq _,
    deliver-build_frame response flag_response seq _ (unfold opcode_of in refl) hs (omega arith)
        (unfold field_of in (refl, tt)) (omega arith, tt),
    ground arith,
  ),
  (
    arrived response flag_response seq _,
    deliver-build_frame response flag_response seq _ (unfold opcode_of in refl) hs (omega arith)
        (unfold field_of in (refl, (refl, tt))) (omega arith, (omega arith, tt)),
    ground arith,
    version_read v hv,
  ),
)

-- The epoch of a leader's heartbeat and of a rejection arrives as it was sent.
epochs_arrive :
    (e seq : ℕ)
    → e < 2 ^ 32
    → seq < 2 ^ 32
    → let sent = λ (op : Opcode) (frame : Fallible Bytes).
      (m : Message) × (deliver frame seq ≡ returns m)
      × (m.opcode ≡ op)
      × (get_uint32 m epoch 0 ≡ e) in
      sent leader_hb (leader_hb_format e) × sent nack_stale_epoch (nack_stale_epoch_format e)
unfolding leader_hb_format nack_stale_epoch_format get_uint32
epochs_arrive e seq he hs =
    (sent leader_hb (unfold opcode_of in refl), sent nack_stale_epoch (unfold opcode_of in refl))
  where
    sent :
        (op : Opcode)
        → IsOpcode op
        → (m : Message) × (deliver
              (build_frame op 0 (record { id = epoch; value = push_u32 e } ∷ []) 0)
              seq
            ≡ returns m)
          × (m.opcode ≡ op)
          × (get_uint32 m epoch 0 ≡ e)
    sent op io = (
      arrived op 0 seq _,
      deliver-build_frame op 0 seq _ io hs (omega arith) (unfold field_of in (refl, tt))
          (omega arith, tt),
      refl,
      read_u32-push_u32 e he,
    )
