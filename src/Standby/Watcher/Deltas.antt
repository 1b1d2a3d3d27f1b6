-- ===== src/Standby/Watcher/Deltas.antt =====
-- The deltas of the primary reach the server that stands by, as its maps.
use squid_storage.Prelude.{
  ℕ, ◌%◌, ◌^◌, ◌≤◌, ◌<◌, ◌≡◌, refl, ap, List, [], ◌∷◌, map, arith, le→not-ltb,
}
use squid_storage.Prelude.Lists.{length, All}
use squid_storage.Prelude.Key.{Bytes}
use squid_storage.Prelude.Int.{ℤ, IsInt}
use squid_storage.Protocol.Opcode.{state_delta, epoch, datanode_name, field_of, opcode_of}
use squid_storage.Protocol.Frame.{returns, Message}
use squid_storage.Protocol.Frame.RoundTrip.{IsField, Fits, read_u32-push_u32}
use squid_storage.Protocol.Message.{field_string, get_uint32, get_string}
use squid_storage.Protocol.Format.{delta_fields, state_delta_format}
use squid_storage.Protocol.Format.Deliver.{deliver, arrived, deliver-build_frame, version_read}
use squid_storage.Standby.Watcher.{
  Watcher, observe, change_maps, delta_op_in, data_node_names, apply_delta, goes_on, receive,
}

names_read : (names : List Bytes) → data_node_names (map (field_string datanode_name) names) ≡ names
unfolding data_node_names
names_read [] = refl
names_read (x ∷ xs) = ap (λ r. x ∷ r) (names_read xs)

names-IsField : (names : List Bytes) → All IsField (map (field_string datanode_name) names)
unfolding field_of
names-IsField [] = tt
names-IsField (x ∷ xs) = (refl, names-IsField xs)

names-Fits :
    (names : List Bytes)
    → All (λ x. length x ≤ 65535) names
    → All Fits (map (field_string datanode_name) names)
names-Fits [] h = tt
names-Fits (x ∷ xs) h = (h.0, names-Fits xs h.1)

length-names : (names : List Bytes) → length (map (field_string datanode_name) names) ≡ length names
length-names [] = refl
length-names (x ∷ xs) = omega (arith, length-names xs)

-- What fits in a delta: it has four fields and one for each name.
pub record FitsDelta (op : ℕ) (path : Bytes) (v : ℤ) (names : List Bytes) (e : ℕ) : Type 0 where
  pub op_small : op < 256
  pub path_short : length path ≤ 65535
  pub version_is_int : IsInt v
  pub few_names : length names ≤ 251
  pub names_short : All (λ x. length x ≤ 65535) names
  pub epoch_small : e < 2 ^ 32

abbrev pub delta_message : ℕ → Bytes → ℤ → List Bytes → ℕ → ℕ → Message
delta_message op path v names e seq = arrived state_delta 0 seq (delta_fields op path v names e)

delta_arrives :
    (op : ℕ) (path : Bytes) (v : ℤ) (names : List Bytes) (e seq : ℕ)
    → FitsDelta op path v names e
    → seq < 2 ^ 32
    → deliver (state_delta_format op path v names e) seq
      ≡ returns (delta_message op path v names e seq)
unfolding state_delta_format
delta_arrives op path v names e seq f hs =
    deliver-build_frame state_delta 0 seq (delta_fields op path v names e)
      (unfold opcode_of in refl) hs (omega (arith, f.few_names, length-names names))
      (unfold field_of in (refl, (refl, (refl, (refl, names-IsField names)))))
      (omega arith, (omega arith, (f.path_short, (omega arith, names-Fits names f.names_short))))

op_read : (op : ℕ) → op < 256 → op % 256 ≡ op
op_read op h = omega (arith, h)

delta_applied :
    (op : ℕ) (path : Bytes) (v : ℤ) (names : List Bytes) (e seq : ℕ) (w : Watcher)
    → FitsDelta op path v names e
    → apply_delta (delta_message op path v names e seq) w
      ≡ change_maps op path v names (observe e w)
unfolding apply_delta delta_op_in data_node_names get_string get_uint32
delta_applied op path v names e seq w f = rw (
  op_read op f.op_small,
  read_u32-push_u32 e f.epoch_small,
  version_read v f.version_is_int,
  names_read names,
)

delta_epoch :
    (op : ℕ) (path : Bytes) (v : ℤ) (names : List Bytes) (e seq : ℕ)
    → e < 2 ^ 32
    → get_uint32 (delta_message op path v names e seq) epoch 0 ≡ e
unfolding get_uint32
delta_epoch op path v names e seq h = read_u32-push_u32 e h

-- A delta of the primary arrives whole, and a server that stands by and has seen no higher epoch
-- changes its maps by the operation, the path, the version and the data nodes that were sent, with
-- no new deadline.
pub receive-state_delta :
    (op : ℕ) (path : Bytes) (v : ℤ) (names : List Bytes) (e seq : ℕ) (w : Watcher)
    → FitsDelta op path v names e
    → seq < 2 ^ 32
    → w.observed_epoch ≤ e
    → (m : Message) × (deliver (state_delta_format op path v names e) seq ≡ returns m)
      × (receive m w ≡ (change_maps op path v names (observe e w), goes_on))
unfolding receive
receive-state_delta op path v names e seq w f hs h = (
  delta_message op path v names e seq,
  delta_arrives op path v names e seq f hs,
  rw (
    delta_epoch op path v names e seq f.epoch_small,
    le→not-ltb e w.observed_epoch h,
    delta_applied op path v names e seq w f,
  ),
)
