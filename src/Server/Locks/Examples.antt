-- ===== src/Server/Locks/Examples.antt =====
-- Locks on one file.
use squid_storage.Prelude.{ℕ, ◌+◌, ◌≡◌, refl, true, false, some, [], ◌∷◌, inl}
use squid_storage.Prelude.Key.{Bytes, codes, bytes_key}
use squid_storage.Prelude.Map.{find, assign}
use squid_storage.Protocol.Message.{
  make_nack, is_response, get_file_version_map, file_entries, ver_entries, pair_up,
}
use squid_storage.Server.State.{Net, State}
use squid_storage.Server.Locks.{
  file_lock, lock_interval, ensure_entry, take_lock, acquire_lock, build_file_lock_map,
  release_expired,
}
use squid_storage.Server.Locks.Rebuild.{Grows}
use squid_storage.Server.Locks.Reports.{IsListed, Reports, build_file_lock_map_lem}
use squid_storage.Prelude.Int.{ℤ, pos, of_u32, to_u32}
use squid_storage.Protocol.Opcode.{response}
use squid_storage.Protocol.Frame.{flag_response}
use squid_storage.Protocol.Format.{version_fields}
use squid_storage.Protocol.Format.Deliver.{arrived}
use squid_storage.Server.Locks.Exclusion.{Holds, acquire_lock_grants}
use squid_storage.Server.Locks.Expiry.{IsOpen, release_expired_unchecked}

abbrev silent : Net
silent = record { is_alive = λ s. false; answer = λ s c. make_nack; bytes_read = λ s p. [] }

abbrev path : Bytes
path = codes "a"

abbrev start : State
start = record {
  replication_factor = 2;
  data_nodes = [];
  clients = (codes "c1", some 1) ∷ [];
  locks = (path, file_lock path 0) ∷ [];
  holders = [];
  versions = [];
  version_file = [];
  holder_file = [];
  has_standby = false;
}

abbrev taken : State
taken = record start {
  locks =
      (
        path,
        record {
          locked = true;
          client_holder = codes "c1";
          file_path = path;
          expiration_time = 10 + lock_interval;
        },
      )
      ∷ [];
}

acquire_runs : acquire_lock silent 10 path (codes "c1") start ≡ (taken, true)
unfolding acquire_lock ensure_entry take_lock find assign
acquire_runs = refl

taken-Holds : Holds path (codes "c1") (10 + lock_interval) taken
unfolding find
taken-Holds = record {
  entry = record {
    locked = true;
    client_holder = codes "c1";
    file_path = path;
    expiration_time = 10 + lock_interval;
  };
  found = refl;
  is_locked = refl;
  by_client = refl;
  expires = refl;
}

-- The data node `d1` reports the files `a` and `b`.
abbrev reporting : Net
reporting = record {
  is_alive = λ s. true;
  answer = λ s c.
      arrived response flag_response 0
        (version_fields ((codes "a", pos 4) ∷ (codes "b", pos 1) ∷ []));
  bytes_read = λ s p. [];
}

abbrev connected : State
connected = record taken { data_nodes = (codes "d1", some 1) ∷ [] }

Reports-b : Reports reporting 1 (codes "b") (pos 1)
unfolding version_fields is_response get_file_version_map file_entries ver_entries pair_up find
    assign of_u32 to_u32
Reports-b = record { alive = refl; answers = refl; has = refl }

build_file_lock_map_lem_example :
    Grows connected (build_file_lock_map reporting 5 connected)
    × ((name : Bytes) (s : ℕ) (p : Bytes) (v : ℤ)
        → find name connected.data_nodes ≡ some (some s)
        → Reports reporting s p v
        → IsListed p (build_file_lock_map reporting 5 connected))
build_file_lock_map_lem_example = build_file_lock_map_lem reporting 5 connected

b-IsListed : IsListed (codes "b") (build_file_lock_map reporting 5 connected)
unfolding find
b-IsListed =
    (build_file_lock_map_lem reporting 5 connected).1 (codes "d1") 1 (codes "b") (pos 1) refl
      Reports-b

acquire_lock_grants_example :
    Holds path (codes "c1") (10 + lock_interval) (acquire_lock silent 10 path (codes "c1") start).0
    × ((other : Bytes) (until : ℕ) → ¬ Holds path other until start)
unfolding acquire_lock ensure_entry take_lock find assign
acquire_lock_grants_example = acquire_lock_grants silent 10 path (codes "c1") start refl

release_expired_unchecked_example : IsOpen path (release_expired ((path, codes "c0") ∷ []) taken).0
release_expired_unchecked_example =
    release_expired_unchecked path (codes "c1") (10 + lock_interval) ((path, codes "c0") ∷ []) taken
      (inl refl) taken-Holds
