-- ===== src/Standby/Mirror/Examples.antt =====
-- A creation, an update and a deletion, followed by a server that stands by.
use squid_storage.Prelude.{ℕ, ◌<◌, ◌^◌, refl, true, some, List, [], ◌∷◌, arith}
use squid_storage.Prelude.Key.{Bytes, codes, bytes_key}
use squid_storage.Prelude.Int.{pos}
use squid_storage.Prelude.Map.{find, assign, erase, insert}
use squid_storage.Protocol.Message.{
  make_ack, is_ack, is_response, get_bool, find_field, find_field_in,
}
use squid_storage.Server.State.{Net, State}
use squid_storage.Server.Locks.{insert_lock, erase_lock}
use squid_storage.Server.Replication.{
  acked_by, notify, hold_all, persist_state, commit_create, propagate_create_file, commit_update,
  propagate_update_file, asked, commit_delete, propagate_delete_file, persistable,
}
use squid_storage.Standby.Watcher.{Watcher, standby}
use squid_storage.Standby.Watcher.Deltas.{FitsDelta}
use squid_storage.Standby.Mirror.{Write, creates, updates, deletes, perform_all}
use squid_storage.Standby.Mirror.Versions.{Mirrors, AllFit, perform_all-Mirrors}

abbrev willing : Net
willing = record { is_alive = λ s. true; answer = λ s c. make_ack; bytes_read = λ s p. [] }

abbrev path : Bytes
path = codes "a"

abbrev start : State
start = record {
  replication_factor = 1;
  data_nodes = (codes "d1", some 1) ∷ [];
  clients = (codes "c1", some 4) ∷ (codes "c2", some 5) ∷ [];
  locks = [];
  holders = [];
  versions = [];
  version_file = [];
  holder_file = [];
  has_standby = true;
}

abbrev follower : Watcher
follower = record {
  role = standby;
  version_map = [];
  rep_map = [];
  observed_epoch = 2;
  stored_epoch = 2;
}

abbrev history : List Write
history =
    creates willing 7 path (pos 0) (codes "c1") (1 ∷ [])
    ∷ updates willing path (pos 0) (codes "c1") (2 ∷ [])
    ∷ deletes willing true (codes "b") (codes "c1")
    ∷ []

fits_d1 : (v : ℕ) → v < 2 ^ 31 → FitsDelta 0 path (pos v) (codes "d1" ∷ []) 3
fits_d1 v h = record {
  op_small = omega arith;
  path_short = omega arith;
  version_is_int = h;
  few_names = omega arith;
  names_short = (omega arith, tt);
  epoch_small = omega arith;
}

fits_gone : FitsDelta 1 (codes "b") (pos 0) [] 3
fits_gone = record {
  op_small = omega arith;
  path_short = omega arith;
  version_is_int = omega arith;
  few_names = omega arith;
  names_short = tt;
  epoch_small = omega arith;
}

history-AllFit : AllFit 3 history start
unfolding propagate_create_file commit_create acked_by notify hold_all persist_state insert_lock
    propagate_update_file commit_update propagate_delete_file commit_delete asked persistable
    erase_lock find assign erase insert make_ack is_ack is_response get_bool find_field
    find_field_in
history-AllFit = (
  (fits_d1 0 (omega arith), (tt, tt)),
  ((fits_d1 1 (omega arith), (tt, tt)), ((tt, (fits_gone, tt)), tt)),
)

perform_all-Mirrors_example :
    let both = perform_all 3 0 history (start, follower) in Mirrors both.0 both.1
perform_all-Mirrors_example =
    perform_all-Mirrors 3 0 history start follower refl history-AllFit (omega arith) (omega arith)
      (λ p. refl)
