-- ===== src/Standby/Watcher/Examples.antt =====
-- A server that stands by at epoch 2, and the heartbeat of a new leader.
use squid_storage.Prelude.{ℕ, ◌≡◌, refl, true, false, some, ◌⊎◌, List, [], ◌∷◌, arith}
use squid_storage.Prelude.Key.{Bytes, codes, bytes_key}
use squid_storage.Prelude.Int.{ℤ, pos, negsuc}
use squid_storage.Prelude.Map.{Map, find}
use squid_storage.Prelude.Text.{digits, show_int}
use squid_storage.Standby.Snapshot.{state_snap_format, snap_text, join_commas}
use squid_storage.Standby.Snapshot.RoundTrip.{IsName}
use squid_storage.Standby.Watcher.Snapshots.{with_nodes_of, receive-state_snap}
use squid_storage.Protocol.Opcode.{leader_hb, state_delta, epoch}
use squid_storage.Protocol.Frame.{returns, Message}
use squid_storage.Protocol.Message.{field_uint32, get_uint32, find_field, find_field_in}
use squid_storage.Protocol.Format.Deliver.{deliver, arrived}
use squid_storage.Standby.Watcher.{
  Watcher, standby, observe, renews, Poll, quiet, frame, receive, receive_loop, promote,
}
use squid_storage.Standby.Cluster.{
  ServerEntry, ClusterConfig, Probe, standalone, decide, follow_target, all_higher_priority_down,
  higher_priority_than, servers_before, all_down, reachable,
}
use squid_storage.Standby.Watcher.Rounds.{
  Session, after_loop, watch_round, PromotesAtOnce, PromotesLater, watch_round_promotes,
}
use squid_storage.Standby.Watcher.Epochs.{promote_fences}

abbrev waiting : Watcher
waiting = record {
  role = standby;
  version_map = (codes "a", pos 4) ∷ [];
  rep_map = [];
  observed_epoch = 2;
  stored_epoch = 0;
}

abbrev heartbeat_of : ℕ → Message
heartbeat_of e = arrived leader_hb 0 0 (field_uint32 epoch e ∷ [])

abbrev rounds : List (ℕ × Poll)
rounds =
    (100, frame (heartbeat_of 2)) ∷ (200, quiet) ∷ (300, frame (arrived state_delta 0 1 [])) ∷ []

promote_fences_example :
    let heard = (receive (heartbeat_of 3) waiting).0 in
    (receive_loop 1500 1000 rounds heard).0 ≡ heard
unfolding get_uint32 find_field find_field_in promote
promote_fences_example =
    promote_fences waiting waiting (heartbeat_of 3) 1500 1000 rounds (omega arith) refl refl
      (omega arith, (tt, (omega arith, tt)))

abbrev files : Map Bytes ℤ
files = (codes "a", pos 12) ∷ (codes "b/c", negsuc 0) ∷ []

abbrev places : Map Bytes (List Bytes)
places = (codes "a", codes "d1" ∷ codes "d2" ∷ []) ∷ []

receive-state_snap_example :
    (m : Message) × (deliver (state_snap_format files places 3) 7 ≡ returns m)
    × (receive m waiting ≡ (
      observe 3 (record waiting { version_map = files; rep_map = with_nodes_of places files }),
      renews,
    ))
unfolding find digits show_int snap_text join_commas
receive-state_snap_example =
    let name : IsName (codes "d1") = ((refl, (refl, tt)), (refl, (refl, tt))) in
    receive-state_snap files places 3 7 waiting (ground arith)
      (
        (refl, tt),
        omega arith,
        (name, (((refl, (refl, tt)), (refl, (refl, tt))), tt)),
        (refl, tt),
        omega arith,
        ((refl, (refl, (refl, tt))), omega arith, tt, tt, omega arith, tt),
      )
      (omega arith) (omega arith) (omega arith) (omega arith)

abbrev server : Bytes → ServerEntry
server name = record { name = name; ip = codes "10.0.0.1"; port = pos 9000 }

abbrev config : ClusterConfig
config = record (standalone (codes "10.0.0.1") (pos 9000) (codes "s1")) {
  servers = server (codes "s1") ∷ server (codes "s2") ∷ [];
}

-- The first server answers a probe, sends a heartbeat, and then nothing any more.
abbrev up : Probe
up s k = true

abbrev down : Probe
down s k = false

abbrev falls_silent : ServerEntry → Session
falls_silent s = some (0, (100, frame (heartbeat_of 9)) ∷ (1700, quiet) ∷ [])

watch_round_promotes_example :
    let after = watch_round up down 1500 falls_silent down config (codes "s2") waiting in
    PromotesAtOnce up down config (codes "s2") waiting after
    ⊎ PromotesLater up down 1500 falls_silent down config (codes "s2") waiting after
unfolding watch_round decide follow_target all_higher_priority_down higher_priority_than
    servers_before all_down reachable after_loop receive_loop receive get_uint32 find_field
    find_field_in promote
watch_round_promotes_example =
    watch_round_promotes up down 1500 falls_silent down config (codes "s2") waiting refl refl
