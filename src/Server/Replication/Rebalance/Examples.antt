-- ===== src/Server/Replication/Rebalance/Examples.antt =====
-- One of three data nodes is silent, and the file that it held is copied to the third.
use squid_storage.Prelude.{◌≡◌, refl, true, ◌==◌, if◌then◌else◌, none, some, [], ◌∷◌}
use squid_storage.Prelude.Key.{Bytes, codes, bytes_key}
use squid_storage.Prelude.Int.{pos}
use squid_storage.Prelude.Map.{find}
use squid_storage.Protocol.Message.{
  make_nack, make_ack, is_ack, is_response, get_bool, find_field, find_field_in,
}
use squid_storage.Server.State.{Net, State}
use squid_storage.Server.Replication.{holders_of}
use squid_storage.Server.Replication.Rebalance.{send_heartbeats}
use squid_storage.Server.Replication.Rebalance.Holdless.{IsGone}
use squid_storage.Server.Replication.Rebalance.Silent.{send_heartbeats-IsGone}

abbrev net : Net
net = record {
  is_alive = λ s. true;
  answer = λ s c. if s == 2 then make_nack else make_ack;
  bytes_read = λ s p. [];
}

abbrev start : State
start = record {
  replication_factor = 2;
  data_nodes = (codes "d1", some 1) ∷ (codes "d2", some 2) ∷ (codes "d3", some 3) ∷ [];
  clients = [];
  locks = [];
  holders = (codes "a", (codes "d1", some 1) ∷ (codes "d2", some 2) ∷ []) ∷ [];
  versions = (codes "a", pos 3) ∷ [];
  version_file = codes "a 3";
  holder_file = [];
  has_standby = true;
}

send_heartbeats-IsGone_example :
    IsGone (codes "d2") (send_heartbeats net start)
    × ((p : Bytes) → find (codes "d2") (holders_of p (send_heartbeats net start)) ≡ none)
unfolding find is_ack is_response get_bool find_field find_field_in make_nack
send_heartbeats-IsGone_example = send_heartbeats-IsGone net (codes "d2") 2 start refl refl
