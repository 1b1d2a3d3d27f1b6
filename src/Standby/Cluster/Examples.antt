-- ===== src/Standby/Cluster/Examples.antt =====
-- A cluster of three servers, of which the first is down.
use squid_storage.Prelude.{◌≡◌, not, none, some, [], ◌∷◌}
use squid_storage.Prelude.Key.{Bytes, codes, bytes_eq}
use squid_storage.Prelude.Int.{pos}
use squid_storage.Standby.Cluster.{
  ServerEntry, ClusterConfig, higher_priority_than, follow, promote_self, decide, standalone,
}
use squid_storage.Standby.Cluster.Election.{first_up, steady, decide-steady}

abbrev server : Bytes → ServerEntry
server name = record { name = name; ip = codes "10.0.0.1"; port = pos 9000 }

abbrev config : ClusterConfig
config = record (standalone (codes "10.0.0.1") (pos 9000) (codes "s1")) {
  servers = server (codes "s1") ∷ server (codes "s2") ∷ server (codes "s3") ∷ [];
}

decide-steady_example :
    let up = λ (s : ServerEntry). not (bytes_eq s.name (codes "s1")) in
    decide (steady up) (steady up) config (codes "s3")
    ≡ elim (first_up up (higher_priority_than (codes "s3") config)) [
      | none ↦ promote_self
      | some s ↦ follow s
    ]
decide-steady_example = decide-steady (λ s. not (bytes_eq s.name (codes "s1"))) config (codes "s3")
