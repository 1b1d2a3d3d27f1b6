-- ===== src/Standby/Cluster.antt =====
-- common/src/config/ClusterConfig.hpp: the servers in the order of their priority; and the
-- decision of server/src/replica_watcher.cpp whom to follow. Which server answers a probe, by the
-- number of the attempt, is an argument.
pub mod Election
mod Examples
use squid_storage.Prelude.{
  ℕ, zero, suc, ◌≡◌, Bool, true, false, not, ◌&&◌, ◌||◌, if◌then◌else◌, Option, none, some, List,
  [], ◌∷◌,
}
use squid_storage.Prelude.Key.{Bytes, bytes_eq}
use squid_storage.Prelude.Int.{ℤ, pos, negsuc, ltz, succz}

pub record ServerEntry : Type 0 where
  pub name : Bytes
  pub ip : Bytes
  pub port : ℤ

pub record ClusterConfig : Type 0 where
  pub servers : List ServerEntry
  pub replication_factor : ℤ
  pub heartbeat_interval_ms : ℤ
  pub heartbeat_timeout_ms : ℤ
  pub reconnect_attempts : ℤ
  pub reconnect_delay_ms : ℤ
  pub promotion_probe_attempts : ℤ
  pub promotion_probe_delay_ms : ℤ

-- The loop of `priorityOf`, from the index `i` on.
unfoldable pub priority_from : ℕ → Bytes → List ServerEntry → ℤ
priority_from i name [] = negsuc 0
priority_from i name (s ∷ ss) =
    if bytes_eq s.name name then pos i else priority_from (suc i) name ss

unfoldable pub priority_of : Bytes → ClusterConfig → ℤ
priority_of name c = priority_from 0 name c.servers

unfoldable pub servers_before : Bytes → List ServerEntry → List ServerEntry
servers_before name [] = []
servers_before name (s ∷ ss) = if bytes_eq s.name name then [] else s ∷ servers_before name ss

unfoldable pub higher_priority_than : Bytes → ClusterConfig → List ServerEntry
higher_priority_than name c = servers_before name c.servers

unfoldable pub find_in : Bytes → List ServerEntry → Option ServerEntry
find_in name [] = none
find_in name (s ∷ ss) = if bytes_eq s.name name then some s else find_in name ss

unfoldable pub find_server : Bytes → ClusterConfig → Option ServerEntry
find_server name c = find_in name c.servers

abbrev first_is : Bytes → List ServerEntry → Bool
first_is name [] = false
first_is name (s ∷ ss) = bytes_eq s.name name

unfoldable pub is_primary : Bytes → ClusterConfig → Bool
is_primary name c = first_is name c.servers

-- `ClusterConfig::standalone`.
abbrev pub standalone : Bytes → ℤ → Bytes → ClusterConfig
standalone ip port name = record {
  servers = record { name = name; ip = ip; port = port } ∷ [];
  replication_factor = pos 2;
  heartbeat_interval_ms = pos 500;
  heartbeat_timeout_ms = pos 1500;
  reconnect_attempts = pos 3;
  reconnect_delay_ms = pos 500;
  promotion_probe_attempts = pos 3;
  promotion_probe_delay_ms = pos 200;
}

-- Whether a server answers the probe with that number.
abbrev pub Probe : Type 0
Probe = ServerEntry → ℕ → Bool

-- An `int` as the number of rounds of a loop that counts up to it.
abbrev pub rounds : ℤ → ℕ
rounds (pos n) = n
rounds (negsuc n) = 0

-- The body of one future of `allHigherPriorityDown`: is one of the attempts answered?
unfoldable pub reachable : Probe → ServerEntry → ℕ → ℕ → Bool
reachable probe s i zero = false
reachable probe s i (suc n) = if probe s i then true else reachable probe s (suc i) n

unfoldable pub all_down : Probe → ℕ → List ServerEntry → Bool
all_down probe attempts [] = true
all_down probe attempts (s ∷ ss) =
    if reachable probe s 0 attempts then false else all_down probe attempts ss

unfoldable pub all_higher_priority_down : Probe → ClusterConfig → Bytes → Bool
all_higher_priority_down probe c me =
    all_down probe (rounds c.promotion_probe_attempts) (higher_priority_than me c)

-- The first loop of `watchLoop`: the first server before this one that answers one attempt.
unfoldable pub follow_target : Probe → Bytes → List ServerEntry → Option ServerEntry
follow_target probe me [] = none
follow_target probe me (s ∷ ss) =
    if bytes_eq s.name me then none else if probe s 0 then some s else follow_target probe me ss

pub data Decision : Type 0 where
  follow : ServerEntry → Decision
  promote_self wait : Decision

-- One round of `watchLoop` of a server that stands by, up to the connection.
abbrev pub decision : Option ServerEntry → Bool → Decision
decision (some s) down = follow s
decision none down = if down then promote_self else wait

unfoldable pub decide : Probe → Probe → ClusterConfig → Bytes → Decision
decide probe later c me =
    decision (follow_target probe me c.servers) (all_higher_priority_down later c me)
