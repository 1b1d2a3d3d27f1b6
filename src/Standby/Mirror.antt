-- ===== src/Standby/Mirror.antt =====
-- server/src/standby_replica_manager.cpp: the deltas on their way from the operations of the primary
-- to a server that stands by and has a session that is alive.
pub mod Effects
pub mod Versions
mod Examples
use squid_storage.Prelude.{ℕ, Bool, List, [], ◌∷◌}
use squid_storage.Prelude.Key.{Bytes}
use squid_storage.Prelude.Int.{ℤ}
use squid_storage.Protocol.Frame.{Fallible, returns, Message}
use squid_storage.Protocol.Format.{state_delta_format}
use squid_storage.Protocol.Format.Deliver.{deliver}
use squid_storage.Server.State.{
  Effect, push_create, push_update, push_delete, release_notice, undo_create, delta, Net, State,
}
use squid_storage.Server.Replication.{
  propagate_create_file, propagate_update_file, propagate_delete_file,
}
use squid_storage.Standby.Watcher.{Watcher, receive}

-- A frame that cannot be built is not sent.
abbrev pub receive_sent : Fallible Message → Watcher → Watcher
receive_sent (returns m) w = (receive m w).0
receive_sent _ w = w

-- What the session sends for one effect, under the epoch `e` and with the sequence number `seq`.
unfoldable pub follow_effect : ℕ → ℕ → Effect → Watcher → Watcher
follow_effect e seq (delta op path v names) w =
    receive_sent (deliver (state_delta_format op path v names e) seq) w
follow_effect e seq _ w = w

unfoldable pub follow_effects : ℕ → ℕ → List Effect → Watcher → Watcher
follow_effects e seq [] w = w
follow_effects e seq (x ∷ xs) w = follow_effects e seq xs (follow_effect e seq x w)

-- The three writes that clients ask for.
pub data Write : Type 0 where
  creates : Net → ℕ → Bytes → ℤ → Bytes → Bytes → Write
  updates : Net → Bytes → ℤ → Bytes → Bytes → Write
  deletes : Net → Bool → Bytes → Bytes → Write

abbrev pub perform : Write → State → State × List Effect
perform (creates net now path v origin file_data) st =
    let done = propagate_create_file net now path v origin file_data st in (done.0, done.1)
perform (updates net path seen origin file_data) st =
    let done = propagate_update_file net path seen origin file_data st in (done.0, done.1)
perform (deletes net on_disk path origin) st = propagate_delete_file net on_disk path origin st

-- A history of writes at the primary, and the server that stands by following each.
unfoldable pub perform_all : ℕ → ℕ → List Write → State × Watcher → State × Watcher
perform_all e seq [] both = both
perform_all e seq (x ∷ xs) (st, w) =
    let (next, effects) = perform x st in
    perform_all e seq xs (next, follow_effects e seq effects w)
