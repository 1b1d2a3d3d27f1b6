-- ===== src/Server/Replication/Calls.antt =====
-- Which data nodes a loop of calls keeps, and who holds a file after they are registered.
use squid_storage.Prelude.{
  ℕ, ◌≤◌, ◌≡◌, refl, ◌∙◌, false, ◌&&◌, if◌then◌else◌, Option, none, some, List, [], ◌∷◌, arith,
}
use squid_storage.Prelude.Lists.{length}
use squid_storage.Prelude.Key.{Bytes, bytes_key, bytes_eq, bytes_eq_iff}
use squid_storage.Prelude.Map.{Map, find, assign, After}
use squid_storage.Prelude.Map.Laws.{IsOrdered, find-assign, find_before}
use squid_storage.Protocol.Message.{is_ack}
use squid_storage.Server.State.{SessionPtr, Call, Net, State}
use squid_storage.Server.Replication.{acked_by, asked, holders_of, hold, hold_all}

-- The session of a data node that is connected, is alive and acknowledges the call.
abbrev pub acks_at : Net → Call → Option SessionPtr → Option ℕ
acks_at net c (some (some s)) = if net.is_alive s && is_ack (net.answer s c) then some s else none
acks_at net c _ = none

acked_by-After :
    (net : Net) (c : Call) (k : Bytes) (nodes : Map Bytes SessionPtr)
    → After k nodes
    → After k (acked_by net c nodes)
unfolding acked_by
acked_by-After net c k [] a = tt
acked_by-After net c k ((name, none) ∷ nodes) a = acked_by-After net c k nodes a.1
acked_by-After net c k ((name, some s) ∷ nodes) a = ground (arith, acked_by-After net c k nodes a.1)

pub acked_by-IsOrdered :
    (net : Net) (c : Call) (nodes : Map Bytes SessionPtr)
    → IsOrdered nodes
    → IsOrdered (acked_by net c nodes)
unfolding acked_by
acked_by-IsOrdered net c [] o = tt
acked_by-IsOrdered net c ((name, none) ∷ nodes) o = acked_by-IsOrdered net c nodes o.1
acked_by-IsOrdered net c ((name, some s) ∷ nodes) o =
    ground (arith, acked_by-IsOrdered net c nodes o.1, acked_by-After net c name nodes o.0)

-- The loop keeps exactly the data nodes that acknowledge.
pub find-acked_by :
    (net : Net) (c : Call) (name : Bytes) (nodes : Map Bytes SessionPtr)
    → IsOrdered nodes
    → find name (acked_by net c nodes) ≡ acks_at net c (find name nodes)
unfolding acked_by find
find-acked_by net c name [] o = refl
find-acked_by net c name ((n, none) ∷ nodes) o =
    ground (arith, find-acked_by net c name nodes o.1, find_before n nodes o.0, bytes_eq_iff n name)
find-acked_by net c name ((n, some s) ∷ nodes) o =
    ground (arith, find-acked_by net c name nodes o.1, find_before n nodes o.0, bytes_eq_iff n name)

-- No more data nodes acknowledge than are asked.
pub acked_by-le-asked :
    (net : Net) (c : Call) (nodes : Map Bytes SessionPtr)
    → length (acked_by net c nodes) ≤ asked net nodes
unfolding acked_by asked
acked_by-le-asked net c [] = omega arith
acked_by-le-asked net c ((n, none) ∷ nodes) = acked_by-le-asked net c nodes
acked_by-le-asked net c ((n, some s) ∷ nodes) = ground (arith, acked_by-le-asked net c nodes)

pub holders_of-hold :
    (p path name : Bytes) (s : SessionPtr) (st : State)
    → holders_of p (hold path name s st)
      ≡ (if bytes_eq path p then assign name s (holders_of path st) else holders_of p st)
holders_of-hold p path name s st =
    ground (arith, find-assign p path (assign name s (holders_of path st)) st.holders)

pub find-hold :
    (path name q : Bytes) (s : SessionPtr) (st : State)
    → find q (holders_of path (hold path name s st))
      ≡ (if bytes_eq name q then some s else find q (holders_of path st))
find-hold path name q s st = ground (
  arith,
  holders_of-hold path path name s st,
  bytes_eq_iff path path,
  find-assign q name s (holders_of path st),
)

pub holders_of-hold_away :
    (p path name : Bytes) (s : SessionPtr) (st : State)
    → bytes_eq path p ≡ false
    → holders_of p (hold path name s st) ≡ holders_of p st
holders_of-hold_away p path name s st away = holders_of-hold p path name s st ∙ rw away

-- The new session of a data node if it is in the list, and the old one otherwise.
abbrev pub updated : Option ℕ → Option SessionPtr → Option SessionPtr
updated (some s) old = some (some s)
updated none old = old

-- Registering changes the holders of the one file, and nothing else.
pub record Registers (path : Bytes) (nodes : List (Bytes × ℕ)) (s t : State) : Type 0 where
  pub held :
      (name : Bytes)
      → find name (holders_of path t) ≡ updated (find name nodes) (find name (holders_of path s))
  pub others : (p : Bytes) → bytes_eq path p ≡ false → holders_of p t ≡ holders_of p s
  pub same_versions : t.versions ≡ s.versions
  pub same_locks : t.locks ≡ s.locks

held_step :
    (path n name : Bytes) (s : ℕ) (nodes : List (Bytes × ℕ)) (st : State)
    → IsOrdered ((n, s) ∷ nodes)
    → updated (find name nodes) (find name (holders_of path (hold path n (some s) st)))
      ≡ updated (find name ((n, s) ∷ nodes)) (find name (holders_of path st))
unfolding find
held_step path n name s nodes st o =
    ground (arith, find-hold path n name (some s) st, bytes_eq_iff n name, find_before n nodes o.0)

pub hold_all-Registers :
    (path : Bytes) (nodes : List (Bytes × ℕ)) (st : State)
    → IsOrdered nodes
    → Registers path nodes st (hold_all path nodes st)
unfolding hold_all
hold_all-Registers path [] st o = record {
  held = λ name. unfold find in refl;
  others = λ p away. refl;
  same_versions = refl;
  same_locks = refl;
}
hold_all-Registers path ((n, s) ∷ nodes) st o =
    let rest = hold_all-Registers path nodes (hold path n (some s) st) o.1 in
    record {
      held = λ name. rest.held name ∙ held_step path n name s nodes st o;
      others = λ p away. rest.others p away ∙ holders_of-hold_away p path n (some s) st away;
      same_versions = rest.same_versions;
      same_locks = rest.same_locks;
    }
