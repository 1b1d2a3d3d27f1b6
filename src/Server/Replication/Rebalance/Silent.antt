-- ===== src/Server/Replication/Rebalance/Silent.antt =====
-- A data node that is silent is forgotten.
use squid_storage.Prelude.{
  ℕ, ◌≡◌, refl, ◌∙◌, ap, false, none, some, List, [], ◌∷◌, Bool-cases, inl, inr, ◌⊎◌,
}
use squid_storage.Prelude.Key.{Bytes, bytes_key, bytes_eq, bytes_eq_iff}
use squid_storage.Prelude.Map.{Map, find, erase}
use squid_storage.Prelude.Map.Laws.{find-erase_self}
use squid_storage.Protocol.Message.{is_ack}
use squid_storage.Server.State.{SessionPtr, Net, State, read_file, heartbeat}
use squid_storage.Server.Replication.{quorum, holders_of, persist_state}
use squid_storage.Server.Replication.Rebalance.{
  too_few, candidates, copy_file, rebalance, rebalance_all, forget_node, forget_nodes, dead_nodes,
  drop_nodes, send_heartbeats,
}
use squid_storage.Server.Replication.Rebalance.Holdless.{
  Holdless, IsGone, find_erased, erase_holder-Holdless, Holdless-erase_holder, Holdless-find,
  find-Lacks, candidates-Lacks, copy_to-Lacks, store_holders-Holdless, store_holders_nodes,
  too_few_own, too_few-Holdless,
}

copy_file-IsGone :
    (net : Net) (s : ℕ) (path : Bytes) (holders : Map Bytes SessionPtr) (name : Bytes) (st : State)
    → find name holders ≡ none
    → IsGone name st
    → IsGone name (copy_file net s path holders st)
unfolding copy_file persist_state
copy_file-IsGone net s path holders name st h g =
    let copies =
      copy_to-Lacks net _ st.replication_factor (candidates net holders st.data_nodes) holders name
        (candidates-Lacks net holders st.data_nodes name (find-Lacks name st.data_nodes g.no_node))
        h in
    record {
      no_node = ap (find name) (store_holders_nodes path _ st) ∙ g.no_node;
      no_holder = store_holders-Holdless path _ name st (find-Lacks name _ copies) g.no_holder;
    }

rebalance-IsGone :
    (net : Net) (path : Bytes) (holders : Map Bytes SessionPtr) (name : Bytes) (st : State)
    → find name holders ≡ none
    → IsGone name st
    → IsGone name (rebalance net path holders st)
unfolding rebalance
rebalance-IsGone net path [] name st h g = g
rebalance-IsGone net path ((n, none) ∷ m) name st h g = g
rebalance-IsGone net path ((n, some s) ∷ m) name st h g =
    elim (Bool-cases (is_ack (net.answer s (read_file path)))) [
      | inl acks ↦ rw acks (copy_file-IsGone net s path ((n, some s) ∷ m) name st h g)
      | inr nack ↦ rw nack g
    ]

rebalance_all-IsGone :
    (net : Net) (targets : List (Bytes × Map Bytes SessionPtr)) (name : Bytes) (st : State)
    → Holdless name targets
    → IsGone name st
    → IsGone name (rebalance_all net targets st)
unfolding rebalance_all
rebalance_all-IsGone net [] name st h g = g
rebalance_all-IsGone net ((path, holders) ∷ targets) name st h g =
    rebalance_all-IsGone net targets name (rebalance net path holders st) h.1
      (rebalance-IsGone net path holders name st h.0 g)

forget_node_own :
    (net : Net) (name : Bytes) (st : State)
    → find name st.data_nodes ≡ none
    → IsGone name (forget_node net name st)
unfolding forget_node persist_state
forget_node_own net name st h =
    rebalance_all-IsGone net (too_few (quorum st) name st.holders) name _
      (too_few_own (quorum st) name st.holders)
      (record { no_node = h; no_holder = erase_holder-Holdless name st.holders })

forget_node-IsGone :
    (net : Net) (n name : Bytes) (st : State) → IsGone n st → IsGone n (forget_node net name st)
unfolding forget_node persist_state
forget_node-IsGone net n name st g =
    rebalance_all-IsGone net (too_few (quorum st) name st.holders) n _
      (too_few-Holdless (quorum st) n name st.holders g.no_holder)
      (record {
        no_node = g.no_node;
        no_holder = Holdless-erase_holder n name st.holders g.no_holder;
      })

forget_nodes-IsGone :
    (net : Net) (n : Bytes) (names : List Bytes) (st : State)
    → IsGone n st
    → IsGone n (forget_nodes net names st)
unfolding forget_nodes
forget_nodes-IsGone net n [] st g = g
forget_nodes-IsGone net n (name ∷ names) st g =
    forget_nodes-IsGone net n names (forget_node net name st) (forget_node-IsGone net n name st g)

-- Nothing of this changes which data nodes are connected.
rebalance_nodes :
    (net : Net) (path : Bytes) (holders : Map Bytes SessionPtr) (st : State)
    → (rebalance net path holders st).data_nodes ≡ st.data_nodes
unfolding rebalance copy_file persist_state
rebalance_nodes net path [] st = refl
rebalance_nodes net path ((n, none) ∷ m) st = refl
rebalance_nodes net path ((n, some s) ∷ m) st =
    elim (Bool-cases (is_ack (net.answer s (read_file path)))) [
      | inl acks ↦ rw acks (store_holders_nodes path _ st)
      | inr nack ↦ rw nack refl
    ]

rebalance_all_nodes :
    (net : Net) (targets : List (Bytes × Map Bytes SessionPtr)) (st : State)
    → (rebalance_all net targets st).data_nodes ≡ st.data_nodes
unfolding rebalance_all
rebalance_all_nodes net [] st = refl
rebalance_all_nodes net ((path, holders) ∷ targets) st =
    rebalance_all_nodes net targets (rebalance net path holders st)
    ∙ rebalance_nodes net path holders st

forget_node_nodes :
    (net : Net) (name : Bytes) (st : State) → (forget_node net name st).data_nodes ≡ st.data_nodes
unfolding forget_node persist_state
forget_node_nodes net name st = rebalance_all_nodes net (too_few (quorum st) name st.holders) _

abbrev Among : Bytes → List Bytes → Type 0
Among name [] = ⊥
Among name (n ∷ ns) = (n ≡ name) ⊎ Among name ns

forget_nodes_own :
    (net : Net) (n : Bytes) (names : List Bytes) (st : State)
    → Among n names
    → find n st.data_nodes ≡ none
    → IsGone n (forget_nodes net names st)
unfolding forget_nodes
forget_nodes_own net n [] st l h = absurd l
forget_nodes_own net n (name ∷ names) st (inl e) h =
    forget_nodes-IsGone net n names (forget_node net name st) (rw e (forget_node_own net n st h))
forget_nodes_own net n (name ∷ names) st (inr l) h =
    forget_nodes_own net n names (forget_node net name st) l
      (ap (find n) (forget_node_nodes net name st) ∙ h)

drop_nodes_still :
    (names : List Bytes) (n : Bytes) (m : Map Bytes SessionPtr)
    → find n m ≡ none
    → find n (drop_nodes names m) ≡ none
unfolding drop_nodes
drop_nodes_still [] n m h = h
drop_nodes_still (name ∷ names) n m h =
    drop_nodes_still names n (erase name m) (find_erased n name m h)

drop_nodes_own :
    (names : List Bytes) (n : Bytes) (m : Map Bytes SessionPtr)
    → Among n names
    → find n (drop_nodes names m) ≡ none
unfolding drop_nodes
drop_nodes_own [] n m l = absurd l
drop_nodes_own (name ∷ names) n m (inl e) =
    drop_nodes_still names n (erase name m) (rw e (find-erase_self n m))
drop_nodes_own (name ∷ names) n m (inr l) = drop_nodes_own names n (erase name m) l

same_session : {a b : ℕ} → some (some a) ≡ some (some b) → a ≡ b
same_session h = cc

dead_nodes-Among :
    (net : Net) (n : Bytes) (s : ℕ) (m : Map Bytes SessionPtr)
    → find n m ≡ some (some s)
    → is_ack (net.answer s heartbeat) ≡ false
    → Among n (dead_nodes net m)
unfolding dead_nodes find
dead_nodes-Among net n s [] h silent = cc
dead_nodes-Among net n s ((name, none) ∷ m) h silent = elim (Bool-cases (bytes_eq name n)) [
  | inl same ↦ cc (rw same at h)
  | inr other ↦ dead_nodes-Among net n s m (rw other at h) silent
]
dead_nodes-Among net n s ((name, some t) ∷ m) h silent = elim (Bool-cases (bytes_eq name n)) [
  | inl same ↦ rw (same_session (rw same at h), silent) (inl ((bytes_eq_iff name n).0 same))
  | inr other ↦
      let rest = dead_nodes-Among net n s m (rw other at h) silent in
      elim (Bool-cases (is_ack (net.answer t heartbeat))) [
        | inl acks ↦ rw acks rest
        | inr nack ↦ rw nack (inr rest)
      ]
]

-- A connected data node that does not acknowledge a heartbeat is forgotten: afterwards it is neither
-- connected nor a holder of any file, also where files were copied to other data nodes meanwhile.
pub send_heartbeats-IsGone :
    (net : Net) (name : Bytes) (s : ℕ) (st : State)
    → find name st.data_nodes ≡ some (some s)
    → is_ack (net.answer s heartbeat) ≡ false
    → IsGone name (send_heartbeats net st)
      × ((p : Bytes) → find name (holders_of p (send_heartbeats net st)) ≡ none)
unfolding send_heartbeats
send_heartbeats-IsGone net name s st h silent =
    let dead = dead_nodes-Among net name s st.data_nodes h silent in
    let gone =
      forget_nodes_own net name (dead_nodes net st.data_nodes) _ dead
        (drop_nodes_own (dead_nodes net st.data_nodes) name st.data_nodes dead) in
    (gone, λ p. Holdless-find name p (send_heartbeats net st).holders gone.no_holder)
