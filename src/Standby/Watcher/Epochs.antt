-- ===== src/Standby/Watcher/Epochs.antt =====
-- Epochs: no frame of an old leader has an effect.
use squid_storage.Prelude.{
  ℕ, ◌+◌, ◌^◌, ◌≤◌, ◌<◌, ◌≡◌, refl, ltb, List, [], ◌∷◌, arith, Bool-cases, inl, inr, lt→ltb,
}
use squid_storage.Prelude.Lists.{All}
use squid_storage.Protocol.Opcode.{Opcode, close, state_snap, state_delta, leader_hb, epoch}
use squid_storage.Protocol.Frame.{Message}
use squid_storage.Protocol.Message.{get_uint32}
use squid_storage.Standby.Watcher.{
  Watcher, observe, apply_snap, change_maps, apply_delta, handle_opcode, goes_on, receive, Poll,
  no_socket, failed, quiet, broken, frame, receive_loop, new_deadline, promote,
}

observe_up : (e : ℕ) (w : Watcher) → w.observed_epoch ≤ (observe e w).observed_epoch
observe_up e w = ground arith

change_maps_keeps :
    (op : ℕ) (path : _) (v : _) (names : _) (w : Watcher)
    → (change_maps op path v names w).observed_epoch ≡ w.observed_epoch
unfolding change_maps
change_maps_keeps op path v names w = ground arith

handle_opcode_up :
    (op : Opcode) (m : Message) (w : Watcher)
    → w.observed_epoch ≤ (handle_opcode op m w).0.observed_epoch
unfolding apply_snap apply_delta
handle_opcode_up state_snap m w = observe_up (get_uint32 m epoch 0) w
handle_opcode_up state_delta m w =
    rw (change_maps_keeps _ _ _ _ (observe (get_uint32 m epoch 0) w))
      (observe_up (get_uint32 m epoch 0) w)
handle_opcode_up leader_hb m w = observe_up (get_uint32 m epoch 0) w
handle_opcode_up close m w = omega arith
handle_opcode_up _ m w = omega arith

pub receive_up : (m : Message) (w : Watcher) → w.observed_epoch ≤ (receive m w).0.observed_epoch
unfolding receive
receive_up m w = elim (Bool-cases (ltb (get_uint32 m epoch 0) w.observed_epoch)) [
  | inl stale ↦ rw stale (omega arith)
  | inr fresh ↦ rw fresh (handle_opcode_up m.opcode m w)
]

-- Every frame among the rounds has an epoch below the bound.
abbrev pub Below : ℕ → ℕ × Poll → Type 0
Below e (now, frame m) = get_uint32 m epoch 0 < e
Below e (now, _) = Unit

pub receive_stale :
    (m : Message) (w : Watcher)
    → get_uint32 m epoch 0 < w.observed_epoch
    → receive m w ≡ (w, goes_on)
unfolding receive
receive_stale m w h = rw (lt→ltb (get_uint32 m epoch 0) w.observed_epoch h)

receive_loop_stale :
    (timeout deadline : ℕ) (ps : List (ℕ × Poll)) (w : Watcher)
    → All (Below w.observed_epoch) ps
    → (receive_loop timeout deadline ps w).0 ≡ w
unfolding receive_loop
receive_loop_stale timeout deadline [] w h = refl
receive_loop_stale timeout deadline ((now, no_socket) ∷ ps) w h = refl
receive_loop_stale timeout deadline ((now, failed) ∷ ps) w h = refl
receive_loop_stale timeout deadline ((now, quiet) ∷ ps) w h =
    ground (arith, receive_loop_stale timeout deadline ps w h.1)
receive_loop_stale timeout deadline ((now, broken) ∷ ps) w h = ground arith
receive_loop_stale timeout deadline ((now, frame m) ∷ ps) w h =
    elim (Bool-cases (ltb deadline now)) [
      | inl late ↦ rw late refl
      | inr timely ↦
          rw (timely, receive_stale m w h.0) (receive_loop_stale timeout deadline ps w h.1)
    ]

-- Who reads a heartbeat has its epoch or a higher one.
receive_heartbeat :
    (m : Message) (w : Watcher)
    → m.opcode ≡ leader_hb
    → get_uint32 m epoch 0 ≤ (receive m w).0.observed_epoch
unfolding receive
receive_heartbeat m w h = rw h (ground arith)

-- A server that promotes itself has an epoch above every one that it saw, and has it on disk.
pub promote_up :
    (w : Watcher)
    → w.observed_epoch + 1 < 2 ^ 32
    → ((promote w).observed_epoch ≡ w.observed_epoch + 1)
      × ((promote w).stored_epoch ≡ (promote w).observed_epoch)
unfolding promote
promote_up w h = (omega (arith, h), refl)

All-Below : (e f : ℕ) (ps : List (ℕ × Poll)) → e ≤ f → All (Below e) ps → All (Below f) ps
All-Below e f [] h b = tt
All-Below e f ((now, no_socket) ∷ ps) h b = (tt, All-Below e f ps h b.1)
All-Below e f ((now, failed) ∷ ps) h b = (tt, All-Below e f ps h b.1)
All-Below e f ((now, quiet) ∷ ps) h b = (tt, All-Below e f ps h b.1)
All-Below e f ((now, broken) ∷ ps) h b = (tt, All-Below e f ps h b.1)
All-Below e f ((now, frame m) ∷ ps) h b = (omega (arith, b.0), All-Below e f ps h b.1)

-- Once a server has promoted itself and another that stands by has read its heartbeat, nothing that
-- an old leader sends, at an epoch that the promoted server had seen, changes the other's state,
-- however the rounds of the receive loop go.
pub promote_fences :
    (w v : Watcher) (heartbeat : Message) (timeout deadline : ℕ) (ps : List (ℕ × Poll))
    → w.observed_epoch + 1 < 2 ^ 32
    → heartbeat.opcode ≡ leader_hb
    → get_uint32 heartbeat epoch 0 ≡ (promote w).observed_epoch
    → All (Below (w.observed_epoch + 1)) ps
    → let heard = (receive heartbeat v).0 in (receive_loop timeout deadline ps heard).0 ≡ heard
promote_fences w v heartbeat timeout deadline ps small is_hb sent old =
    let heard = (receive heartbeat v).0 in
    receive_loop_stale timeout deadline ps heard (
      All-Below (w.observed_epoch + 1) heard.observed_epoch ps
        (omega (arith, receive_heartbeat heartbeat v is_hb, sent, (promote_up w small).0)) old)

-- Whatever a server that stands by receives, the epoch that it has seen never goes down.
receive_loop_up :
    (timeout deadline : ℕ) (ps : List (ℕ × Poll)) (w : Watcher)
    → w.observed_epoch ≤ (receive_loop timeout deadline ps w).0.observed_epoch
unfolding receive_loop
receive_loop_up timeout deadline [] w = omega arith
receive_loop_up timeout deadline ((now, no_socket) ∷ ps) w = omega arith
receive_loop_up timeout deadline ((now, failed) ∷ ps) w = omega arith
receive_loop_up timeout deadline ((now, quiet) ∷ ps) w =
    ground (arith, receive_loop_up timeout deadline ps w)
receive_loop_up timeout deadline ((now, broken) ∷ ps) w = ground arith
receive_loop_up timeout deadline ((now, frame m) ∷ ps) w = ground (
  arith,
  receive_up m w,
  receive_loop_up timeout (new_deadline (receive m w).1 now timeout deadline) ps (receive m w).0,
)
