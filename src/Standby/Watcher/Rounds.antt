-- ===== src/Standby/Watcher/Rounds.antt =====
-- server/src/replica_watcher.cpp, watchLoop: one round of the loop. The server looks for one to follow,
-- follows it until the receive loop ends, and promotes itself at one of two places.
use squid_storage.Prelude.{
  ℕ, ◌+◌, ◌<◌, ◌≡◌, refl, ◌∙◌, sym, ap, Bool, true, false, if◌then◌else◌, ltb, Option, none, some,
  List, [], ◌∷◌, arith, ◌⊎◌, inl, inr, Bool-cases,
}
use squid_storage.Prelude.Lists.{All}
use squid_storage.Prelude.Key.{Bytes}
use squid_storage.Prelude.Int.{ℤ}
use squid_storage.Protocol.Opcode.{Opcode, state_snap, state_delta, leader_hb, close, epoch}
use squid_storage.Protocol.Frame.{Message}
use squid_storage.Protocol.Message.{get_uint32}
use squid_storage.Standby.Cluster.{
  ServerEntry, ClusterConfig, Probe, rounds, higher_priority_than, all_higher_priority_down,
  Decision, follow, promote_self, wait, decide,
}
use squid_storage.Standby.Cluster.Election.{decide_promotes, all_down_silent}
use squid_storage.Standby.Watcher.{
  standby, active, Watcher, receive, handle_opcode, Outcome, goes_on, renews, ends, proceed, Poll,
  no_socket, failed, quiet, broken, frame, new_deadline, receive_loop, promote, apply_snap,
  apply_delta, change_maps,
}

-- What comes of `tryConnect` to the followed server and of the handshake: nothing, or the time at
-- which the receive loop begins and the rounds that it has.
abbrev pub Session : Type 0
Session = Option (ℕ × List (ℕ × Poll))

-- After `receiveLoop`: if it says that the time has run out, the servers above are probed once more.
unfoldable pub after_loop : Probe → ClusterConfig → Bytes → Watcher × Option Bool → Watcher
after_loop again c me (w, some true) = if all_higher_priority_down again c me then promote w else w
after_loop again c me (w, _) = w

abbrev pub follow_until : ℕ → Session → Watcher → Watcher × Option Bool
follow_until timeout none w = (w, some false)
follow_until timeout (some (begin, ps)) w = receive_loop timeout (begin + timeout) ps w

abbrev pub act_on :
    Decision → ℕ → (ServerEntry → Session) → Probe → ClusterConfig → Bytes → Watcher → Watcher
act_on (follow s) timeout session again c me w =
    after_loop again c me (follow_until timeout (session s) w)
act_on promote_self timeout session again c me w = promote w
act_on wait timeout session again c me w = w

-- A server that leads does nothing.
unfoldable pub watch_round :
    Probe → Probe → ℕ → (ServerEntry → Session) → Probe → ClusterConfig → Bytes → Watcher → Watcher
watch_round probe later timeout session again c me w = elim w.role [
  | active ↦ w
  | standby ↦ act_on (decide probe later c me) timeout session again c me w
]

-- Frames do not change the role.
change_maps_role :
    (op : ℕ) (p : Bytes) (v : ℤ) (names : List Bytes) (w : Watcher)
    → (change_maps op p v names w).role ≡ w.role
unfolding change_maps
change_maps_role op p v names w = ground arith

handle_opcode_role :
    (op : Opcode) (m : Message) (w : Watcher) → (handle_opcode op m w).0.role ≡ w.role
unfolding apply_snap apply_delta
handle_opcode_role state_snap m w = refl
handle_opcode_role state_delta m w = change_maps_role _ _ _ _ _
handle_opcode_role leader_hb m w = refl
handle_opcode_role close m w = refl
handle_opcode_role _ m w = refl

receive_role : (m : Message) (w : Watcher) → (receive m w).0.role ≡ w.role
unfolding receive
receive_role m w = elim (Bool-cases (ltb (get_uint32 m epoch 0) w.observed_epoch)) [
  | inl stale ↦ rw stale refl
  | inr fresh ↦ rw fresh (handle_opcode_role m.opcode m w)
]

proceed_role :
    (outcome : Outcome) (next w : Watcher) (more : Watcher × Option Bool)
    → next.role ≡ w.role
    → more.0.role ≡ w.role
    → (proceed outcome next more).0.role ≡ w.role
proceed_role goes_on next w more h k = k
proceed_role renews next w more h k = k
proceed_role ends next w more h k = h

receive_loop_role :
    (timeout deadline : ℕ) (ps : List (ℕ × Poll)) (w : Watcher)
    → (receive_loop timeout deadline ps w).0.role ≡ w.role
unfolding receive_loop
receive_loop_role timeout deadline [] w = refl
receive_loop_role timeout deadline ((now, no_socket) ∷ ps) w = refl
receive_loop_role timeout deadline ((now, failed) ∷ ps) w = refl
receive_loop_role timeout deadline ((now, quiet) ∷ ps) w = elim (Bool-cases (ltb deadline now)) [
  | inl late ↦ rw late refl
  | inr timely ↦ rw timely (receive_loop_role timeout deadline ps w)
]
receive_loop_role timeout deadline ((now, broken) ∷ ps) w = elim (Bool-cases (ltb deadline now)) [
  | inl late ↦ rw late refl
  | inr timely ↦ rw timely refl
]
receive_loop_role timeout deadline ((now, frame m) ∷ ps) w = elim (Bool-cases (ltb deadline now)) [
  | inl late ↦ rw late refl
  | inr timely ↦
      let (next, outcome) = receive m w in
      rw timely (
        proceed_role outcome next w _ (receive_role m w) (
          receive_loop_role timeout (new_deadline outcome now timeout deadline) ps next
          ∙ receive_role m w))
]

follow_until_role :
    (timeout : ℕ) (session : Session) (w : Watcher)
    → (follow_until timeout session w).0.role ≡ w.role
follow_until_role timeout none w = refl
follow_until_role timeout (some (begin, ps)) w = receive_loop_role timeout (begin + timeout) ps w

-- Every server above this one leaves each of the configured number of probes unanswered.
abbrev pub Silent : Probe → ClusterConfig → Bytes → Type 0
Silent probe c me =
    All (λ s. (k : ℕ) → k < rounds c.promotion_probe_attempts → probe s k ≡ false)
      (higher_priority_than me c)

-- The two ways to promote oneself in a round.
abbrev pub PromotesAtOnce : Probe → Probe → ClusterConfig → Bytes → Watcher → Watcher → Type 0
PromotesAtOnce probe later c me w after =
    All (λ s. probe s 0 ≡ false) (higher_priority_than me c)
    × Silent later c me
    × (after ≡ promote w)

abbrev pub PromotesLater :
    Probe
    → Probe
    → ℕ
    → (ServerEntry → Session)
    → Probe
    → ClusterConfig
    → Bytes
    → Watcher
    → Watcher
    → Type 0
PromotesLater probe later timeout session again c me w after =
    (s : ServerEntry) × (decide probe later c me ≡ follow s)
    × ((follow_until timeout (session s) w).1 ≡ some true)
    × Silent again c me
    × (after ≡ promote (follow_until timeout (session s) w).0)

all_higher_priority_down-Silent :
    (again : Probe) (c : ClusterConfig) (me : Bytes)
    → all_higher_priority_down again c me ≡ true
    → Silent again c me
unfolding all_higher_priority_down
all_higher_priority_down-Silent again c me h =
    all_down_silent again (rounds c.promotion_probe_attempts) (higher_priority_than me c) h

after_loop_promotes :
    (again : Probe) (c : ClusterConfig) (me : Bytes) (r : Watcher × Option Bool)
    → r.0.role ≡ standby
    → (after_loop again c me r).role ≡ active
    → (r.1 ≡ some true) × Silent again c me × (after_loop again c me r ≡ promote r.0)
unfolding after_loop
after_loop_promotes again c me (w, none) h k = cc
after_loop_promotes again c me (w, some false) h k = cc
after_loop_promotes again c me (w, some true) h k =
    elim (Bool-cases (all_higher_priority_down again c me)) [
      | inl down ↦ (refl, all_higher_priority_down-Silent again c me down, rw down)
      | inr up ↦ cc (h, rw up at k)
    ]

act_on_promotes :
    (d : Decision) (probe later : Probe) (timeout : ℕ) (session : ServerEntry → Session)
    (again : Probe) (c : ClusterConfig) (me : Bytes) (w : Watcher)
    → decide probe later c me ≡ d
    → w.role ≡ standby
    → (act_on d timeout session again c me w).role ≡ active
    → let after = act_on d timeout session again c me w in
      PromotesAtOnce probe later c me w after
      ⊎ PromotesLater probe later timeout session again c me w after
act_on_promotes (follow s) probe later timeout session again c me w e h k =
    let r = follow_until timeout (session s) w in
    let (ended, silent, promoted) =
      after_loop_promotes again c me r (follow_until_role timeout (session s) w ∙ h) k in
    inr (s, e, ended, silent, promoted)
act_on_promotes promote_self probe later timeout session again c me w e h k =
    let (first, silent) = decide_promotes probe later c me e in inl (first, silent, refl)
act_on_promotes wait probe later timeout session again c me w e h k = cc

-- A server that stands by leads after a round of the loop only in two cases. Either every server
-- above it left the first probe and each of the configured number of later probes unanswered; or it
-- followed a server above it, the receive loop with that server ended in a timeout or an error, and
-- afterwards every server above it left each of the configured number of probes unanswered. It then
-- has the epoch after the one that it last saw.
pub watch_round_promotes :
    (probe later : Probe) (timeout : ℕ) (session : ServerEntry → Session) (again : Probe)
    (c : ClusterConfig) (me : Bytes) (w : Watcher)
    → w.role ≡ standby
    → (watch_round probe later timeout session again c me w).role ≡ active
    → let after = watch_round probe later timeout session again c me w in
      PromotesAtOnce probe later c me w after
      ⊎ PromotesLater probe later timeout session again c me w after
unfolding watch_round
watch_round_promotes probe later timeout session again c me w h k =
    let e : watch_round probe later timeout session again c me w
        ≡ act_on (decide probe later c me) timeout session again c me w =
      rw h refl in
    rw e (
      act_on_promotes (decide probe later c me) probe later timeout session again c me w refl h
        (sym (ap (λ u. u.role) e) ∙ k))
