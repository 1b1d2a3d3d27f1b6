-- ===== src/Standby/Cluster/Election.antt =====
-- Who may lead.
use squid_storage.Prelude.{
  ℕ, zero, suc, ◌+◌, ◌≤◌, ◌<◌, ◌≡◌, refl, ◌∙◌, Bool, true, false, if◌then◌else◌, Option, none, some,
  List, [], ◌∷◌, arith, ◌⊎◌, inl, inr, Bool-cases, Option-cases, ap,
}
use squid_storage.Prelude.Lists.{length, All}
use squid_storage.Prelude.Key.{Bytes, bytes_eq}
use squid_storage.Prelude.Int.{pos, negsuc}
use squid_storage.Standby.Cluster.{
  ServerEntry, ClusterConfig, priority_from, priority_of, servers_before, higher_priority_than,
  find_in, find_server, Probe, rounds, reachable, all_down, all_higher_priority_down, follow_target,
  follow, promote_self, decide,
}

priority_from_lem :
    (i : ℕ) (name : Bytes) (ss : List ServerEntry)
    → ((s : ServerEntry)
        → find_in name ss ≡ some s
        → priority_from i name ss ≡ pos (i + length (servers_before name ss)))
      × (find_in name ss ≡ none
          → (priority_from i name ss ≡ negsuc 0) × (servers_before name ss ≡ ss))
unfolding priority_from servers_before find_in
priority_from_lem i name [] = (λ s h. cc, λ h. (refl, refl))
priority_from_lem i name (s ∷ ss) = elim (Bool-cases (bytes_eq s.name name)) [
  | inl here ↦ rw here (λ t h. ground arith, λ h. cc)
  | inr differs ↦
      let (found, missing) = priority_from_lem (suc i) name ss in
      rw differs (
        λ t h. found t h ∙ ap pos (omega arith),
        λ h. ((missing h).0, ap (λ r. s ∷ r) (missing h).1),
      )
]

-- The priority of a server that is configured is the number of servers above it, and a server that
-- is not configured has priority -1 and every server above it.
priority_of-higher_priority_than :
    (name : Bytes) (c : ClusterConfig)
    → ((s : ServerEntry)
        → find_server name c ≡ some s
        → priority_of name c ≡ pos (length (higher_priority_than name c)))
      × (find_server name c ≡ none
          → (priority_of name c ≡ negsuc 0) × (higher_priority_than name c ≡ c.servers))
unfolding priority_of higher_priority_than find_server
priority_of-higher_priority_than name c =
    let (found, missing) = priority_from_lem 0 name c.servers in
    (λ s h. found s h ∙ ap pos (omega arith), missing)

reachable_none :
    (probe : Probe) (s : ServerEntry) (i n k : ℕ)
    → reachable probe s i n ≡ false
    → i ≤ k
    → k < i + n
    → probe s k ≡ false
unfolding reachable
reachable_none probe s i zero k h lo hi = absurd (omega (arith, lo, hi))
reachable_none probe s i (suc n) k h lo hi = elim (Bool-cases (probe s i)) [
  | inl up ↦ cc (rw up at h)
  | inr down ↦ elim (eq_or_above i k lo) [
    | inl here ↦ rw (← here) down
    | inr above ↦ reachable_none probe s (suc i) n k (rw down at h) above (omega (arith, hi))
  ]
]
  where
    eq_or_above : (a b : ℕ) → a ≤ b → (a ≡ b) ⊎ (suc a ≤ b)
    eq_or_above a b h = ground arith

pub all_down_silent :
    (probe : Probe) (n : ℕ) (ss : List ServerEntry)
    → all_down probe n ss ≡ true
    → All (λ s. (k : ℕ) → k < n → probe s k ≡ false) ss
unfolding all_down
all_down_silent probe n [] h = tt
all_down_silent probe n (s ∷ ss) h = elim (Bool-cases (reachable probe s 0 n)) [
  | inl up ↦ cc (rw up at h)
  | inr down ↦ (
    λ k small. reachable_none probe s 0 n k down (omega arith) (omega (arith, small)),
    all_down_silent probe n ss (rw down at h),
  )
]

follow_target_silent :
    (probe : Probe) (me : Bytes) (ss : List ServerEntry)
    → follow_target probe me ss ≡ none
    → All (λ s. probe s 0 ≡ false) (servers_before me ss)
unfolding follow_target servers_before
follow_target_silent probe me [] h = tt
follow_target_silent probe me (s ∷ ss) h = elim (Bool-cases (bytes_eq s.name me)) [
  | inl mine ↦ rw mine tt
  | inr above ↦ elim (Bool-cases (probe s 0)) [
    | inl up ↦ cc (rw (above, up) at h)
    | inr down ↦ rw above (down, follow_target_silent probe me ss (rw (above, down) at h))
  ]
]

-- The first decision of a round is to promote only if every server above this one left the first
-- probe and each of the configured number of later probes unanswered.
pub decide_promotes :
    (probe later : Probe) (c : ClusterConfig) (me : Bytes)
    → decide probe later c me ≡ promote_self
    → All (λ s. probe s 0 ≡ false) (higher_priority_than me c)
      × All
          (λ s. (k : ℕ) → k < rounds c.promotion_probe_attempts → later s k ≡ false)
          (higher_priority_than me c)
unfolding decide higher_priority_than all_higher_priority_down
decide_promotes probe later c me h = elim (Option-cases (follow_target probe me c.servers)) [
  | inr (s, found) ↦ cc (rw found at h)
  | inl nobody ↦ elim (Bool-cases (all_higher_priority_down later c me)) [
    | inr up ↦ cc (rw (nobody, up) at h)
    | inl down ↦ (
      follow_target_silent probe me c.servers nobody,
      all_down_silent later (rounds c.promotion_probe_attempts) (servers_before me c.servers) down,
    )
  ]
]

-- The first server that is up.
abbrev pub first_up : (ServerEntry → Bool) → List ServerEntry → Option ServerEntry
first_up up [] = none
first_up up (s ∷ ss) = if up s then some s else first_up up ss

abbrev pub steady : (ServerEntry → Bool) → Probe
steady up s k = up s

follow_target-first_up :
    (up : ServerEntry → Bool) (me : Bytes) (ss : List ServerEntry)
    → follow_target (steady up) me ss ≡ first_up up (servers_before me ss)
unfolding follow_target servers_before
follow_target-first_up up me [] = refl
follow_target-first_up up me (s ∷ ss) = ground (arith, follow_target-first_up up me ss)

steady_silent :
    (up : ServerEntry → Bool) (s : ServerEntry) (i n : ℕ)
    → up s ≡ false
    → reachable (steady up) s i n ≡ false
unfolding reachable
steady_silent up s i zero down = refl
steady_silent up s i (suc n) down = rw down (steady_silent up s (suc i) n down)

all_down-steady :
    (up : ServerEntry → Bool) (n : ℕ) (ss : List ServerEntry)
    → first_up up ss ≡ none
    → all_down (steady up) n ss ≡ true
unfolding all_down
all_down-steady up n [] h = refl
all_down-steady up n (s ∷ ss) h = elim (Bool-cases (up s)) [
  | inl is_up ↦ cc (rw is_up at h)
  | inr down ↦ rw (steady_silent up s 0 n down) (all_down-steady up n ss (rw down at h))
]

-- While it does not change which servers are up, a server that stands by follows the highest server
-- above it that is up, and promotes itself if none is: it never waits.
pub decide-steady :
    (up : ServerEntry → Bool) (c : ClusterConfig) (me : Bytes)
    → decide (steady up) (steady up) c me
      ≡ elim (first_up up (higher_priority_than me c)) [ none ↦ promote_self | some s ↦ follow s ]
unfolding decide higher_priority_than all_higher_priority_down
decide-steady up c me = elim (Option-cases (first_up up (servers_before me c.servers))) [
  | inl nobody ↦ rw (
    follow_target-first_up up me c.servers,
    nobody,
    all_down-steady up (rounds c.promotion_probe_attempts) (servers_before me c.servers) nobody,
  )
  | inr (s, found) ↦ rw (follow_target-first_up up me c.servers, found)
]
