-- ===== src/Server/Replication/Votes.antt =====
-- How many data nodes acknowledge a write, counted without regard to how the server collects them.
use squid_storage.Prelude.{
  ℕ, suc, ◌≡◌, refl, ap, Bool, false, ◌&&◌, if◌then◌else◌, none, some, [], ◌∷◌, Bool-cases, inl,
  inr,
}
use squid_storage.Prelude.Lists.{length}
use squid_storage.Prelude.Key.{Bytes}
use squid_storage.Prelude.Map.{Map}
use squid_storage.Protocol.Message.{is_ack}
use squid_storage.Server.State.{SessionPtr, Call, Net}
use squid_storage.Server.Replication.{acked_by, asked}

abbrev pub is_live : Net → Bytes × SessionPtr → Bool
is_live net (name, none) = false
is_live net (name, some s) = net.is_alive s

-- The data node is alive and its answer to the call is an ACK.
abbrev pub votes_for : Net → Call → Bytes × SessionPtr → Bool
votes_for net c (name, none) = false
votes_for net c (name, some s) = net.is_alive s && is_ack (net.answer s c)

abbrev pub count : (Bytes × SessionPtr → Bool) → Map Bytes SessionPtr → ℕ
count p [] = 0
count p (e ∷ m) = if p e then suc (count p m) else count p m

pub length-acked_by :
    (net : Net) (c : Call) (nodes : Map Bytes SessionPtr)
    → length (acked_by net c nodes) ≡ count (votes_for net c) nodes
unfolding acked_by
length-acked_by net c [] = refl
length-acked_by net c ((name, none) ∷ nodes) = length-acked_by net c nodes
length-acked_by net c ((name, some s) ∷ nodes) =
    elim (Bool-cases (net.is_alive s && is_ack (net.answer s c))) [
      | inl is_on ↦ rw is_on (ap suc (length-acked_by net c nodes))
      | inr is_off ↦ rw is_off (length-acked_by net c nodes)
    ]

pub asked-count :
    (net : Net) (nodes : Map Bytes SessionPtr) → asked net nodes ≡ count (is_live net) nodes
unfolding asked
asked-count net [] = refl
asked-count net ((name, none) ∷ nodes) = asked-count net nodes
asked-count net ((name, some s) ∷ nodes) = elim (Bool-cases (net.is_alive s)) [
  | inl is_on ↦ rw is_on (ap suc (asked-count net nodes))
  | inr is_off ↦ rw is_off (asked-count net nodes)
]
