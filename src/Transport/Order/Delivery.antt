-- ===== src/Transport/Order/Delivery.antt =====
-- Whatever order the frames come in, they are delivered in the order of their numbers.
use squid_storage.Prelude.{
  ℕ, zero, suc, ◌+◌, ◌^◌, ◌≤◌, ◌<◌, ◌≡◌, inl, refl, ◌∙◌, ap, Option, some, List, [], ◌∷◌, arith,
}
use squid_storage.Prelude.Lists.{length, All}
use squid_storage.Prelude.Key.{nat_key}
use squid_storage.Protocol.Frame.{Message}
use squid_storage.Transport.Channel.{Channel}
use squid_storage.Transport.Channel.Stream.{stream}
use squid_storage.Transport.Order.{Connection, receive_and_parse, receive_many}
use squid_storage.Transport.Order.Packets.{
  Packet, IsValid, packet_message, on_wire, Arrives, length-on_wire,
}
use squid_storage.Transport.Channel.{Written}
use squid_storage.Transport.Order.{new_connection}
use squid_storage.Transport.Order.Progress.{IsNumber, InStep, Available, EnoughRounds, deliver}

-- The messages with the numbers `e`, `e + 1`, and so on, `n` of them.
abbrev pub messages_from : (ℕ → Packet) → ℕ → ℕ → List (Option Message)
messages_from sent e zero = []
messages_from sent e (suc n) = some (packet_message sent e) ∷ messages_from sent (suc e) n

module _ (sent : ℕ → Packet) (valid : (k : ℕ) → IsValid (sent k)) where
  receive_many-from :
      (n : ℕ) (c : Connection) (ks : List ℕ)
      → c.expected_recv_seq + n < 2 ^ 32
      → InStep sent valid c ks
      → ((k : ℕ)
          → c.expected_recv_seq ≤ k
          → k < c.expected_recv_seq + n
          → Available sent valid c ks k)
      → (receive_many n c).0 ≡ messages_from sent c.expected_recv_seq n
  unfolding receive_many receive_and_parse EnoughRounds
  receive_many-from zero c ks small s a = refl
  receive_many-from (suc n) c ks small s a =
      let e = c.expected_recv_seq in
      let r =
        deliver sent valid (suc (length (stream c.inbound))) c ks
          (rw s.reads (omega (arith, length-on_wire sent ks))) (omega (arith, small)) s
          (a e (omega arith) (omega arith)) in
      let later = receive_many-from n r.d r.left (omega (arith, r.next, small)) r.in_step (λ k l h.
        r.keeps k (omega (arith, r.next, l))
          (a k (omega (arith, r.next, l)) (omega (arith, r.next, h)))) in
      ap (λ q. q.0 ∷ (receive_many n q.1).0) r.answered
      ∙ ap (λ ms. some (packet_message sent e) ∷ ms)
          (later ∙ ap (λ i. messages_from sent i n) r.next)

-- The frames of a sender come in any order, some of them more than once, and cut anywhere. If each
-- of the first `n` comes, then `n` calls on a new connection give their messages, each once and in
-- the order of the numbers.
pub receive_many-on_wire :
    (sent : ℕ → Packet) (n : ℕ) (ks : List ℕ) (ch : Channel) (ws : List Written)
    → ((k : ℕ) → IsValid (sent k))
    → n < 2 ^ 32
    → All IsNumber ks
    → ((k : ℕ) → k < n → Arrives k ks)
    → stream ch ≡ on_wire sent ks
    → (receive_many n (new_connection ch ws)).0 ≡ messages_from sent 0 n
unfolding Available
receive_many-on_wire sent n ks ch ws valid small numbers all reads =
    receive_many-from sent valid n (new_connection ch ws) ks (omega (arith, small))
      (record { numbers = numbers; reads = reads; sound = tt })
      (λ k l h. inl (all k (omega (arith, h))))
