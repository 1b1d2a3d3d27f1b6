-- ===== src/Transport/Order/Exchange.antt =====
-- From one connection's `sendFrame` to the other's `receiveAndParse`.
use squid_storage.Prelude.{
  ℕ, zero, suc, ◌+◌, ◌^◌, ◌≤◌, ◌<◌, ◌≡◌, refl, ◌∙◌, sym, ap, subst, ◌⊎◌, inl, inr, Bool, true,
  false, ◌&&◌, List, [], ◌∷◌, ◌++◌, append-nil, append_assoc, arith,
}
use squid_storage.Prelude.Lists.{length, All}
use squid_storage.Prelude.Key.{Bytes}
use squid_storage.Protocol.Frame.{Fallible, returns, build_frame, stamp_seq, frame_header}
use squid_storage.Protocol.Frame.RoundTrip.{body, build_frame-eq_returns}
use squid_storage.Transport.Channel.{Channel, Written, send_all}
use squid_storage.Transport.Channel.Stream.{stream}
use squid_storage.Transport.Channel.Sending.{send_all_complete}
use squid_storage.Transport.Frames.RoundTrip.{wire}
use squid_storage.Transport.Order.{
  Connection, new_connection, next_seq, send_frame, send_built, receive_many,
}
use squid_storage.Transport.Order.Packets.{Packet, IsValid, packet_wire, on_wire, Arrives}
use squid_storage.Transport.Order.Progress.{IsNumber}
use squid_storage.Transport.Order.Delivery.{messages_from, receive_many-on_wire}

-- The formatter's frame, and the call of `sendFrame` for each packet in turn.
abbrev built : Packet → Fallible Bytes
built p = build_frame p.opcode p.flags p.fields 0

unfoldable pub send_packets : (ℕ → Packet) → ℕ → Connection → Connection
send_packets sent zero c = c
send_packets sent (suc n) c = send_packets sent n (send_built (built (sent c.next_send_seq)) c)

abbrev numbers_from : ℕ → ℕ → List ℕ
numbers_from e zero = []
numbers_from e (suc n) = e ∷ numbers_from (suc e) n

numbers_small : (n e : ℕ) → e + n < 2 ^ 32 → All IsNumber (numbers_from e n)
numbers_small zero e h = tt
numbers_small (suc n) e h = (omega (arith, h), numbers_small n (suc e) (omega (arith, h)))

eq_or_after : (e k : ℕ) → e ≤ k → (e ≡ k) ⊎ (suc e ≤ k)
eq_or_after e k h = ground (arith, h)

numbers_arrive : (n e k : ℕ) → e ≤ k → k < e + n → Arrives k (numbers_from e n)
numbers_arrive zero e k h l = absurd (omega (arith, h, l))
numbers_arrive (suc n) e k h l = elim (eq_or_after e k h) [
  | inl q ↦ inl q
  | inr q ↦ inr (numbers_arrive n (suc e) k q (omega (arith, l)))
]

both_true : (a b : Bool) → a && b ≡ true → (a ≡ true) × (b ≡ true)
both_true true b h = (refl, h)
both_true false b h = absurd (cc)

-- A connection that is still alive after a frame was alive before, and sent all of it.
Sends : Connection → Bytes → Connection → Type 0
Sends c bytes d = (c.alive ≡ true) × (d.sent ≡ c.sent ++ bytes)

send_frame_lem :
    (frame : Bytes) (c : Connection)
    → (send_frame frame c).alive ≡ true
    → Sends c (stamp_seq frame c.next_send_seq) (send_frame frame c)
unfolding send_frame Sends
send_frame_lem frame c h =
    let stamped = stamp_seq frame c.next_send_seq in
    let (alive, all) = both_true c.alive (send_all stamped c.outbound).1 h in
    (alive, ap (λ r. c.sent ++ r) (send_all_complete stamped c.outbound all))

-- What the formatter builds for a packet.
built_frame : Packet → Bytes
built_frame p = frame_header p.opcode p.flags (length p.fields) 0 0 ++ body p.fields

built-eq_returns : (p : Packet) → IsValid p → built p ≡ returns (built_frame p)
unfolding built_frame
built-eq_returns p v = build_frame-eq_returns p.opcode p.flags 0 p.fields v.few v.fit

stamp_seq-wire :
    (sent : ℕ → Packet) (e : ℕ)
    → (sent e).payload ≡ []
    → stamp_seq (built_frame (sent e)) e ≡ packet_wire sent e
unfolding stamp_seq wire built_frame
stamp_seq-wire sent e none = rw (none, append-nil (body (sent e).fields))

send_built-next :
    (p : Packet) (c : Connection)
    → IsValid p
    → (send_built (built p) c).next_send_seq ≡ next_seq c.next_send_seq
send_built-next p c v =
    ap (λ r. (send_built r c).next_send_seq) (built-eq_returns p v) ∙ unfold send_frame in refl

send_built-Sends :
    (sent : ℕ → Packet) (c : Connection)
    → IsValid (sent c.next_send_seq)
    → (sent c.next_send_seq).payload ≡ []
    → (send_built (built (sent c.next_send_seq)) c).alive ≡ true
    → Sends c (packet_wire sent c.next_send_seq) (send_built (built (sent c.next_send_seq)) c)
send_built-Sends sent c v none h =
    let p = sent c.next_send_seq in
    let made = built-eq_returns p v in
    subst (λ r. Sends c (packet_wire sent c.next_send_seq) (send_built r c)) (sym made)
      (subst (λ bytes. Sends c bytes (send_frame (built_frame p) c))
        (stamp_seq-wire sent c.next_send_seq none)
        (send_frame_lem (built_frame p) c (subst (λ r. (send_built r c).alive ≡ true) made h)))

module _ (sent : ℕ → Packet) (valid : (k : ℕ) → IsValid (sent k))
    (none : (k : ℕ) → (sent k).payload ≡ []) where
  send_packets_lem :
      (n : ℕ) (c : Connection)
      → c.next_send_seq + n < 2 ^ 32
      → (send_packets sent n c).alive ≡ true
      → Sends c (on_wire sent (numbers_from c.next_send_seq n)) (send_packets sent n c)
  unfolding send_packets on_wire Sends
  send_packets_lem zero c small h = (h, sym (append-nil c.sent))
  send_packets_lem (suc n) c small h =
      let e = c.next_send_seq in
      let d = send_built (built (sent e)) c in
      let next = send_built-next (sent e) c (valid e) in
      let (alive, later) = send_packets_lem n d (omega (arith, next, small)) h in
      let (was, now) = send_built-Sends sent c (valid e) (none e) alive in
      (
        was,
        later
            ∙ ap (λ r. r ++ on_wire sent (numbers_from d.next_send_seq n)) now
            ∙ append_assoc c.sent (packet_wire sent e)
                (on_wire sent (numbers_from d.next_send_seq n))
            ∙ ap (λ i. c.sent ++ (packet_wire sent e ++ on_wire sent (numbers_from i n)))
                (next ∙ omega (arith, small)),
      )

-- `n` frames are sent on a new connection, which is alive at the end. If what was sent reaches a
-- new connection of the peer, cut anywhere, then `n` calls there give the messages of the frames,
-- each once and in the order of sending.
pub receive_many-send_packets :
    (sent : ℕ → Packet) (n : ℕ) (to_peer from_peer : Channel) (takes takes_not : List Written)
    → ((k : ℕ) → IsValid (sent k))
    → ((k : ℕ) → (sent k).payload ≡ [])
    → n < 2 ^ 32
    → (send_packets sent n (new_connection from_peer takes)).alive ≡ true
    → stream to_peer ≡ (send_packets sent n (new_connection from_peer takes)).sent
    → (receive_many n (new_connection to_peer takes_not)).0 ≡ messages_from sent 0 n
unfolding Sends
receive_many-send_packets sent n to_peer from_peer takes takes_not valid none small alive arrives =
    let sends =
      send_packets_lem sent valid none n (new_connection from_peer takes) (omega (arith, small))
        alive in
    receive_many-on_wire sent n (numbers_from 0 n) to_peer takes_not valid small
      (numbers_small n 0 (omega (arith, small)))
      (λ k h. numbers_arrive n 0 k (omega arith) (omega (arith, h))) (arrives ∙ sends.1)
