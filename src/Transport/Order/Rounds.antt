-- ===== src/Transport/Order/Rounds.antt =====
-- What one round of `receiveAndParse` does with a frame of the sender.
use squid_storage.Prelude.{
  ℕ, ◌^◌, ◌<◌, ◌≡◌, ◌⊎◌, inl, inr, refl, ◌∙◌, ap, false, ◌==◌, lt→ltb, le→not-ltb, ==_iff, none,
  some, ◌++◌, arith,
}
use squid_storage.Prelude.Key.{Bytes, nat_key}
use squid_storage.Prelude.Map.{find, erase, insert}
use squid_storage.Transport.Channel.{Channel}
use squid_storage.Transport.Channel.Stream.{stream}
use squid_storage.Transport.Frames.RoundTrip.{receive_frame-wire}
use squid_storage.Transport.Order.{
  Connection, next_seq, with_inbound, buffered_or_read, next_raw, answers, again, in_order,
  after_parse, after_raw,
}
use squid_storage.Transport.Order.Packets.{
  Packet, IsValid, packet_wire, packet_message, parse_message-wire,
}

lt→not-eq : (a b : ℕ) → (a < b) ⊎ (b < a) → (a == b) ≡ false
lt→not-eq a b h = ground (arith, h)

-- The connection once the frame `k` is delivered.
abbrev pub delivered : ℕ → Connection → Connection
delivered k c = record c {
  last_delivered_seq = k;
  expected_recv_seq = next_seq c.expected_recv_seq;
}

module _ (sent : ℕ → Packet) (valid : (k : ℕ) → IsValid (sent k)) where
  pub in_order_now :
      (k : ℕ) (c : Connection)
      → k ≡ c.expected_recv_seq
      → in_order (packet_wire sent k) (packet_message sent k) c
        ≡ (answers (packet_message sent k), delivered k c)
  unfolding in_order
  in_order_now k c h = rw ((==_iff k c.expected_recv_seq).1 h)

  pub in_order_ahead :
      (k : ℕ) (c : Connection)
      → c.expected_recv_seq < k
      → in_order (packet_wire sent k) (packet_message sent k) c
        ≡ (again, record c { reorder_buffer = insert k (packet_wire sent k) c.reorder_buffer })
  unfolding in_order
  in_order_ahead k c h =
      rw (lt→not-eq k c.expected_recv_seq (inr h), lt→ltb c.expected_recv_seq k h)

  pub in_order_stale :
      (k : ℕ) (c : Connection)
      → k < c.expected_recv_seq
      → in_order (packet_wire sent k) (packet_message sent k) c ≡ (again, c)
  unfolding in_order
  in_order_stale k c h =
      rw (
        lt→not-eq k c.expected_recv_seq (inl h),
        le→not-ltb c.expected_recv_seq k (omega (arith, h)),
      )

  pub round_buffered :
      (c : Connection)
      → c.expected_recv_seq < 2 ^ 32
      → find c.expected_recv_seq c.reorder_buffer ≡ some (packet_wire sent c.expected_recv_seq)
      → after_raw (next_raw c) ≡ (
        answers (packet_message sent c.expected_recv_seq),
        delivered c.expected_recv_seq
            (record c { reorder_buffer = erase c.expected_recv_seq c.reorder_buffer }),
      )
  unfolding next_raw
  round_buffered c small h =
      let e = c.expected_recv_seq in
      let popped = record c { reorder_buffer = erase e c.reorder_buffer } in
      ap (λ r. after_raw (buffered_or_read c r)) h
      ∙ ap (λ m. after_parse (packet_wire sent e) m popped)
          (parse_message-wire sent e (valid e) small)
      ∙ in_order_now e popped refl

  -- A frame that is read is looked at with the rest of the stream left.
  pub round_read :
      (k : ℕ) (c : Connection) (rest : Bytes)
      → k < 2 ^ 32
      → find c.expected_recv_seq c.reorder_buffer ≡ none
      → stream c.inbound ≡ packet_wire sent k ++ rest
      → (left : Channel) × (after_raw (next_raw c)
          ≡ in_order (packet_wire sent k) (packet_message sent k) (record c { inbound = left }))
        × (stream left ≡ rest)
  unfolding next_raw
  round_read k c rest small h e =
      let p = sent k in
      let v = valid k in
      let (left, run, stays) =
        receive_frame-wire p.opcode p.flags k p.fields p.payload rest c.inbound v.few v.fit v.small
          e in
      (
        left,
        ap (λ r. after_raw (buffered_or_read c r)) h
            ∙ ap (λ r. after_raw (with_inbound c r)) run
            ∙ ap (λ m. after_parse (packet_wire sent k) m (record c { inbound = left }))
                (parse_message-wire sent k v small),
        stays,
      )
