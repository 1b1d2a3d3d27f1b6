-- ===== src/Transport/Order/Progress.antt =====
-- The frame that is expected is delivered once it is available, whatever is read before it.
use squid_storage.Prelude.{
  ℕ, zero, suc, ◌^◌, ◌<◌, ◌≡◌, ◌≢◌, ◌⊎◌, inl, inr, ◌∙◌, sym, ap, Option, none, some, Option-cases,
  Bool-cases, ◌==◌, ==_iff, List, [], ◌∷◌, arith,
}
use squid_storage.Prelude.Lists.{length, All}
use squid_storage.Prelude.Key.{Bytes, nat_key}
use squid_storage.Prelude.Map.{Map, find, erase, insert}
use squid_storage.Prelude.Map.Laws.{find-erase_ne, find-insert_ne}
use squid_storage.Protocol.Frame.{Message}
use squid_storage.Transport.Channel.{Channel}
use squid_storage.Transport.Channel.Stream.{stream}
use squid_storage.Transport.Order.{
  Connection, next_seq, next_raw, again, in_order, after_raw, continue_with, receive_rounds,
}
use squid_storage.Transport.Order.Packets.{
  Packet, IsValid, packet_wire, packet_message, on_wire, Arrives,
}
use squid_storage.Transport.Order.Rounds.{
  delivered, in_order_now, in_order_ahead, in_order_stale, round_buffered, round_read,
}
use squid_storage.Transport.Order.Buffer.{
  IsSound, erase-IsSound, insert-IsSound, find-insert_own, find-IsSound,
}

abbrev pub IsNumber : ℕ → Type 0
IsNumber k = k < 2 ^ 32

module _ (sent : ℕ → Packet) (valid : (k : ℕ) → IsValid (sent k)) where
  -- The frames `ks` are still to be read, and the buffer holds none but the sender's.
  pub record InStep (c : Connection) (ks : List ℕ) : Type 0 where
    pub numbers : All IsNumber ks
    pub reads : stream c.inbound ≡ on_wire sent ks
    pub sound : IsSound sent c.reorder_buffer

  -- The frame `k` is still to be read, or in the buffer.
  unfoldable pub Available : Connection → List ℕ → ℕ → Type 0
  Available c ks k = Arrives k ks ⊎ (find k c.reorder_buffer ≡ some (packet_wire sent k))

  -- The frame that is expected is delivered, and no later frame is lost.
  pub record Delivers (c : Connection) (ks : List ℕ) (result : Option Message × Connection)
      : Type 0 where
    pub d : Connection
    pub left : List ℕ
    pub answered : result ≡ (some (packet_message sent c.expected_recv_seq), d)
    pub in_step : InStep d left
    pub next : d.expected_recv_seq ≡ suc c.expected_recv_seq
    pub keeps : (k : ℕ) → c.expected_recv_seq < k → Available c ks k → Available d left k

  next_seq_small : (e : ℕ) → suc e < 2 ^ 32 → next_seq e ≡ suc e
  next_seq_small e h = omega (arith, h)

  deliver_buffered :
      (fuel : ℕ) (c : Connection) (ks : List ℕ)
      → suc c.expected_recv_seq < 2 ^ 32
      → InStep c ks
      → find c.expected_recv_seq c.reorder_buffer ≡ some (packet_wire sent c.expected_recv_seq)
      → Delivers c ks (receive_rounds (suc fuel) c)
  unfolding receive_rounds Available
  deliver_buffered fuel c ks small s h =
      let e = c.expected_recv_seq in
      let popped = record c { reorder_buffer = erase e c.reorder_buffer } in
      record {
        d = delivered e popped;
        left = ks;
        answered =
            ap (λ r. continue_with r (receive_rounds fuel))
              (round_buffered sent valid c (omega (arith, small)) h);
        in_step = record {
          numbers = s.numbers;
          reads = s.reads;
          sound = erase-IsSound sent e c.reorder_buffer s.sound;
        };
        next = next_seq_small e small;
        keeps = λ k l a. elim a [
          | inl r ↦ inl r
          | inr f ↦ inr (find-erase_ne k e c.reorder_buffer (λ q. absurd (omega (arith, q, l))) ∙ f)
        ];
      }

  -- A round that goes on is followed by the rounds that deliver, if it lost no frame.
  deliver_again :
      (fuel : ℕ) (c : Connection) (ks left : List ℕ) (m : Map ℕ Bytes) (ch : Channel)
      → after_raw (next_raw c) ≡ (again, record c { reorder_buffer = m; inbound = ch })
      → ((k : ℕ)
          → c.expected_recv_seq < k
          → Available c ks k
          → Available (record c { reorder_buffer = m; inbound = ch }) left k)
      → Delivers
          (record c { reorder_buffer = m; inbound = ch })
          left
          (receive_rounds fuel (record c { reorder_buffer = m; inbound = ch }))
      → Delivers c ks (receive_rounds (suc fuel) c)
  unfolding receive_rounds
  deliver_again fuel c ks left m ch run moved r = record {
    d = r.d;
    left = r.left;
    answered = ap (λ q. continue_with q (receive_rounds fuel)) run ∙ r.answered;
    in_step = r.in_step;
    next = r.next;
    keeps = λ k l a. r.keeps k l (moved k l a);
  }

  deliver_now :
      (fuel k : ℕ) (c : Connection) (ks : List ℕ) (ch : Channel)
      → suc c.expected_recv_seq < 2 ^ 32
      → InStep c (k ∷ ks)
      → stream ch ≡ on_wire sent ks
      → after_raw (next_raw c)
        ≡ in_order (packet_wire sent k) (packet_message sent k) (record c { inbound = ch })
      → k ≡ c.expected_recv_seq
      → Delivers c (k ∷ ks) (receive_rounds (suc fuel) c)
  unfolding receive_rounds Available
  deliver_now fuel k c ks ch small s stays run h =
      let d = record c { inbound = ch } in
      record {
        d = delivered k d;
        left = ks;
        answered =
            ap (λ q. continue_with q (receive_rounds fuel)) (run ∙ in_order_now sent valid k d h)
            ∙ ap (λ j. (some (packet_message sent j), delivered k d)) h;
        in_step = record { numbers = s.numbers.1; reads = stays; sound = s.sound };
        next = next_seq_small c.expected_recv_seq small;
        keeps = λ j l a. elim a [
          | inl (inl q) ↦ absurd (omega (arith, q, h, l))
          | inl (inr q) ↦ inl q
          | inr f ↦ inr f
        ];
      }

  -- After a frame was put into the buffer, or thrown away, all others are where they were.
  inserted_at :
      (k j : ℕ) (m : Map ℕ Bytes)
      → IsSound sent m
      → k ≡ j
      → find j (insert k (packet_wire sent k) m) ≡ some (packet_wire sent j)
  inserted_at k j m s q =
      ap (λ i. find i (insert k (packet_wire sent k) m)) (sym q)
      ∙ find-insert_own sent k m s
      ∙ ap (λ i. some (packet_wire sent i)) q

  Available-insert :
      (k j : ℕ) (c : Connection) (ks : List ℕ) (ch : Channel)
      → IsSound sent c.reorder_buffer
      → Available c (k ∷ ks) j
      → Available
          (record c {
            reorder_buffer = insert k (packet_wire sent k) c.reorder_buffer;
            inbound = ch;
          })
          ks
          j
  unfolding Available
  Available-insert k j c ks ch s (inl (inl q)) = inr (inserted_at k j c.reorder_buffer s q)
  Available-insert k j c ks ch s (inl (inr r)) = inl r
  Available-insert k j c ks ch s (inr f) = elim (Bool-cases (k == j)) [
    | inl q ↦ inr (inserted_at k j c.reorder_buffer s ((==_iff k j).0 q))
    | inr q ↦ inr (find-insert_ne j k (packet_wire sent k) c.reorder_buffer (ground (arith, q)) ∙ f)
  ]

  Available-dropped :
      (k j : ℕ) (c : Connection) (ks : List ℕ) (ch : Channel)
      → k ≢ j
      → Available c (k ∷ ks) j
      → Available (record c { inbound = ch }) ks j
  unfolding Available
  Available-dropped k j c ks ch n (inl (inl q)) = absurd (n q)
  Available-dropped k j c ks ch n (inl (inr q)) = inl q
  Available-dropped k j c ks ch n (inr f) = inr f

  Arrives-later : (k j : ℕ) (ks : List ℕ) → k ≢ j → Arrives j (k ∷ ks) → Arrives j ks
  Arrives-later k j ks n (inl q) = absurd (n q)
  Arrives-later k j ks n (inr r) = r

  three_ways : (a b : ℕ) → (a ≡ b) ⊎ ((a < b) ⊎ (b < a))
  three_ways a b = ground arith

  -- `fuel` rounds deliver the frame that is expected, whatever frames are to be read before it.
  unfoldable pub EnoughRounds : ℕ → Type 0
  EnoughRounds fuel =
      (c : Connection) (ks : List ℕ)
      → length ks < fuel
      → suc c.expected_recv_seq < 2 ^ 32
      → InStep c ks
      → Available c ks c.expected_recv_seq
      → Delivers c ks (receive_rounds fuel c)

  deliver_read :
      (fuel : ℕ) (c : Connection) (ks : List ℕ)
      → EnoughRounds fuel
      → length ks < suc fuel
      → suc c.expected_recv_seq < 2 ^ 32
      → InStep c ks
      → find c.expected_recv_seq c.reorder_buffer ≡ none
      → Arrives c.expected_recv_seq ks
      → Delivers c ks (receive_rounds (suc fuel) c)
  unfolding on_wire EnoughRounds Available
  deliver_read fuel c [] later h small s f a = absurd a
  deliver_read fuel c (k ∷ ks) later h small s f a =
      let (ch, run, stays) = round_read sent valid k c (on_wire sent ks) s.numbers.0 f s.reads in
      let e = c.expected_recv_seq in
      let m = insert k (packet_wire sent k) c.reorder_buffer in
      let d = record c { inbound = ch } in
      elim (three_ways k e) [
        | inl q ↦ deliver_now fuel k c ks ch small s stays run q
        | inr (inl l) ↦
            deliver_again fuel c (k ∷ ks) ks c.reorder_buffer ch
              (run ∙ in_order_stale sent valid k d l)
              (λ j b. Available-dropped k j c ks ch (λ q. absurd (omega (arith, q, b, l))))
              (later d ks (omega (arith, h)) small
                (record { numbers = s.numbers.1; reads = stays; sound = s.sound })
                (inl (Arrives-later k e ks (λ q. absurd (omega (arith, q, l))) a)))
        | inr (inr l) ↦
            deliver_again fuel c (k ∷ ks) ks m ch (run ∙ in_order_ahead sent valid k d l)
              (λ j b. Available-insert k j c ks ch s.sound)
              (later (record d { reorder_buffer = m }) ks (omega (arith, h)) small
                (record {
                  numbers = s.numbers.1;
                  reads = stays;
                  sound = insert-IsSound sent k c.reorder_buffer s.sound;
                })
                (inl (Arrives-later k e ks (λ q. absurd (omega (arith, q, l))) a)))
      ]

  Arrives-at :
      (c : Connection) (ks : List ℕ)
      → find c.expected_recv_seq c.reorder_buffer ≡ none
      → Available c ks c.expected_recv_seq
      → Arrives c.expected_recv_seq ks
  unfolding Available
  Arrives-at c ks f (inl r) = r
  Arrives-at c ks f (inr g) = absurd (cc)

  pub deliver : (fuel : ℕ) → EnoughRounds fuel
  unfolding EnoughRounds
  deliver zero c ks h small s a = absurd (omega (arith, h))
  deliver (suc fuel) c ks h small s a =
      elim (Option-cases (find c.expected_recv_seq c.reorder_buffer)) [
        | inr (raw, f) ↦
            deliver_buffered fuel c ks small s
              (f ∙ ap some (find-IsSound sent c.expected_recv_seq raw c.reorder_buffer s.sound f))
        | inl f ↦ deliver_read fuel c ks (deliver fuel) h small s f (Arrives-at c ks f a)
      ]
