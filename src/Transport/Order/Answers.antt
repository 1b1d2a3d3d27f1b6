-- ===== src/Transport/Order/Answers.antt =====
-- `receiveAndParse` gives an answer, whatever the peer sends: the rounds are enough.
use squid_storage.Prelude.{
  ℕ, zero, suc, ◌<◌, ◌≡◌, refl, ◌∙◌, sym, ap, subst, inl, inr, Bool-cases, Option-cases, ltb, ◌==◌,
  ==_iff, Option, none, some, some-injective, [], ◌∷◌, arith,
}
use squid_storage.Prelude.Lists.{length, All, length-append}
use squid_storage.Prelude.Key.{Bytes, nat_key}
use squid_storage.Prelude.Map.{Map, find, assign, erase, insert}
use squid_storage.Protocol.Frame.{returns, Message, parse_message}
use squid_storage.Transport.Channel.{Channel}
use squid_storage.Transport.Channel.Stream.{stream}
use squid_storage.Transport.Frames.{receive_frame}
use squid_storage.Transport.Frames.Parses.{receive_frame-parse_message}
use squid_storage.Transport.Order.{
  Connection, with_inbound, buffered_or_read, next_raw, Round, answers, again, in_order,
  after_parse, after_raw, continue_with, receive_rounds, receive_and_parse,
}

-- A frame in the buffer stands under its own sequence number.
abbrev IsKeyed : ℕ × Bytes → Type 0
IsKeyed entry = (msg : Message) × (parse_message entry.1 ≡ returns msg) × (msg.seq ≡ entry.0)

abbrev pub AllKeyed : Map ℕ Bytes → Type 0
AllKeyed m = All IsKeyed m

find-IsKeyed :
    (k : ℕ) (raw : Bytes) (m : Map ℕ Bytes) → AllKeyed m → find k m ≡ some raw → IsKeyed (k, raw)
unfolding find
find-IsKeyed k raw [] s h = absurd (cc)
find-IsKeyed k raw ((j, w) ∷ m) s h = elim (Bool-cases (j == k)) [
  | inl e ↦
      subst IsKeyed
        (ap (λ i. (i, w)) ((==_iff j k).0 e) ∙ ap (λ r. (k, r)) (some-injective (sym (rw e) ∙ h)))
        s.0
  | inr e ↦ find-IsKeyed k raw m s.1 (sym (rw e) ∙ h)
]

erase-AllKeyed : (k : ℕ) (m : Map ℕ Bytes) → AllKeyed m → AllKeyed (erase k m)
unfolding erase
erase-AllKeyed k [] s = tt
erase-AllKeyed k ((j, w) ∷ m) s = ground (arith, erase-AllKeyed k m s.1)

assign-AllKeyed :
    (k : ℕ) (raw : Bytes) (m : Map ℕ Bytes)
    → IsKeyed (k, raw)
    → AllKeyed m
    → AllKeyed (assign k raw m)
unfolding assign
assign-AllKeyed k raw [] r s = (r, tt)
assign-AllKeyed k raw ((j, w) ∷ m) r s = ground (arith, assign-AllKeyed k raw m r s.1)

insert-AllKeyed :
    (k : ℕ) (raw : Bytes) (m : Map ℕ Bytes)
    → IsKeyed (k, raw)
    → AllKeyed m
    → AllKeyed (insert k raw m)
unfolding insert
insert-AllKeyed k raw m r s = elim (Option-cases (find k m)) [
  | inl e ↦ rw (e, insert) (assign-AllKeyed k raw m r s)
  | inr (w, e) ↦ rw (e, insert) s
]

-- A round answers, or goes on with less than `n` bytes in the stream.
abbrev Shrinks : ℕ → Round × Connection → Type 0
Shrinks n (answers m, d) = AllKeyed d.reorder_buffer
Shrinks n (again, d) = AllKeyed d.reorder_buffer × (length (stream d.inbound) < n)

in_order-Shrinks :
    (n : ℕ) (raw : Bytes) (msg : Message) (c : Connection)
    → parse_message raw ≡ returns msg
    → AllKeyed c.reorder_buffer
    → length (stream c.inbound) < n
    → Shrinks n (in_order raw msg c)
unfolding in_order
in_order-Shrinks n raw msg c p s l = elim (Bool-cases (msg.seq == c.expected_recv_seq)) [
  | inl e ↦ rw e s
  | inr e ↦ elim (Bool-cases (ltb c.expected_recv_seq msg.seq)) [
    | inl b ↦ rw (e, b) (insert-AllKeyed msg.seq raw c.reorder_buffer (msg, p, refl) s, l)
    | inr b ↦ rw (e, b) (s, l)
  ]
]

after_parse-Shrinks :
    (n : ℕ) (raw : Bytes) (msg : Message) (c : Connection)
    → parse_message raw ≡ returns msg
    → AllKeyed c.reorder_buffer
    → length (stream c.inbound) < n
    → Shrinks n (after_raw (some raw, c))
after_parse-Shrinks n raw msg c p s l =
    subst (λ r. Shrinks n (after_parse raw r c)) (sym p) (in_order-Shrinks n raw msg c p s l)

read-Shrinks :
    (c : Connection) (r : Option Bytes × Channel)
    → receive_frame c.inbound ≡ r
    → AllKeyed c.reorder_buffer
    → Shrinks (length (stream c.inbound)) (after_raw (with_inbound c r))
read-Shrinks c (none, ch) e s = s
read-Shrinks c (some raw, ch) e s =
    let (long, front, (msg, p)) = receive_frame-parse_message raw c.inbound ch e in
    after_parse-Shrinks (length (stream c.inbound)) raw msg (record c { inbound = ch }) p s
      (omega (arith, long, ap length front, length-append raw (stream ch)))

-- A frame of the buffer is the one that is expected.
popped-Shrinks :
    (n : ℕ) (raw : Bytes) (c : Connection)
    → IsKeyed (c.expected_recv_seq, raw)
    → AllKeyed c.reorder_buffer
    → Shrinks n (after_raw (buffered_or_read c (some raw)))
unfolding in_order
popped-Shrinks n raw c (msg, p, q) s =
    subst
      (λ r. Shrinks n (
        after_parse raw r
          (record c { reorder_buffer = erase c.expected_recv_seq c.reorder_buffer })))
      (sym p)
      (rw ((==_iff msg.seq c.expected_recv_seq).1 q)
        (erase-AllKeyed c.expected_recv_seq c.reorder_buffer s))

round-Shrinks :
    (c : Connection)
    → AllKeyed c.reorder_buffer
    → Shrinks (length (stream c.inbound)) (after_raw (next_raw c))
unfolding next_raw
round-Shrinks c s =
    let n = length (stream c.inbound) in
    let e = c.expected_recv_seq in
    elim (Option-cases (find e c.reorder_buffer)) [
      | inl f ↦
          subst (λ r. Shrinks n (after_raw (buffered_or_read c r))) (sym f)
            (read-Shrinks c (receive_frame c.inbound) refl s)
      | inr (raw, f) ↦
          subst (λ r. Shrinks n (after_raw (buffered_or_read c r))) (sym f)
            (popped-Shrinks n raw c (find-IsKeyed e raw c.reorder_buffer s f) s)
    ]

abbrev Answered : Option Message × Connection → Type 0
Answered result = (m : Message) × (result.0 ≡ some m) × AllKeyed (result.1).reorder_buffer

continue-Answered :
    (n : ℕ) (r : Round × Connection) (rest : Connection → Option Message × Connection)
    → Shrinks n r
    → ((d : Connection)
        → AllKeyed d.reorder_buffer
        → length (stream d.inbound) < n
        → Answered (rest d))
    → Answered (continue_with r rest)
continue-Answered n (answers m, d) rest s h = (m, refl, s)
continue-Answered n (again, d) rest s h = h d s.0 s.1

rounds_enough :
    (fuel : ℕ) (c : Connection)
    → AllKeyed c.reorder_buffer
    → length (stream c.inbound) < fuel
    → Answered (receive_rounds fuel c)
unfolding receive_rounds
rounds_enough zero c s l = absurd (omega (arith, l))
rounds_enough (suc fuel) c s l =
    continue-Answered (length (stream c.inbound)) (after_raw (next_raw c)) (receive_rounds fuel)
      (round-Shrinks c s) (λ d t k. rounds_enough fuel d t (omega (arith, k, l)))

-- Every call answers with a message, whatever comes and however it is cut, if each frame of the
-- reorder buffer stands under its own sequence number. Afterwards this is still so.
pub receive_and_parse-answers :
    (c : Connection)
    → AllKeyed c.reorder_buffer
    → (m : Message) × ((receive_and_parse c).0 ≡ some m)
      × AllKeyed ((receive_and_parse c).1).reorder_buffer
unfolding receive_and_parse
receive_and_parse-answers c s = rounds_enough (suc (length (stream c.inbound))) c s (omega arith)
