-- ===== src/Transport/Order.antt =====
-- The sequence numbers of common/src/squidprotocol/squidprotocol.cpp: `sendFrame` stamps them,
-- `receiveAndParse` puts the frames back in order.
pub mod Packets
pub mod Rounds
pub mod Buffer
pub mod Progress
pub mod Delivery
pub mod Answers
pub mod Exchange
use squid_storage.Prelude.{
  ℕ, zero, suc, ◌+◌, ◌%◌, ◌^◌, Bool, true, false, ltb, ◌==◌, if◌then◌else◌, ◌&&◌, Option, none,
  some, List, [], ◌∷◌, ◌++◌,
}
use squid_storage.Prelude.Lists.{length}
use squid_storage.Prelude.Key.{Bytes, nat_key}
use squid_storage.Prelude.Map.{Map, find, erase, insert}
use squid_storage.Protocol.Frame.{Fallible, returns, throws, Message, stamp_seq, parse_message}
use squid_storage.Protocol.Message.{make_nack}
use squid_storage.Transport.Channel.{Channel, Written, send_all}
use squid_storage.Transport.Channel.Stream.{stream}
use squid_storage.Transport.Frames.{receive_frame}

-- The members of `SquidProtocol` that the exchange of frames uses, the bytes that are sent, and what
-- the network does in later calls.
pub record Connection : Type 0 where
  pub alive : Bool
  pub next_send_seq : ℕ  -- uint32_t
  pub expected_recv_seq : ℕ  -- uint32_t
  pub last_delivered_seq : ℕ  -- uint32_t
  pub reorder_buffer : Map ℕ Bytes
  pub inbound : Channel
  pub outbound : List Written
  pub sent : Bytes

abbrev pub new_connection : Channel → List Written → Connection
new_connection ch ws = record {
  alive = true;
  next_send_seq = 0;
  expected_recv_seq = 0;
  last_delivered_seq = 0;
  reorder_buffer = [];
  inbound = ch;
  outbound = ws;
  sent = [];
}

-- `nextSendSeq_++` on a `uint32_t`.
abbrev pub next_seq : ℕ → ℕ
next_seq n = suc n % 2 ^ 32

unfoldable pub send_frame : Bytes → Connection → Connection
unfolding send_all stamp_seq
send_frame frame c =
    let (bytes, all_sent, later) = send_all (stamp_seq frame c.next_send_seq) c.outbound in
    record c {
      alive = c.alive && all_sent;
      next_send_seq = next_seq c.next_send_seq;
      outbound = later;
      sent = c.sent ++ bytes;
    }

-- `sendFrame` of a frame that the formatter builds. An exception leaves the connection as it is.
abbrev pub send_built : Fallible Bytes → Connection → Connection
send_built (returns frame) c = send_frame frame c
send_built (throws e) c = c

abbrev pub with_inbound : Connection → Option Bytes × Channel → Option Bytes × Connection
with_inbound c (none, ch) = (none, record c { alive = false; inbound = ch })
with_inbound c (some raw, ch) = (some raw, record c { inbound = ch })

abbrev pub buffered_or_read : Connection → Option Bytes → Option Bytes × Connection
buffered_or_read c none = with_inbound c (receive_frame c.inbound)
buffered_or_read c (some raw) =
    (some raw, record c { reorder_buffer = erase c.expected_recv_seq c.reorder_buffer })

-- `popNextBuffered`, and `receiveFrame` if there is no such frame.
unfoldable pub next_raw : Connection → Option Bytes × Connection
next_raw c = buffered_or_read c (find c.expected_recv_seq c.reorder_buffer)

-- A round of the loop answers, or continues.
pub data Round : Type 0 where
  answers : Message → Round
  again : Round

unfoldable pub in_order : Bytes → Message → Connection → Round × Connection
in_order raw msg c =
    if msg.seq == c.expected_recv_seq
    then (
      answers msg,
      record c { last_delivered_seq = msg.seq; expected_recv_seq = next_seq c.expected_recv_seq },
    )
    else if ltb c.expected_recv_seq msg.seq
    then (again, record c { reorder_buffer = insert msg.seq raw c.reorder_buffer })
    else (again, c)

abbrev pub after_parse : Bytes → Fallible Message → Connection → Round × Connection
after_parse raw (throws e) c = (answers make_nack, c)
after_parse raw (returns msg) c = in_order raw msg c

abbrev pub after_raw : Option Bytes × Connection → Round × Connection
after_raw (none, c) = (answers make_nack, c)
after_raw (some raw, c) = after_parse raw (parse_message raw) c

abbrev pub continue_with :
    Round × Connection → (Connection → Option Message × Connection) → Option Message × Connection
continue_with (answers msg, c) rest = (some msg, c)
continue_with (again, c) rest = rest c

unfoldable pub receive_rounds : ℕ → Connection → Option Message × Connection
receive_rounds zero c = (none, c)
receive_rounds (suc fuel) c = continue_with (after_raw (next_raw c)) (receive_rounds fuel)

-- A round without an answer takes a byte at least from the stream, unless the buffer is at fault.
unfoldable pub receive_and_parse : Connection → Option Message × Connection
receive_and_parse c = receive_rounds (suc (length (stream c.inbound))) c

-- The messages of the next `n` calls.
unfoldable pub receive_many : ℕ → Connection → List (Option Message) × Connection
unfolding receive_and_parse
receive_many zero c = ([], c)
receive_many (suc n) c =
    let (m, d) = receive_and_parse c in let (ms, e) = receive_many n d in (m ∷ ms, e)
