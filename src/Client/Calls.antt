-- ===== src/Client/Calls.antt =====
-- The operations of common/src/squidprotocol/squidprotocol.cpp that a session runs for a client: a
-- request, its answer, and a file between them. A call gives
-- nothing where it throws, since its request cannot be built.
use squid_storage.Prelude.{
  ℕ, zero, suc, Bool, true, false, ◌||◌, if◌then◌else◌, Option, none, some, [], ◌++◌,
}
use squid_storage.Prelude.Key.{Bytes}
use squid_storage.Prelude.Int.{ℤ}
use squid_storage.Protocol.Opcode.{
  Opcode, heartbeat, push_create_file, push_update_file, push_delete_file,
}
use squid_storage.Protocol.Frame.{Fallible, returns, throws, Message}
use squid_storage.Protocol.Message.{is_ack, is_response, make_ack, make_nack}
use squid_storage.Protocol.Format.{
  create_file_format, read_file_format, update_file_format, delete_file_format, acquire_lock_format,
  release_lock_format, heartbeat_format, close_format, sync_status_format, identify_format,
  connect_server_format, response_ack,
}
use squid_storage.Transport.Channel.{Channel}
use squid_storage.Transport.Order.{Connection, send_frame, send_built, receive_and_parse}
use squid_storage.Transport.Transfer.{Sending, send_file_data, receive_file_data}

abbrev pub Answered : Type 0
Answered = Option Message × Connection

-- A request that is only answered: `identify`, `connectServer`, `deleteFile`, `acquireLock`,
-- `releaseLock` and `heartbeat`.
unfoldable pub ask : Fallible Bytes → Connection → Answered
ask (returns frame) c = receive_and_parse (send_frame frame c)
ask (throws e) c = (none, c)

unfoldable pub ask_identify : Connection → Answered
unfolding ask
ask_identify c = ask identify_format c

unfoldable pub ask_connect_server : Connection → Answered
unfolding ask
ask_connect_server c = ask connect_server_format c

unfoldable pub ask_heartbeat : Connection → Answered
unfolding ask
ask_heartbeat c = ask heartbeat_format c

unfoldable pub ask_delete_file : Bytes → Connection → Answered
unfolding ask
ask_delete_file path c = ask (delete_file_format path) c

unfoldable pub ask_acquire_lock : Bytes → Connection → Answered
unfolding ask
ask_acquire_lock path c = ask (acquire_lock_format path) c

unfoldable pub ask_release_lock : Bytes → Connection → Answered
unfolding ask
ask_release_lock path c = ask (release_lock_format path) c

-- `closeConn` does not wait for an answer.
unfoldable pub close_conn : Connection → Message × Connection
close_conn c = (make_ack, record (send_built close_format c) { alive = false; inbound = [] })

-- Goes on after `waitForAck`, with the answer itself if it is no ACK.
abbrev pub if_ack : Answered → (Connection → Answered) → Answered
if_ack (none, c) rest = (none, c)
if_ack (some m, c) rest = if is_ack m then rest c else (some m, c)

abbrev pub after_sending : Connection → Sending → Answered
after_sending c (bytes, true, later) =
    receive_and_parse (record c { sent = c.sent ++ bytes; outbound = later })
after_sending c (bytes, false, later) =
    (some make_nack, record c { sent = c.sent ++ bytes; outbound = later })

unfoldable pub send_after_ack : Bytes → Connection → Answered
send_after_ack contents c = after_sending c (send_file_data contents c.outbound)

-- `createFile` and `updateFile` with the bytes of the file.
unfoldable pub call_create_file : Bytes → ℤ → Bytes → Connection → Answered
unfolding ask send_after_ack
call_create_file path v contents c =
    if_ack (ask (create_file_format path v) c) (send_after_ack contents)

unfoldable pub call_update_file : Bytes → ℤ → Bytes → Connection → Answered
unfolding ask send_after_ack
call_update_file path v contents c =
    if_ack (ask (update_file_format path v) c) (send_after_ack contents)

-- `readFile`: the answer, and the bytes that the caller's vector then has.
abbrev pub with_bytes : Bytes → Answered → Option Message × Bytes × Connection
with_bytes bytes (m, c) = (m, bytes, c)

abbrev pub after_receiving :
    Connection → Bool × Bytes × Channel → Option Message × Bytes × Connection
after_receiving c (true, bytes, ch) =
    with_bytes bytes (receive_and_parse (record c { inbound = ch }))
after_receiving c (false, bytes, ch) = (some make_nack, bytes, record c { inbound = ch })

abbrev pub receive_if_ack : Bytes → Answered → Option Message × Bytes × Connection
receive_if_ack old (none, c) = (none, old, c)
receive_if_ack old (some m, c) =
    if is_ack m then after_receiving c (receive_file_data old c.inbound) else (some m, old, c)

unfoldable pub call_read_file : Bytes → Bytes → Connection → Option Message × Bytes × Connection
unfolding ask
call_read_file path old c = receive_if_ack old (ask (read_file_format path) c)

-- What the loop of `syncStatus` does with a message that is no answer: it goes on, or stops with it.
abbrev pub skipped : Connection → Bool × Bytes × Channel → Connection
skipped c (ok, bytes, ch) = record c { inbound = ch }

abbrev pub passed_over : Opcode → Connection → Option Connection
passed_over push_create_file c = some (skipped c (receive_file_data [] c.inbound))
passed_over push_update_file c = some (skipped c (receive_file_data [] c.inbound))
passed_over push_delete_file c = some c
passed_over heartbeat c = some (send_built (response_ack true) c)
passed_over _ c = none

abbrev pub stop_or_go :
    Message → Connection → Option Connection → (Connection → Answered) → Answered
stop_or_go m c none rest = (some m, record c { alive = false })
stop_or_go m c (some d) rest = rest d

abbrev pub until_answer : Answered → (Connection → Answered) → Answered
until_answer (none, c) rest = (none, c)
until_answer (some m, c) rest =
    if is_response m || is_ack m then (some m, c) else stop_or_go m c (passed_over m.opcode c) rest

unfoldable pub sync_rounds : ℕ → Connection → Answered
sync_rounds zero c = (none, c)
sync_rounds (suc fuel) c = until_answer (receive_and_parse c) (sync_rounds fuel)

-- A server could push for ever, so the number of messages that are read is an argument.
unfoldable pub call_sync_status : ℕ → Connection → Answered
unfolding sync_rounds
call_sync_status rounds c = sync_rounds rounds (send_built sync_status_format c)
