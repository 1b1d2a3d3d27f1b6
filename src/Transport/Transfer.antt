-- ===== src/Transport/Transfer.antt =====
-- common/src/filesystem/filetransfer.cpp: a file is sent as its size in 8 bytes and its bytes in
-- chunks, without a frame around them.
pub mod Sent
pub mod RoundTrip
pub mod WholeOrNone
use squid_storage.Prelude.{
  ℕ, zero, suc, ◌+◌, ◌-◌, ◌*◌, ◌/◌, ◌%◌, ◌^◌, Bool, true, false, ltb, if◌then◌else◌, Option, none,
  some, List, [], ◌∷◌, ◌++◌,
}
use squid_storage.Prelude.Lists.{length, take, drop}
use squid_storage.Prelude.Key.{Bytes}
use squid_storage.Transport.Channel.{
  Channel, Reader, ◌>>=◌, gives, give_up, recv_exact, Written, send_all,
}

-- `BUFFER_SIZE`, which the loops take as an argument.
abbrev pub buffer_size : ℕ
buffer_size = 1024 * 1024

-- `FILETRANSFER_MAX_SIZE`.
abbrev pub max_size : ℕ
max_size = 2 ^ 30

-- `sizebuf`, the highest byte first, and the size read from it.
unfoldable pub size_bytes : ℕ → Bytes
size_bytes n =
    (n / 2 ^ 56 % 256)
    ∷ (n / 2 ^ 48 % 256)
    ∷ (n / 2 ^ 40 % 256)
    ∷ (n / 2 ^ 32 % 256)
    ∷ (n / 2 ^ 24 % 256)
    ∷ (n / 2 ^ 16 % 256)
    ∷ (n / 2 ^ 8 % 256)
    ∷ (n % 256)
    ∷ []

unfoldable pub read_size : Bytes → ℕ
read_size (a ∷ b ∷ c ∷ d ∷ e ∷ f ∷ g ∷ h ∷ []) =
    a * 2 ^ 56 + b * 2 ^ 48 + c * 2 ^ 40 + d * 2 ^ 32 + e * 2 ^ 24 + f * 2 ^ 16 + g * 2 ^ 8 + h
read_size _ = 0

-- What was sent, whether it was all, and what the network does later.
abbrev pub Sending : Type 0
Sending = Bytes × Bool × List Written

abbrev pub joined_sending : Bytes → Sending → Sending
joined_sending s (t, all_sent, ws) = (s ++ t, all_sent, ws)

-- The code goes on only if all was sent.
abbrev pub then_send : Sending → (List Written → Sending) → Sending
then_send (s, false, ws) more = (s, false, ws)
then_send (s, true, ws) more = joined_sending s (more ws)

-- The loop over the chunks, of which there are at most as many as bytes.
unfoldable pub send_chunks : ℕ → ℕ → Bytes → List Written → Sending
send_chunks buffer fuel [] ws = ([], true, ws)
send_chunks buffer zero (b ∷ s) ws = ([], false, ws)
send_chunks buffer (suc fuel) (b ∷ s) ws =
    then_send (send_all (take buffer (b ∷ s)) ws) (send_chunks buffer fuel (drop buffer (b ∷ s)))

-- `sendFile` of data.
unfoldable pub send_file_data : Bytes → List Written → Sending
send_file_data contents ws =
    if ltb max_size (length contents)
    then ([], false, ws)
    else then_send (send_all (size_bytes (length contents)) ws)
        (send_chunks buffer_size (length contents) contents)

-- `sendFile` of a file, of which there is nothing if it cannot be opened. It reads the same chunks.
unfoldable pub send_file : Option Bytes → List Written → Sending
send_file none ws = ([], false, ws)
send_file (some contents) ws = send_file_data contents ws

abbrev pub chunk_size : ℕ → ℕ → ℕ
chunk_size buffer remaining = if ltb buffer remaining then buffer else remaining

unfoldable pub receive_chunks : ℕ → ℕ → ℕ → Reader Bytes
receive_chunks buffer fuel zero = gives []
receive_chunks buffer zero (suc n) = give_up
receive_chunks buffer (suc fuel) (suc n) = recv_exact (chunk_size buffer (suc n)) >>= λ block.
    receive_chunks buffer fuel (suc n - chunk_size buffer (suc n)) >>= λ more. gives (block ++ more)

unfoldable pub receive_body : ℕ → Reader Bytes
receive_body size = receive_chunks buffer_size size size

-- `receiveFile` to memory: whether it succeeded, and `data` afterwards, which is left as it was if
-- there is no size or too large a one.
abbrev pub body_to_data : Option Bytes × Channel → Bool × Bytes × Channel
body_to_data (none, ch) = (false, [], ch)
body_to_data (some s, ch) = (true, s, ch)

abbrev pub size_to_data : Bytes → Option Bytes × Channel → Bool × Bytes × Channel
size_to_data contents (none, ch) = (false, contents, ch)
size_to_data contents (some s, ch) =
    if ltb max_size (read_size s)
    then (false, contents, ch)
    else body_to_data (receive_body (read_size s) ch)

unfoldable pub receive_file_data : Bytes → Channel → Bool × Bytes × Channel
unfolding read_size receive_body
receive_file_data contents ch = size_to_data contents (recv_exact 8 ch)

-- `receiveFile` to a file: what the file holds afterwards, or nothing if it is removed. If it cannot
-- be opened, nothing is read and it stays as it was.
abbrev pub body_to_file : Option Bytes × Channel → Bool × Option Bytes × Channel
body_to_file (none, ch) = (false, none, ch)
body_to_file (some s, ch) = (true, some s, ch)

abbrev pub size_to_file : Option Bytes × Channel → Bool × Option Bytes × Channel
size_to_file (none, ch) = (false, none, ch)
size_to_file (some s, ch) =
    if ltb max_size (read_size s)
    then (false, none, ch)
    else body_to_file (receive_body (read_size s) ch)

unfoldable pub receive_file : Bool → Option Bytes → Channel → Bool × Option Bytes × Channel
receive_file opens file ch = if opens then size_to_file (recv_exact 8 ch) else (false, file, ch)
