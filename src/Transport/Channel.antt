-- ===== src/Transport/Channel.antt =====
-- common/src/networking/INetworkChannel.hpp as its users see it, and the loops that read and write
-- all bytes of a block: recvExact and sendFrame of common/src/squidprotocol/squidprotocol.cpp,
-- recvAll and sendAll of common/src/filesystem/filetransfer.cpp. What the network does is data.
pub mod Stream
pub mod Sending
use squid_storage.Prelude.{
  ℕ, zero, suc, ◌-◌, Bool, true, false, ◌==◌, if◌then◌else◌, Option, none, some, List, [], ◌∷◌,
  ◌++◌,
}
use squid_storage.Prelude.Lists.{length, take, drop}
use squid_storage.Prelude.Key.{Bytes}

-- What the next call of `readBytes` finds: bytes that are there, none of them at the end of the
-- connection, or an error such as a timeout.
pub data Delivery : Type 0 where
  arrived : Bytes → Delivery
  broken : Delivery

abbrev pub Channel : Type 0
Channel = List Delivery

-- The result of `readBytes`: a positive number of bytes, 0 or -1.
pub data Received : Type 0 where
  received : Bytes → Received
  closed failed : Received

abbrev pub put_back : Bytes → Channel → Channel
put_back [] ch = ch
put_back (b ∷ s) ch = arrived (b ∷ s) ∷ ch

-- At most `n` bytes, and never bytes of two deliveries.
abbrev pub read_bytes : ℕ → Channel → Received × Channel
read_bytes n [] = (closed, [])
read_bytes n (broken ∷ ch) = (failed, ch)
read_bytes n (arrived [] ∷ ch) = (closed, arrived [] ∷ ch)
read_bytes n (arrived (b ∷ s) ∷ ch) = (received (take n (b ∷ s)), put_back (drop n (b ∷ s)) ch)

abbrev pub count : Received → ℕ
count (received s) = length s
count _ = 0

abbrev pub joined : Received → Channel → Received × Channel → Received × Channel
joined (received s) ch (received t, rest) = (received (s ++ t), rest)
joined (received s) ch (r, rest) = (r, rest)
joined r ch more = (r, ch)

-- `recvAll`: the rounds until `n` bytes are there. A round reads at least one byte, so `n` rounds
-- are enough.
unfoldable pub recv_loop : ℕ → ℕ → Channel → Received × Channel
recv_loop fuel zero ch = (received [], ch)
recv_loop zero (suc n) ch = (failed, ch)
recv_loop (suc fuel) (suc n) ch =
    let (r, rest) = read_bytes (suc n) ch in joined r rest (recv_loop fuel (suc n - count r) rest)

unfoldable pub recv_all : ℕ → Channel → Received × Channel
recv_all n ch = recv_loop n n ch

-- Code that reads from a channel and may fail.
abbrev pub Reader {ℓ} : Type ℓ → Type ℓ
Reader A = Channel → Option A × Channel

abbrev pub and_then {ℓ κ} :
    {A : Type ℓ} {B : Type κ} → Option A × Channel → (A → Reader B) → Option B × Channel
and_then (none, ch) f = (none, ch)
and_then (some a, ch) f = f a ch

infixl 5 ◌>>=◌
abbrev pub ◌>>=◌ {ℓ κ} : {A : Type ℓ} {B : Type κ} → Reader A → (A → Reader B) → Reader B
◌>>=◌ m f ch = and_then (m ch) f

abbrev pub give_up {ℓ} : {A : Type ℓ} → Reader A
give_up ch = (none, ch)

abbrev pub gives {ℓ} : {A : Type ℓ} → A → Reader A
gives a ch = (some a, ch)

abbrev pub as_option : Received × Channel → Option Bytes × Channel
as_option (received s, ch) = (some s, ch)
as_option (r, ch) = (none, ch)

-- `recvExact`, and `recvAll` with `handleErrors`.
unfoldable pub recv_exact : ℕ → Reader Bytes
recv_exact n ch = as_option (recv_all n ch)

-- The result of `writeBytes`: how many bytes the network took, or -1.
pub data Written : Type 0 where
  took : ℕ → Written
  refused : Written

-- `sendAll` and the loop of `sendFrame`: what was sent, whether it was all, and what the network
-- does later.
unfoldable pub send_all : Bytes → List Written → Bytes × Bool × List Written
send_all [] ws = ([], true, ws)
send_all (b ∷ s) [] = ([], false, [])
send_all (b ∷ s) (refused ∷ ws) = ([], false, ws)
send_all (b ∷ s) (took zero ∷ ws) = ([], false, ws)
send_all (b ∷ s) (took (suc k) ∷ ws) =
    let (sent, all_sent, rest) = send_all (drop k s) ws in (b ∷ take k s ++ sent, all_sent, rest)
