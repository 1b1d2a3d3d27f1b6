-- ===== src/Transport/Transfer/RoundTrip.antt =====
-- A file that was sent is received as it was, in whatever chunks.
use squid_storage.Prelude.{
  ℕ, zero, suc, ◌-◌, ◌≤◌, ◌≡◌, refl, ◌∙◌, sym, ap, subst, true, le→not-ltb, Option, some, List, [],
  ◌∷◌, ◌++◌, append_assoc, arith,
}
use squid_storage.Prelude.Lists.{length, take, drop, length-drop, length-take, take-append_drop}
use squid_storage.Prelude.Key.{Bytes}
use squid_storage.Transport.Channel.{Channel, Written, ◌>>=◌, gives, recv_exact}
use squid_storage.Transport.Channel.Stream.{stream, Yields, Yields-then, recv_exact-front}
use squid_storage.Transport.Transfer.{
  buffer_size, max_size, size_bytes, read_size, chunk_size, send_file_data, receive_chunks,
  receive_body, size_to_data, body_to_data, receive_file_data, size_to_file, body_to_file,
  receive_file,
}
use squid_storage.Transport.Transfer.Sent.{sized, send_file_data-whole}

read_size-size_bytes : (n : ℕ) → n ≤ max_size → read_size (size_bytes n) ≡ n
unfolding read_size size_bytes
read_size-size_bytes n h = omega (arith, h)

pub chunk_fits : (buffer n : ℕ) → chunk_size buffer n ≤ n
chunk_fits buffer n = ground arith

chunk_moves : (buffer n : ℕ) → 1 ≤ buffer → 1 ≤ n → 1 ≤ chunk_size buffer n
chunk_moves buffer n h k = ground (arith, h, k)

receive_chunks-front :
    (buffer fuel : ℕ) (s rest : Bytes) (ch : Channel)
    → 1 ≤ buffer
    → length s ≤ fuel
    → stream ch ≡ s ++ rest
    → Yields (receive_chunks buffer fuel (length s)) ch s rest
unfolding receive_chunks
receive_chunks-front buffer fuel [] rest ch p l e = (ch, refl, e)
receive_chunks-front buffer zero (b ∷ s) rest ch p l e = absurd (omega (arith, l))
receive_chunks-front buffer (suc fuel) (b ∷ s) rest ch p l e =
    let n = length (b ∷ s) in
    let k = chunk_size buffer n in
    let block = take k (b ∷ s) in
    let later = drop k (b ∷ s) in
    let whole = take-append_drop k (b ∷ s) in
    let fits = chunk_fits buffer n in
    let moves = chunk_moves buffer n p (omega arith) in
    let long : length block ≡ k = omega (arith, fits, length-take k (b ∷ s)) in
    let short : length later ≡ n - k = omega (arith, fits, length-drop k (b ∷ s)) in
    Yields-then (recv_exact k)
      (λ r. receive_chunks buffer fuel (n - k) >>= λ more. gives (r ++ more)) ch block (b ∷ s)
      (later ++ rest) rest
      (subst (λ i. Yields (recv_exact i) ch block (later ++ rest)) long
        (recv_exact-front block (later ++ rest) ch
          (e ∙ ap (λ r. r ++ rest) (sym whole) ∙ append_assoc block later rest)))
      (λ d at.
        Yields-then (receive_chunks buffer fuel (n - k)) (λ more. gives (block ++ more)) d later
          (b ∷ s) rest rest
          (subst (λ i. Yields (receive_chunks buffer fuel i) d later rest) short
            (receive_chunks-front buffer fuel later rest d p (omega (arith, l, moves, short)) at))
          (λ left stays. (left, ap (λ r. (some r, left)) whole, stays)))

receive_body-front :
    (s rest : Bytes) (ch : Channel)
    → stream ch ≡ s ++ rest
    → Yields (receive_body (length s)) ch s rest
unfolding receive_body
receive_body-front s rest ch e =
    receive_chunks-front buffer_size (length s) s rest ch (omega arith) (omega arith) e

-- The size is read, and the body is what comes after it.
size_then :
    (s rest : Bytes) (ch : Channel)
    → stream ch ≡ sized s ++ rest
    → Yields (recv_exact 8) ch (size_bytes (length s)) (s ++ rest)
unfolding size_bytes
size_then s rest ch e = recv_exact-front (size_bytes (length s)) (s ++ rest) ch e

sized_to_data :
    (old s rest : Bytes) (d : Channel)
    → length s ≤ max_size
    → stream d ≡ s ++ rest
    → (left : Channel) × (size_to_data old (some (size_bytes (length s)), d) ≡ (true, s, left))
      × (stream left ≡ rest)
sized_to_data old s rest d h e =
    let (left, run, stays) = receive_body-front s rest d e in
    (
      left,
      rw (read_size-size_bytes (length s) h, le→not-ltb max_size (length s) h)
          (ap body_to_data run),
      stays,
    )

sized_to_file :
    (s rest : Bytes) (d : Channel)
    → length s ≤ max_size
    → stream d ≡ s ++ rest
    → (left : Channel) × (size_to_file (some (size_bytes (length s)), d) ≡ (true, some s, left))
      × (stream left ≡ rest)
sized_to_file s rest d h e =
    let (left, run, stays) = receive_body-front s rest d e in
    (
      left,
      rw (read_size-size_bytes (length s) h, le→not-ltb max_size (length s) h)
          (ap body_to_file run),
      stays,
    )

-- If a file was sent whole and what was sent reaches the peer, cut anywhere and with other bytes
-- behind it, then the peer receives the file, to memory or to a file that it can open, whatever was
-- there before, and the bytes behind stay for the next read.
pub receive_file-send_file_data :
    (s old rest : Bytes) (old_file : Option Bytes) (ws : List Written) (ch : Channel)
    → (send_file_data s ws).1 ≡ true
    → stream ch ≡ (send_file_data s ws).0 ++ rest
    → ((left : Channel) × (receive_file_data old ch ≡ (true, s, left)) × (stream left ≡ rest))
      × ((left : Channel) × (receive_file true old_file ch ≡ (true, some s, left))
          × (stream left ≡ rest))
unfolding receive_file_data receive_file
receive_file-send_file_data s old rest old_file ws ch sent e =
    let (small, whole) = send_file_data-whole s ws sent in
    let (d, first, at) = size_then s rest ch (e ∙ ap (λ r. r ++ rest) whole) in
    let (left, run, stays) = sized_to_data old s rest d small at in
    let (left2, run2, stays2) = sized_to_file s rest d small at in
    (
      (left, ap (size_to_data old) first ∙ run, stays),
      (left2, ap size_to_file first ∙ run2, stays2),
    )
