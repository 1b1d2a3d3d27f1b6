-- ===== src/Transport/Transfer/WholeOrNone.antt =====
-- A file that is received to disk is there whole, or not at all.
use squid_storage.Prelude.{
  ℕ, zero, suc, ◌-◌, ◌≤◌, ◌≡◌, refl, ◌∙◌, sym, ap, Bool, true, false, Bool-cases, ◌⊎◌, inl, inr,
  ltb, not-ltb→le, Option, none, some, some-injective, ◌++◌, arith,
}
use squid_storage.Prelude.Lists.{length, length-append}
use squid_storage.Prelude.Key.{Bytes}
use squid_storage.Transport.Channel.{Channel, ◌>>=◌, gives, recv_exact}
use squid_storage.Transport.Channel.Stream.{stream, recv_exact-took}
use squid_storage.Transport.Frames.Parses.{and_then-some, took_both}
use squid_storage.Transport.Transfer.{
  buffer_size, max_size, read_size, chunk_size, receive_chunks, receive_body, size_to_file,
  body_to_file, receive_file,
}
use squid_storage.Transport.Transfer.RoundTrip.{chunk_fits}

receive_chunks_took :
    (buffer fuel n : ℕ) (s : Bytes) (ch left : Channel)
    → receive_chunks buffer fuel n ch ≡ (some s, left)
    → (length s ≡ n) × (stream ch ≡ s ++ stream left)
unfolding receive_chunks
receive_chunks_took buffer fuel zero s ch left e =
    let empty = some-injective (ap (λ r. r.0) e) in
    (sym (ap length empty), ap (λ r. stream r.1) e ∙ ap (λ r. r ++ stream left) empty)
receive_chunks_took buffer zero (suc n) s ch left e = absurd (cc)
receive_chunks_took buffer (suc fuel) (suc n) s ch left e =
    let k = chunk_size buffer (suc n) in
    let (block, d, first, then_more) =
      and_then-some (recv_exact k ch)
        (λ block. receive_chunks buffer fuel (suc n - k) >>= λ more. gives (block ++ more)) s left
        e in
    let (more, d2, second, done) =
      and_then-some (receive_chunks buffer fuel (suc n - k) d) (λ more. gives (block ++ more)) s
        left then_more in
    let (long, front) = recv_exact-took k block ch d first in
    let (rest, back) = receive_chunks_took buffer fuel (suc n - k) more d d2 second in
    let whole = some-injective (ap (λ r. r.0) done) in
    (
      omega
          (arith, long, rest, chunk_fits buffer (suc n), length-append block more, ap length whole),
      took_both block more ch d d2 front back
          ∙ ap (λ r. r ++ stream d2) whole
          ∙ ap (λ r. s ++ stream r.1) done,
    )

-- The file is what follows its size in the stream.
abbrev Whole : Channel → Bool × Option Bytes × Channel → Type 0
Whole ch result =
    (size : Bytes) × (s : Bytes) × (left : Channel) × (result ≡ (true, some s, left))
    × (stream ch ≡ size ++ (s ++ stream left))
    × (length size ≡ 8)
    × (read_size size ≡ length s)
    × (length s ≤ max_size)

abbrev Nothing : Bool × Option Bytes × Channel → Type 0
Nothing result = (result.0 ≡ false) × (result.1 ≡ none)

body_cases :
    (size : Bytes) (ch d : Channel) (r : Option Bytes × Channel)
    → receive_body (read_size size) d ≡ r
    → read_size size ≤ max_size
    → length size ≡ 8
    → stream ch ≡ size ++ stream d
    → Whole ch (body_to_file r) ⊎ Nothing (body_to_file r)
unfolding receive_body
body_cases size ch d (none, left) e small wide front = inr (refl, refl)
body_cases size ch d (some s, left) e small wide front =
    let (long, back) =
      receive_chunks_took buffer_size (read_size size) (read_size size) s d left e in
    inl (
      size,
      s,
      left,
      refl,
      front ∙ ap (λ r. size ++ r) back,
      wide,
      sym long,
      omega (arith, long, small),
    )

size_cases :
    (ch : Channel) (r : Option Bytes × Channel)
    → recv_exact 8 ch ≡ r
    → Whole ch (size_to_file r) ⊎ Nothing (size_to_file r)
size_cases ch (none, d) e = inr (refl, refl)
size_cases ch (some size, d) e =
    let (long, front) = recv_exact-took 8 size ch d e in
    elim (Bool-cases (ltb max_size (read_size size))) [
      | inl b ↦ rw b (inr (refl, refl))
      | inr b ↦ rw b (
          body_cases size ch d (receive_body (read_size size) d) refl
            (not-ltb→le max_size (read_size size) b) long front)
    ]

-- Whatever comes over the connection and wherever it ends, a file that can be opened holds either
-- exactly the bytes that follow a size of eight bytes in the stream, as many as that size says and no more than
-- 1 GiB, and the call succeeds, or it is removed, with what it held before, and the call fails.
pub receive_file-whole_or_none :
    (old : Option Bytes) (ch : Channel)
    → ((size : Bytes) × (s : Bytes) × (left : Channel) × (receive_file true old ch
          ≡ (true, some s, left))
        × (stream ch ≡ size ++ (s ++ stream left))
        × (length size ≡ 8)
        × (read_size size ≡ length s)
        × (length s ≤ max_size))
      ⊎ (((receive_file true old ch).0 ≡ false) × ((receive_file true old ch).1 ≡ none))
unfolding receive_file
receive_file-whole_or_none old ch = size_cases ch (recv_exact 8 ch) refl
