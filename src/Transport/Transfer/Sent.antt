-- ===== src/Transport/Transfer/Sent.antt =====
-- A file that was sent was sent whole, after its size.
use squid_storage.Prelude.{
  ℕ, zero, suc, ◌≤◌, ◌≡◌, refl, ◌∙◌, sym, ap, true, false, true≢false, Bool-cases, inl, inr, ltb,
  not-ltb→le, List, [], ◌∷◌, ◌++◌, arith,
}
use squid_storage.Prelude.Lists.{length, take, drop, length-drop, take-append_drop}
use squid_storage.Prelude.Key.{Bytes}
use squid_storage.Transport.Channel.{Written, send_all}
use squid_storage.Transport.Channel.Sending.{send_all_complete}
use squid_storage.Transport.Transfer.{
  buffer_size, max_size, size_bytes, Sending, then_send, send_chunks, send_file_data,
}

then_send-whole :
    (s t : Bytes) (r : Sending) (more : List Written → Sending)
    → (then_send r more).1 ≡ true
    → (r.1 ≡ true → r.0 ≡ s)
    → ((ws : List Written) → (more ws).1 ≡ true → (more ws).0 ≡ t)
    → (then_send r more).0 ≡ s ++ t
then_send-whole s t (u, false, ws) more h first second = absurd (cc)
then_send-whole s t (u, true, ws) more h first second =
    ap (λ r. r ++ (more ws).0) (first refl) ∙ ap (λ r. s ++ r) (second ws h)

send_chunks-whole :
    (buffer fuel : ℕ) (s : Bytes) (ws : List Written)
    → 1 ≤ buffer
    → length s ≤ fuel
    → (send_chunks buffer fuel s ws).1 ≡ true
    → (send_chunks buffer fuel s ws).0 ≡ s
unfolding send_chunks
send_chunks-whole buffer fuel [] ws p l h = refl
send_chunks-whole buffer zero (b ∷ s) ws p l h = absurd (omega (arith, l))
send_chunks-whole buffer (suc fuel) (b ∷ s) ws p l h =
    then_send-whole (take buffer (b ∷ s)) (drop buffer (b ∷ s)) (send_all (take buffer (b ∷ s)) ws)
      (send_chunks buffer fuel (drop buffer (b ∷ s))) h (send_all_complete (take buffer (b ∷ s)) ws)
      (λ later.
        send_chunks-whole buffer fuel (drop buffer (b ∷ s)) later p
          (omega (arith, p, l, length-drop buffer (b ∷ s))))
    ∙ take-append_drop buffer (b ∷ s)

-- The bytes of a file with its size before them.
abbrev pub sized : Bytes → Bytes
sized s = size_bytes (length s) ++ s

too_large :
    (s : Bytes) (ws : List Written)
    → ltb max_size (length s) ≡ true
    → (send_file_data s ws).1 ≡ false
unfolding send_file_data
too_large s ws e = rw e

small_enough :
    (s : Bytes) (ws : List Written)
    → ltb max_size (length s) ≡ false
    → send_file_data s ws
      ≡ then_send (send_all (size_bytes (length s)) ws) (send_chunks buffer_size (length s) s)
unfolding send_file_data
small_enough s ws e = rw e

sent_whole :
    (s : Bytes) (ws : List Written)
    → (then_send (send_all (size_bytes (length s)) ws) (send_chunks buffer_size (length s) s)).1
      ≡ true
    → (then_send (send_all (size_bytes (length s)) ws) (send_chunks buffer_size (length s) s)).0
      ≡ sized s
sent_whole s ws h =
    let size = size_bytes (length s) in
    then_send-whole size s (send_all size ws) (send_chunks buffer_size (length s) s) h
      (send_all_complete size ws)
      (λ later. send_chunks-whole buffer_size (length s) s later (omega arith) (omega arith))

pub send_file_data-whole :
    (s : Bytes) (ws : List Written)
    → (send_file_data s ws).1 ≡ true
    → (length s ≤ max_size) × ((send_file_data s ws).0 ≡ sized s)
send_file_data-whole s ws h = elim (Bool-cases (ltb max_size (length s))) [
  | inl e ↦ absurd (true≢false (sym h ∙ too_large s ws e))
  | inr e ↦ (
    not-ltb→le max_size (length s) e,
    ap (λ r. r.0) (small_enough s ws e)
        ∙ sent_whole s ws (sym (ap (λ r. r.1) (small_enough s ws e)) ∙ h),
  )
]
