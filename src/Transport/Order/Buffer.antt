-- ===== src/Transport/Order/Buffer.antt =====
-- The reorder buffer holds the sender's frames under their numbers.
use squid_storage.Prelude.{ℕ, ◌≡◌, ◌∙◌, refl, ap, Option-cases, inl, inr, some, [], ◌∷◌, arith}
use squid_storage.Prelude.Lists.{All}
use squid_storage.Prelude.Key.{Bytes, nat_key}
use squid_storage.Prelude.Map.{Map, find, assign, erase, insert}
use squid_storage.Prelude.Map.Laws.{find-insert_old, find-insert_new}
use squid_storage.Transport.Order.Packets.{Packet, packet_wire}

module _ (sent : ℕ → Packet) where
  abbrev pub IsOwn : ℕ × Bytes → Type 0
  IsOwn entry = entry.1 ≡ packet_wire sent entry.0

  abbrev pub IsSound : Map ℕ Bytes → Type 0
  IsSound m = All IsOwn m

  own_at : (j k : ℕ) (w : Bytes) → IsOwn (j, w) → j ≡ k → w ≡ packet_wire sent k
  own_at j k w h e = h ∙ ap (packet_wire sent) e

  pub find-IsSound :
      (k : ℕ) (raw : Bytes) (m : Map ℕ Bytes)
      → IsSound m
      → find k m ≡ some raw
      → raw ≡ packet_wire sent k
  unfolding find
  find-IsSound k raw [] s h = absurd (cc)
  find-IsSound k raw ((j, w) ∷ m) s h =
      ground (arith, h, own_at j k w, s.0, find-IsSound k raw m s.1)

  pub erase-IsSound : (k : ℕ) (m : Map ℕ Bytes) → IsSound m → IsSound (erase k m)
  unfolding erase
  erase-IsSound k [] s = tt
  erase-IsSound k ((j, w) ∷ m) s = ground (arith, erase-IsSound k m s.1)

  assign-IsSound : (k : ℕ) (m : Map ℕ Bytes) → IsSound m → IsSound (assign k (packet_wire sent k) m)
  unfolding assign
  assign-IsSound k [] s = (refl, tt)
  assign-IsSound k ((j, w) ∷ m) s = ground (arith, assign-IsSound k m s.1)

  pub insert-IsSound :
      (k : ℕ) (m : Map ℕ Bytes) → IsSound m → IsSound (insert k (packet_wire sent k) m)
  unfolding insert
  insert-IsSound k m s = elim (Option-cases (find k m)) [
    | inl e ↦ rw (e, insert) (assign-IsSound k m s)
    | inr (w, e) ↦ rw (e, insert) s
  ]

  -- The frame is there once it was inserted.
  pub find-insert_own :
      (k : ℕ) (m : Map ℕ Bytes)
      → IsSound m
      → find k (insert k (packet_wire sent k) m) ≡ some (packet_wire sent k)
  find-insert_own k m s = elim (Option-cases (find k m)) [
    | inl e ↦ find-insert_new k (packet_wire sent k) m e
    | inr (w, e) ↦
        rw (find-insert_old k (packet_wire sent k) w m e) (e ∙ ap some (find-IsSound k w m s e))
  ]
