-- ===== src/Standby/Watcher/Snapshots.antt =====
-- The snapshot of the primary reaches the server that stands by, as its maps.
use squid_storage.Prelude.{
  ℕ, ◌^◌, ◌≤◌, ◌<◌, ◌≡◌, refl, ◌∙◌, sym, ap, Bool-cases, inl, inr, List, [], ◌∷◌, ◌++◌, append-nil,
  arith, le→not-ltb,
}
use squid_storage.Prelude.Lists.{length, All}
use squid_storage.Prelude.Key.{Bytes, bytes_key, bytes_eq, bytes_before}
use squid_storage.Prelude.Int.{ℤ, IsInt}
use squid_storage.Prelude.Map.{Map, find, assign}
use squid_storage.Prelude.Map.Laws.{IsOrdered, assign-append}
use squid_storage.Prelude.Text.Lines.{IsWord}
use squid_storage.Protocol.Opcode.{state_snap, epoch, field_of, opcode_of}
use squid_storage.Protocol.Frame.{returns, Message}
use squid_storage.Protocol.Frame.RoundTrip.{IsField, Fits, read_u32-push_u32}
use squid_storage.Protocol.Message.{field_uint32, get_uint32}
use squid_storage.Protocol.Format.Deliver.{deliver, arrived, deliver-build_frame}
use squid_storage.Standby.Snapshot.{snap_text, nodes_or_none, snap_entries, state_snap_format}
use squid_storage.Standby.Snapshot.RoundTrip.{IsName, IsNameSet, parse_snap_entry-snap_text}
use squid_storage.Standby.Watcher.{
  Watcher, with_entry, snap_maps, observe, apply_snap, renews, receive,
}

module _ (holders : Map Bytes (List Bytes)) where
  abbrev pub nodes_of : Bytes → List Bytes
  nodes_of p = nodes_or_none (find p holders)

  -- A file that an entry can hold.
  abbrev pub IsSnap : Map Bytes ℤ → Type 0
  IsSnap [] = Unit
  IsSnap ((p, v) ∷ m) =
      IsWord p
      × IsInt v
      × All IsName (nodes_of p)
      × IsNameSet (nodes_of p)
      × (length (snap_text p v (nodes_of p)) ≤ 65535)
      × IsSnap m

  -- The files of `m` with their data nodes.
  abbrev pub with_nodes_of : Map Bytes ℤ → Map Bytes (List Bytes)
  with_nodes_of [] = []
  with_nodes_of ((p, v) ∷ m) = (p, nodes_of p) ∷ with_nodes_of m

  assign-with_nodes_of :
      (p : Bytes) (v : ℤ) (m : Map Bytes ℤ)
      → assign p (nodes_of p) (with_nodes_of m) ≡ with_nodes_of (assign p v m)
  unfolding assign
  assign-with_nodes_of p v [] = refl
  assign-with_nodes_of p v ((q, u) ∷ m) = elim (Bool-cases (bytes_eq q p)) [
    | inl e ↦ rw e
    | inr e ↦ elim (Bool-cases (bytes_before p q)) [
      | inl b ↦ rw (e, b)
      | inr b ↦ rw (e, b) (ap (λ r. (q, nodes_of q) ∷ r) (assign-with_nodes_of p v m))
    ]
  ]

  snap_maps-snap_entries :
      (m xs : Map Bytes ℤ)
      → IsSnap m
      → IsOrdered (xs ++ m)
      → snap_maps (snap_entries m holders) (xs, with_nodes_of xs)
        ≡ (xs ++ m, with_nodes_of (xs ++ m))
  unfolding snap_maps snap_entries
  snap_maps-snap_entries [] xs s o = ap (λ r. (r, with_nodes_of r)) (sym (append-nil xs))
  snap_maps-snap_entries ((p, v) ∷ m) xs s o =
      let rest = snap_entries m holders in
      let moved = assign-append p v xs m o in
      ap (λ r. snap_maps rest (with_entry r (xs, with_nodes_of xs)))
        (parse_snap_entry-snap_text p v (nodes_of p) s.0 s.1 s.2 s.3)
      ∙ ap (λ r. snap_maps rest (assign p v xs, r)) (assign-with_nodes_of p v xs)
      ∙ snap_maps-snap_entries m (assign p v xs) s.5 (rw moved o)
      ∙ ap (λ r. (r, with_nodes_of r)) moved

  snap_entries-IsField : (m : Map Bytes ℤ) → All IsField (snap_entries m holders)
  unfolding snap_entries field_of
  snap_entries-IsField [] = tt
  snap_entries-IsField ((p, v) ∷ m) = (refl, snap_entries-IsField m)

  snap_entries-Fits : (m : Map Bytes ℤ) → IsSnap m → All Fits (snap_entries m holders)
  unfolding snap_entries
  snap_entries-Fits [] s = tt
  snap_entries-Fits ((p, v) ∷ m) s = (s.4, snap_entries-Fits m s.5)

  length-snap_entries : (m : Map Bytes ℤ) → length (snap_entries m holders) ≡ length m
  unfolding snap_entries
  length-snap_entries [] = refl
  length-snap_entries ((p, v) ∷ m) = omega (arith, length-snap_entries m)

-- The snapshot of a primary whose epoch is no lower than the one that the server has seen arrives
-- whole, and the server then has the primary's map of versions, each of its files with the
-- primary's data nodes, and its epoch. This is so if there are at most 254 files, no path has a
-- space, the names of the data nodes of a file have neither a space nor a comma and are in the
-- order of a set, and the entry of each file has at most 65535 bytes.
pub receive-state_snap :
    (versions : Map Bytes ℤ) (holders : Map Bytes (List Bytes)) (e seq : ℕ) (w : Watcher)
    → IsOrdered versions
    → IsSnap holders versions
    → length versions ≤ 254
    → e < 2 ^ 32
    → seq < 2 ^ 32
    → w.observed_epoch ≤ e
    → (m : Message) × (deliver (state_snap_format versions holders e) seq ≡ returns m)
      × (receive m w ≡ (
        observe e (record w { version_map = versions; rep_map = with_nodes_of holders versions }),
        renews,
      ))
unfolding state_snap_format receive apply_snap snap_maps get_uint32
receive-state_snap versions holders e seq w o s n he hs l =
    let fields = field_uint32 epoch e ∷ snap_entries versions holders in
    (
      arrived state_snap 0 seq fields,
      deliver-build_frame state_snap 0 seq fields (unfold opcode_of in refl) hs
          (omega (arith, n, length-snap_entries holders versions))
          (unfold field_of in refl, snap_entries-IsField holders versions)
          (omega arith, snap_entries-Fits holders versions s),
      rw (read_u32-push_u32 e he, le→not-ltb e w.observed_epoch l)
          (ap (λ maps. (observe e (record w { version_map = maps.0; rep_map = maps.1 }), renews))
            (snap_maps-snap_entries holders versions [] s o)),
    )
