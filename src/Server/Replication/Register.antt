-- ===== src/Server/Replication/Register.antt =====
-- The registration of what a data node holds when it connects.
use squid_storage.Prelude.{
  ◌≡◌, refl, ◌∙◌, ap, Bool, true, false, if◌then◌else◌, Option, none, some, [], ◌∷◌, arith,
  Bool-cases, Option-cases, inl, inr,
}
use squid_storage.Prelude.Key.{Bytes, bytes_key, bytes_eq, bytes_eq_iff}
use squid_storage.Prelude.Int.{ℤ, pos, ltz}
use squid_storage.Prelude.Map.{Map, find}
use squid_storage.Prelude.Map.Laws.{IsOrdered, find-assign, find_before}
use squid_storage.Server.State.{SessionPtr, State}
use squid_storage.Server.Replication.{
  holders_of, hold, persist_state, register_one, register_files, register_data_node_files,
}
use squid_storage.Server.Replication.Calls.{find-hold, holders_of-hold_away}
use squid_storage.Server.Replication.Create.{IsDurable}

-- The version after a report: the reported one if it is higher, where no version counts as 0.
abbrev pub newest : Option ℤ → Option ℤ → Option ℤ
newest none known = known
newest (some v) none = if ltz (pos 0) v then some v else none
newest (some v) (some w) = if ltz w v then some v else some w

-- The session of a data node as a holder after a report.
abbrev pub holder_after : Option ℤ → SessionPtr → Option SessionPtr → Option SessionPtr
holder_after none s old = old
holder_after (some v) s old = some s

register_one-versions :
    (name : Bytes) (s : SessionPtr) (path : Bytes) (v : ℤ) (p : Bytes) (st : State)
    → find p (register_one name s path v st).versions
      ≡ (if bytes_eq path p then newest (some v) (find p st.versions) else find p st.versions)
unfolding register_one
register_one-versions name s path v p st = elim (Option-cases (find path st.versions)) [
  | inl absent ↦
      rw absent (ground (arith, bytes_eq_iff path p, find-assign p path v st.versions, absent))
  | inr (w, there) ↦
      rw there (ground (arith, bytes_eq_iff path p, find-assign p path v st.versions, there))
]

register_one-holders :
    (name : Bytes) (s : SessionPtr) (path : Bytes) (v : ℤ) (p n : Bytes) (st : State)
    → find n (holders_of p (register_one name s path v st)) ≡ (
        if bytes_eq path p
        then (if bytes_eq name n then some s else find n (holders_of p st))
        else find n (holders_of p st))
unfolding register_one
register_one-holders name s path v p n st = only_hold ∙ (elim (Bool-cases (bytes_eq path p)) [
  | inl here ↦ rw (here, ← (bytes_eq_iff path p).0 here) (find-hold path name n s st)
  | inr away ↦ rw away (ap (find n) (holders_of-hold_away p path name s st away))
])
  where
    only_hold :
        find n (holders_of p (register_one name s path v st))
        ≡ find n (holders_of p (hold path name s st))
    only_hold = elim (Option-cases (find path st.versions)) [
      | inl absent ↦
          rw absent (elim (Bool-cases (ltz (pos 0) v)) [
            | inl up ↦ rw up refl
            | inr not_up ↦ rw not_up refl
          ])
      | inr (w, there) ↦
          rw there
            (elim (Bool-cases (ltz w v)) [ inl up ↦ rw up refl | inr not_up ↦ rw not_up refl ])
    ]

files_versions :
    (name : Bytes) (s : SessionPtr) (m : Map Bytes ℤ) (p : Bytes) (st : State)
    → IsOrdered m
    → find p (register_files name s m st).versions ≡ newest (find p m) (find p st.versions)
unfolding register_files find
files_versions name s [] p st o = refl
files_versions name s ((path, v) ∷ m) p st o =
    files_versions name s m p (register_one name s path v st) o.1
    ∙ (elim (Bool-cases (bytes_eq path p)) [
      | inl here ↦
          let same = (bytes_eq_iff path p).0 here in
          rw
            (here, find_before p m (rw same at o.0), register_one-versions name s path v p st, here)
      | inr away ↦ rw (away, register_one-versions name s path v p st, away)
    ])

either : (b : Bool) (x : Option SessionPtr) → (if b then x else x) ≡ x
either true x = refl
either false x = refl

files_holders :
    (name : Bytes) (s : SessionPtr) (m : Map Bytes ℤ) (p n : Bytes) (st : State)
    → IsOrdered m
    → find n (holders_of p (register_files name s m st)) ≡ (
        if bytes_eq name n
        then holder_after (find p m) s (find n (holders_of p st))
        else find n (holders_of p st))
unfolding register_files find
files_holders name s [] p n st o = elim (Bool-cases (bytes_eq name n)) [
  | inl same ↦ rw same refl
  | inr other ↦ rw other refl
]
files_holders name s ((path, v) ∷ m) p n st o =
    files_holders name s m p n (register_one name s path v st) o.1
    ∙ rw (register_one-holders name s path v p n st) (elim (Bool-cases (bytes_eq name n)) [
      | inr other ↦ rw other (either (bytes_eq path p) (find n (holders_of p st)))
      | inl same ↦ rw same (elim (Bool-cases (bytes_eq path p)) [
        | inl here ↦ rw (here, find_before p m (rw ((bytes_eq_iff path p).0 here) at o.0))
        | inr away ↦ rw away refl
      ])
    ])

-- When a data node reports its files, the version of each becomes the higher of the two, the node
-- becomes a holder of exactly the files that it reports, beside those it held, the other holders
-- stay, and the state is saved.
pub register_data_node_files_lem :
    (name : Bytes) (s : SessionPtr) (m : Map Bytes ℤ) (p n : Bytes) (st : State)
    → IsOrdered m
    → let done = register_data_node_files name s m st in
      (find p done.versions ≡ newest (find p m) (find p st.versions))
      × (find n (holders_of p done) ≡ (
          if bytes_eq name n
          then holder_after (find p m) s (find n (holders_of p st))
          else find n (holders_of p st)))
      × IsDurable done
unfolding register_data_node_files persist_state
register_data_node_files_lem name s m p n st o = (
  files_versions name s m p st o,
  files_holders name s m p n st o,
  record { versions_saved = refl; holders_saved = refl },
)
