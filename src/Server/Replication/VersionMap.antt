-- ===== src/Server/Replication/VersionMap.antt =====
-- The versions that a client is told of: the highest that the server or a live data node knows.
use squid_storage.Prelude.{
  ℕ, ◌≡◌, refl, ◌∙◌, none, some, [], ◌∷◌, arith, Bool-cases, Option-cases, inl, inr,
}
use squid_storage.Prelude.Key.{Bytes, bytes_key, bytes_eq, bytes_eq_iff}
use squid_storage.Prelude.Int.{ℤ, maxz, ◌≤ℤ◌}
use squid_storage.Prelude.Map.{Map, find}
use squid_storage.Prelude.Map.Laws.{find-assign}
use squid_storage.Protocol.Message.{get_file_version_map}
use squid_storage.Server.State.{SessionPtr, sync_status, Net, State}
use squid_storage.Server.Replication.Read.{IsLiveHolder, some_session}
use squid_storage.Server.Replication.{merge_one, merge_versions, merge_reports, file_version_map}

-- The map knows the file at the version or at a higher one.
abbrev pub Knows : Map Bytes ℤ → Bytes → ℤ → Type 0
Knows m p v = (w : ℤ) × (find p m ≡ some w) × (v ≤ℤ w)

le_refl : (a : ℤ) → a ≤ℤ a
le_refl a = omega arith

maxz_left : (a b : ℤ) → a ≤ℤ maxz a b
maxz_left a b = ground arith

maxz_right : (a b : ℤ) → b ≤ℤ maxz a b
maxz_right a b = ground arith

le_trans : (a b c : ℤ) → a ≤ℤ b → b ≤ℤ c → a ≤ℤ c
le_trans a b c h k = omega (arith, h, k)

merge_one_keeps :
    (path : Bytes) (v : ℤ) (known : Map Bytes ℤ) (p : Bytes) (u : ℤ)
    → Knows known p u
    → Knows (merge_one path v known) p u
unfolding merge_one
merge_one_keeps path v known p u (w, there, le) = elim (Bool-cases (bytes_eq path p)) [
  | inr away ↦ elim (Option-cases (find path known)) [
    | inl absent ↦ rw (absent, merge_one) (w, find-assign p path v known ∙ rw (away, there), le)
    | inr (x, old) ↦
        rw (old, merge_one) (w, find-assign p path (maxz x v) known ∙ rw (away, there), le)
  ]
  | inl here ↦
      let old = (rw (← (bytes_eq_iff path p).0 here) at there) in
      rw (old, merge_one)
        (
          maxz w v,
          find-assign p path (maxz w v) known ∙ rw here,
          le_trans u w (maxz w v) le (maxz_left w v),
        )
]

merge_one_adds :
    (path : Bytes) (v : ℤ) (known : Map Bytes ℤ) → Knows (merge_one path v known) path v
unfolding merge_one
merge_one_adds path v known =
    let self = (bytes_eq_iff path path).1 refl in
    elim (Option-cases (find path known)) [
      | inl absent ↦ rw (absent, merge_one) (v, find-assign path path v known ∙ rw self, le_refl v)
      | inr (x, old) ↦
          rw (old, merge_one)
            (maxz x v, find-assign path path (maxz x v) known ∙ rw self, maxz_right x v)
    ]

merge_versions_keeps :
    (m known : Map Bytes ℤ) (p : Bytes) (u : ℤ)
    → Knows known p u
    → Knows (merge_versions m known) p u
unfolding merge_versions
merge_versions_keeps [] known p u k = k
merge_versions_keeps ((path, v) ∷ m) known p u k =
    merge_versions_keeps m (merge_one path v known) p u (merge_one_keeps path v known p u k)

some_version : {a b : ℤ} → some a ≡ some b → a ≡ b
some_version h = cc

merge_versions_adds :
    (m known : Map Bytes ℤ) (p : Bytes) (v : ℤ)
    → find p m ≡ some v
    → Knows (merge_versions m known) p v
unfolding merge_versions find
merge_versions_adds [] known p v h = cc
merge_versions_adds ((path, u) ∷ m) known p v h = elim (Bool-cases (bytes_eq path p)) [
  | inr away ↦ merge_versions_adds m (merge_one path u known) p v (rw away at h)
  | inl here ↦
      rw (some_version (rw here at h), (bytes_eq_iff path p).0 here)
        (merge_versions_keeps m (merge_one p v known) p v (merge_one_adds p v known))
]

merge_reports_keeps :
    (net : Net) (nodes : Map Bytes SessionPtr) (known : Map Bytes ℤ) (p : Bytes) (u : ℤ)
    → Knows known p u
    → Knows (merge_reports net nodes known) p u
unfolding merge_reports
merge_reports_keeps net [] known p u k = k
merge_reports_keeps net ((name, none) ∷ nodes) known p u k =
    merge_reports_keeps net nodes known p u k
merge_reports_keeps net ((name, some s) ∷ nodes) known p u k = elim (Bool-cases (net.is_alive s)) [
  | inr dead ↦ rw dead (merge_reports_keeps net nodes known p u k)
  | inl alive ↦
      let report = get_file_version_map (net.answer s sync_status) in
      rw alive (
        merge_reports_keeps net nodes (merge_versions report known) p u
          (merge_versions_keeps report known p u k))
]

merge_reports_adds :
    (net : Net) (nodes : Map Bytes SessionPtr) (known : Map Bytes ℤ) (s : ℕ) (p : Bytes) (u : ℤ)
    → IsLiveHolder net nodes s
    → find p (get_file_version_map (net.answer s sync_status)) ≡ some u
    → Knows (merge_reports net nodes known) p u
unfolding merge_reports
merge_reports_adds net [] known s p u l h = absurd l
merge_reports_adds net ((name, none) ∷ nodes) known s p u (inl l) h = cc
merge_reports_adds net ((name, none) ∷ nodes) known s p u (inr l) h =
    merge_reports_adds net nodes known s p u l h
merge_reports_adds net ((name, some t) ∷ nodes) known s p u (inr l) h =
    merge_reports_adds net nodes _ s p u l h
merge_reports_adds net ((name, some t) ∷ nodes) known s p u (inl l) h =
    let report = get_file_version_map (net.answer s sync_status) in
    rw (some_session l.0, l.1)
      (merge_reports_keeps net nodes (merge_versions report known) p u
        (merge_versions_adds report known p u h))

-- What clients are told is never below what the server knows, and never below what a data node that
-- is alive reports.
pub file_version_map_covers :
    (net : Net) (st : State)
    → ((p : Bytes) (v : ℤ) → find p st.versions ≡ some v → Knows (file_version_map net st) p v)
      × ((s : ℕ) (p : Bytes) (v : ℤ)
          → IsLiveHolder net st.data_nodes s
          → find p (get_file_version_map (net.answer s sync_status)) ≡ some v
          → Knows (file_version_map net st) p v)
unfolding file_version_map
file_version_map_covers net st = (
  λ p v h. merge_reports_keeps net st.data_nodes st.versions p v (v, h, le_refl v),
  λ s p v l h. merge_reports_adds net st.data_nodes st.versions s p v l h,
)
