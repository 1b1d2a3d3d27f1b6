-- ===== src/Client/Sync.antt =====
-- `syncStatus`: the server's versions are taken over.
use squid_storage.Prelude.{
  ℕ, ◌^◌, ◌<◌, ◌≤◌, ◌≡◌, refl, ◌∙◌, sym, ap, Bool-cases, inl, inr, true, Option, none, some, [],
  ◌∷◌, if◌then◌else◌,
}
use squid_storage.Prelude.Lists.{length}
use squid_storage.Prelude.Key.{Bytes, bytes_key, bytes_eq, bytes_eq_iff}
use squid_storage.Prelude.Int.{ℤ}
use squid_storage.Prelude.Map.{Map, find, assign}
use squid_storage.Prelude.Map.Laws.{IsOrdered, find-assign, find_before}
use squid_storage.Protocol.Frame.{returns, Message}
use squid_storage.Protocol.Message.{get_file_version_map, is_response}
use squid_storage.Protocol.Format.{response_file_version_map}
use squid_storage.Protocol.Format.Deliver.{deliver}
use squid_storage.Protocol.Format.VersionMap.{IsSendable, version_map_arrives}
use squid_storage.Client.{Client, version_known, get_file_version, assign_all, after_sync}

-- The server's version, if it has one.
abbrev pub or_known : Option ℤ → Option ℤ → Option ℤ
or_known none known = known
or_known (some v) known = some v

or_known_here :
    (p q : Bytes) (v : ℤ) (later known : Option ℤ)
    → (p ≡ q → later ≡ none)
    → or_known later (if bytes_eq p q then some v else known)
      ≡ or_known (if bytes_eq p q then some v else later) known
or_known_here p q v later known h = elim (Bool-cases (bytes_eq p q)) [
  | inl e ↦ rw (e, h ((bytes_eq_iff p q).0 e))
  | inr e ↦ rw e
]

find-assign_all :
    (q : Bytes) (m known : Map Bytes ℤ)
    → IsOrdered m
    → find q (assign_all m known) ≡ or_known (find q m) (find q known)
unfolding assign_all find
find-assign_all q [] known o = refl
find-assign_all q ((p, v) ∷ m) known o =
    find-assign_all q m (assign p v known) o.1
    ∙ ap (or_known (find q m)) (find-assign q p v known)
    ∙ or_known_here p q v (find q m) (find q known)
        (λ e. ap (λ r. find r m) (sym e) ∙ find_before p m o.0)

taken_over :
    (answer : Message) (c : Client)
    → is_response answer ≡ true
    → after_sync answer c
      ≡ record c { versions = assign_all (get_file_version_map answer) c.versions }
unfolding after_sync
taken_over answer c h = rw h

-- The server's map of at most 127 files arrives in the answer to a sync request, and the client then
-- knows the server's version of each of these files, and of every other file what it knew before.
pub after_sync-version_map :
    (q : Bytes) (m : Map Bytes ℤ) (seq : ℕ) (c : Client)
    → IsOrdered m
    → IsSendable m
    → length m ≤ 127
    → seq < 2 ^ 32
    → (answer : Message) × (deliver (response_file_version_map m) seq ≡ returns answer)
      × (get_file_version q (after_sync answer c)
          ≡ version_known (or_known (find q m) (find q c.versions)))
unfolding get_file_version
after_sync-version_map q m seq c o s n hs =
    let (answer, arrives, responds, same) = version_map_arrives m seq o s n hs in
    (
      answer,
      arrives,
      ap (λ r. version_known (find q r.versions)) (taken_over answer c responds)
          ∙ ap (λ r. version_known (find q (assign_all r c.versions))) same
          ∙ ap version_known (find-assign_all q m c.versions o),
    )
