-- ===== src/Standby/Mirror/Versions.antt =====
-- The versions at the server that stands by are those of the primary.
use squid_storage.Prelude.{
  ℕ, ◌^◌, ◌≤◌, ◌<◌, ◌≡◌, refl, ◌∙◌, sym, ap, Bool, true, false, ◌&&◌, ltb, min, List, [], ◌∷◌, map,
  Bool-cases, inl, inr,
}
use squid_storage.Prelude.Lists.{length, All}
use squid_storage.Prelude.Key.{Bytes, bytes_key}
use squid_storage.Prelude.Int.{ℤ, pos}
use squid_storage.Prelude.Map.{find, erase}
use squid_storage.Server.State.{
  create_file, update_file, delete_file, Net, push_create, push_update, push_delete, delta, State,
}
use squid_storage.Server.Locks.{erase_lock}
use squid_storage.Server.Replication.{
  quorum, acked_by, notify, holders_of, persist_state, propagate_create_file, next_version,
  commit_update, propagate_update_file, asked, commit_delete, propagate_delete_file,
}
use squid_storage.Standby.Watcher.{Watcher}
use squid_storage.Standby.Mirror.{
  follow_effect, follow_effects, Write, creates, updates, deletes, perform, perform_all,
}
use squid_storage.Standby.Mirror.Effects.{
  FitsEffect, stays, sets, drops, change_watcher, Done, follow_undo, change_versions-find,
  change_watcher-versions, change_watcher-epoch, delta_then_pushes, pushes_then_delta, delta_sent,
  last_fits, commit_create_changes,
}

-- Both know the same files at the same versions.
abbrev pub Mirrors : State → Watcher → Type 0
Mirrors st w = (p : Bytes) → find p w.version_map ≡ find p st.versions

create_Done :
    (net : Net) (now : ℕ) (path : Bytes) (v : ℤ) (origin file_data : Bytes) (e seq : ℕ) (st : State)
    (w : Watcher)
    → st.has_standby ≡ true
    → All (FitsEffect e) (propagate_create_file net now path v origin file_data st).1
    → seq < 2 ^ 32
    → w.observed_epoch ≤ e
    → Done e seq st w
        (propagate_create_file net now path v origin file_data st).0
        (propagate_create_file net now path v origin file_data st).1
unfolding propagate_create_file follow_effect
create_Done net now path v origin file_data e seq st w b f hs h =
    let acked = acked_by net (create_file path v file_data) st.data_nodes in
    let names : List Bytes = map (λ node. node.0) acked in
    elim (Bool-cases (ltb (length acked) (quorum st))) [
      | inl few ↦ rw few (record {
        change = stays;
        at_primary = refl;
        keeps_standby = b;
        at_standby = follow_undo path e seq acked w;
      })
      | inr enough ↦
          let g = (rw (enough, delta_sent 0 path v names st b) at f) in
          let (now_versions, kept) = commit_create_changes now path v acked st in
          rw (enough, delta_sent 0 path v names st b)
            (record {
              change = sets path v names;
              at_primary = now_versions;
              keeps_standby = kept ∙ b;
              at_standby =
                  delta_then_pushes (λ s. push_create s path v file_data) path v names origin
                    st.clients e seq w (λ s u. refl) g.0 hs h;
            })
    ]

update_Done :
    (net : Net) (path : Bytes) (seen : ℤ) (origin file_data : Bytes) (e seq : ℕ) (st : State)
    (w : Watcher)
    → st.has_standby ≡ true
    → All (FitsEffect e) (propagate_update_file net path seen origin file_data st).1
    → seq < 2 ^ 32
    → w.observed_epoch ≤ e
    → Done e seq st w
        (propagate_update_file net path seen origin file_data st).0
        (propagate_update_file net path seen origin file_data st).1
unfolding propagate_update_file commit_update persist_state follow_effects follow_effect
update_Done net path seen origin file_data e seq st w b f hs h =
    let v = next_version path seen st in
    let nodes = holders_of path st in
    let acked = acked_by net (update_file path v file_data) nodes in
    let names : List Bytes = map (λ node. node.0) nodes in
    elim (Bool-cases (ltb (length acked) (min (quorum st) (length nodes)))) [
      | inl few ↦
          rw few
            (record { change = stays; at_primary = refl; keeps_standby = b; at_standby = refl })
      | inr enough ↦
          let g = (rw (enough, delta_sent 0 path v names st b) at f) in
          rw (enough, delta_sent 0 path v names st b)
            (record {
              change = sets path v names;
              at_primary = refl;
              keeps_standby = b;
              at_standby =
                  delta_then_pushes (λ s. push_update s path v file_data) path v names origin
                    st.clients e seq w (λ s u. refl) g.0 hs h;
            })
    ]

commit_delete_changes :
    (on_disk : Bool) (path : Bytes) (st : State)
    → ((commit_delete on_disk path st).versions ≡ erase path st.versions)
      × ((commit_delete on_disk path st).has_standby ≡ st.has_standby)
unfolding commit_delete persist_state erase_lock
commit_delete_changes true path st = (refl, refl)
commit_delete_changes false path st = (refl, refl)

delete_Done :
    (net : Net) (on_disk : Bool) (path origin : Bytes) (e seq : ℕ) (st : State) (w : Watcher)
    → st.has_standby ≡ true
    → All (FitsEffect e) (propagate_delete_file net on_disk path origin st).1
    → seq < 2 ^ 32
    → w.observed_epoch ≤ e
    → Done e seq st w
        (propagate_delete_file net on_disk path origin st).0
        (propagate_delete_file net on_disk path origin st).1
unfolding propagate_delete_file follow_effects follow_effect
delete_Done net on_disk path origin e seq st w b f hs h =
    let nodes = holders_of path st in
    let total = asked net nodes in
    let acks = length (acked_by net (delete_file path) nodes) in
    elim (Bool-cases (ltb 0 total && ltb acks (min (quorum st) total))) [
      | inl few ↦
          rw few
            (record { change = stays; at_primary = refl; keeps_standby = b; at_standby = refl })
      | inr fine ↦
          let (gone, kept) = commit_delete_changes on_disk path st in
          rw (fine, delta_sent 1 path (pos 0) [] st b)
            (record {
              change = drops path;
              at_primary = gone;
              keeps_standby = kept ∙ b;
              at_standby =
                  pushes_then_delta (λ s. push_delete s path) path origin st.clients e seq w
                    (λ s u. refl)
                    (last_fits e (notify (λ s. push_delete s path) origin st.clients)
                      (delta 1 path (pos 0) []) (rw (fine, delta_sent 1 path (pos 0) [] st b) at f))
                    hs h;
            })
    ]

perform-Done :
    (x : Write) (e seq : ℕ) (st : State) (w : Watcher)
    → st.has_standby ≡ true
    → All (FitsEffect e) (perform x st).1
    → seq < 2 ^ 32
    → w.observed_epoch ≤ e
    → Done e seq st w (perform x st).0 (perform x st).1
perform-Done (creates net now path v origin file_data) e seq st w b f hs h =
    create_Done net now path v origin file_data e seq st w b f hs h
perform-Done (updates net path seen origin file_data) e seq st w b f hs h =
    update_Done net path seen origin file_data e seq st w b f hs h
perform-Done (deletes net on_disk path origin) e seq st w b f hs h =
    delete_Done net on_disk path origin e seq st w b f hs h

-- Each delta of the history fits in a frame.
abbrev pub AllFit : ℕ → List Write → State → Type 0
AllFit e [] st = Unit
AllFit e (x ∷ xs) st = All (FitsEffect e) (perform x st).1 × AllFit e xs (perform x st).0

-- After every history of creations, updates and deletions, met or refused, a server that stands by,
-- that knew the primary's versions when it began and has seen no higher epoch than the primary's,
-- knows for every file the version that the primary has, if each delta fits in a frame.
pub perform_all-Mirrors :
    (e seq : ℕ) (xs : List Write) (st : State) (w : Watcher)
    → st.has_standby ≡ true
    → AllFit e xs st
    → seq < 2 ^ 32
    → w.observed_epoch ≤ e
    → Mirrors st w
    → let both = perform_all e seq xs (st, w) in Mirrors both.0 both.1
unfolding perform_all
perform_all-Mirrors e seq [] st w b f hs h m = m
perform_all-Mirrors e seq (x ∷ xs) st w b f hs h m =
    let d = perform-Done x e seq st w b f.0 hs h in
    rw (perform_all, d.at_standby)
      (perform_all-Mirrors e seq xs (perform x st).0 (change_watcher e d.change w) d.keeps_standby
        f.1 hs (change_watcher-epoch e d.change w h)
        (λ p.
          ap (find p) (change_watcher-versions e d.change w)
          ∙ change_versions-find d.change p w.version_map st.versions (m p)
          ∙ sym (ap (find p) d.at_primary)))
