-- ===== src/Standby/Mirror/Effects.antt =====
-- What a server that stands by makes of the effects of one write.
use squid_storage.Prelude.{
  ℕ, ◌^◌, ◌≤◌, ◌<◌, ◌≡◌, refl, ◌∙◌, ap, true, none, some, List, [], ◌∷◌, ◌++◌, map, arith,
  Bool-cases, inl, inr,
}
use squid_storage.Prelude.Lists.{All}
use squid_storage.Prelude.Key.{Bytes, bytes_key, bytes_eq}
use squid_storage.Prelude.Int.{ℤ, pos}
use squid_storage.Prelude.Map.{Map, find, assign, erase}
use squid_storage.Prelude.Map.Laws.{find-assign, find-erase}
use squid_storage.Server.State.{SessionPtr, Effect, undo_create, delta, State}
use squid_storage.Server.Locks.{insert_lock}
use squid_storage.Server.Replication.{notify, hold_all, persist_state, commit_create, delta_for}
use squid_storage.Standby.Watcher.{Watcher, observe, change_maps}
use squid_storage.Standby.Watcher.Deltas.{FitsDelta, receive-state_delta}
use squid_storage.Standby.Mirror.{receive_sent, follow_effect, follow_effects}

abbrev pub FitsEffect : ℕ → Effect → Type 0
FitsEffect e (delta op path v names) = FitsDelta op path v names e
FitsEffect e _ = Unit

pub follow_delta :
    (op : ℕ) (path : Bytes) (v : ℤ) (names : List Bytes) (e seq : ℕ) (w : Watcher)
    → FitsDelta op path v names e
    → seq < 2 ^ 32
    → w.observed_epoch ≤ e
    → follow_effect e seq (delta op path v names) w ≡ change_maps op path v names (observe e w)
unfolding follow_effect
follow_delta op path v names e seq w f hs h =
    let (m, arrives, read) = receive-state_delta op path v names e seq w f hs h in
    rw (arrives, receive_sent, read)

pub follow_notify :
    (push : ℕ → Effect) (e seq : ℕ) (origin : Bytes) (cs : Map Bytes SessionPtr) (w : Watcher)
    → ((s : ℕ) → follow_effect e seq (push s) w ≡ w)
    → follow_effects e seq (notify push origin cs) w ≡ w
unfolding follow_effects notify
follow_notify push e seq origin [] w h = refl
follow_notify push e seq origin ((name, none) ∷ cs) w h = follow_notify push e seq origin cs w h
follow_notify push e seq origin ((name, some s) ∷ cs) w h =
    elim (Bool-cases (bytes_eq name origin)) [
      | inl same ↦ rw same (follow_notify push e seq origin cs w h)
      | inr other ↦ rw (other, follow_effects, h s) (follow_notify push e seq origin cs w h)
    ]

pub follow_undo :
    (path : Bytes) (e seq : ℕ) (nodes : List (Bytes × ℕ)) (w : Watcher)
    → follow_effects e seq (map (λ node. undo_create node.1 path) nodes) w ≡ w
unfolding follow_effects follow_effect
follow_undo path e seq [] w = refl
follow_undo path e seq (node ∷ nodes) w = follow_undo path e seq nodes w

pub follow-append :
    (e seq : ℕ) (xs ys : List Effect) (w : Watcher)
    → follow_effects e seq (xs ++ ys) w ≡ follow_effects e seq ys (follow_effects e seq xs w)
unfolding follow_effects
follow-append e seq [] ys w = refl
follow-append e seq (x ∷ xs) ys w = follow-append e seq xs ys (follow_effect e seq x w)

pub hold_all-versions :
    (path : Bytes) (nodes : List (Bytes × ℕ)) (st : State)
    → ((hold_all path nodes st).versions ≡ st.versions)
      × ((hold_all path nodes st).has_standby ≡ st.has_standby)
unfolding hold_all
hold_all-versions path [] st = (refl, refl)
hold_all-versions path ((name, s) ∷ nodes) st = hold_all-versions path nodes _

-- What a write does to the versions, to the two sides alike: nothing, or one of two changes.
pub data Change : Type 0 where
  stays : Change
  sets : Bytes → ℤ → List Bytes → Change
  drops : Bytes → Change

abbrev pub change_versions : Change → Map Bytes ℤ → Map Bytes ℤ
change_versions stays m = m
change_versions (sets path v names) m = assign path v m
change_versions (drops path) m = erase path m

-- The effects are as the change wants, for a server that stands by.
abbrev pub change_watcher : ℕ → Change → Watcher → Watcher
change_watcher e stays w = w
change_watcher e (sets path v names) w = change_maps 0 path v names (observe e w)
change_watcher e (drops path) w = change_maps 1 path (pos 0) [] (observe e w)

pub change_versions-find :
    (c : Change) (p : Bytes) (m n : Map Bytes ℤ)
    → find p m ≡ find p n
    → find p (change_versions c m) ≡ find p (change_versions c n)
change_versions-find stays p m n h = h
change_versions-find (sets path v names) p m n h =
    rw (find-assign p path v m, find-assign p path v n, h)
change_versions-find (drops path) p m n h = rw (find-erase p path m, find-erase p path n, h)

pub change_watcher-versions :
    (e : ℕ) (c : Change) (w : Watcher)
    → (change_watcher e c w).version_map ≡ change_versions c w.version_map
unfolding change_maps
change_watcher-versions e stays w = refl
change_watcher-versions e (sets path v names) w = refl
change_watcher-versions e (drops path) w = refl

pub change_watcher-epoch :
    (e : ℕ) (c : Change) (w : Watcher)
    → w.observed_epoch ≤ e
    → (change_watcher e c w).observed_epoch ≤ e
unfolding change_maps
change_watcher-epoch e stays w h = h
change_watcher-epoch e (sets path v names) w h = ground arith
change_watcher-epoch e (drops path) w h = ground arith

-- One write: what it does at the primary, and what the server that stands by makes of its effects.
pub record Done (e seq : ℕ) (st : State) (w : Watcher) (next : State) (effects : List Effect)
    : Type 0 where
  pub change : Change
  pub at_primary : next.versions ≡ change_versions change st.versions
  pub keeps_standby : next.has_standby ≡ true
  pub at_standby : follow_effects e seq effects w ≡ change_watcher e change w

pub delta_then_pushes :
    (push : ℕ → Effect) (path : Bytes) (v : ℤ) (names : List Bytes) (origin : Bytes)
    (cs : Map Bytes SessionPtr) (e seq : ℕ) (w : Watcher)
    → ((s : ℕ) (u : Watcher) → follow_effect e seq (push s) u ≡ u)
    → FitsDelta 0 path v names e
    → seq < 2 ^ 32
    → w.observed_epoch ≤ e
    → follow_effects e seq (delta 0 path v names ∷ notify push origin cs) w
      ≡ change_watcher e (sets path v names) w
unfolding follow_effects
delta_then_pushes push path v names origin cs e seq w k f hs h =
    follow_notify push e seq origin cs (follow_effect e seq (delta 0 path v names) w) (λ s. k s _)
    ∙ follow_delta 0 path v names e seq w f hs h

pub pushes_then_delta :
    (push : ℕ → Effect) (path origin : Bytes) (cs : Map Bytes SessionPtr) (e seq : ℕ) (w : Watcher)
    → ((s : ℕ) (u : Watcher) → follow_effect e seq (push s) u ≡ u)
    → FitsDelta 1 path (pos 0) [] e
    → seq < 2 ^ 32
    → w.observed_epoch ≤ e
    → follow_effects e seq (notify push origin cs ++ delta 1 path (pos 0) [] ∷ []) w
      ≡ change_watcher e (drops path) w
unfolding follow_effects
pushes_then_delta push path origin cs e seq w k f hs h =
    follow-append e seq (notify push origin cs) (delta 1 path (pos 0) [] ∷ []) w
    ∙ rw (follow_notify push e seq origin cs w (λ s. k s w))
        (follow_delta 1 path (pos 0) [] e seq w f hs h)

pub delta_sent :
    (op : ℕ) (path : Bytes) (v : ℤ) (names : List Bytes) (st : State)
    → st.has_standby ≡ true
    → delta_for op path v names st ≡ delta op path v names ∷ []
delta_sent op path v names st b = rw b

pub last_fits :
    (e : ℕ) (xs : List Effect) (y : Effect) → All (FitsEffect e) (xs ++ y ∷ []) → FitsEffect e y
last_fits e [] y h = h.0
last_fits e (x ∷ xs) y h = last_fits e xs y h.1

pub commit_create_changes :
    (now : ℕ) (path : Bytes) (v : ℤ) (acked : List (Bytes × ℕ)) (st : State)
    → ((commit_create now path v acked st).versions ≡ assign path v st.versions)
      × ((commit_create now path v acked st).has_standby ≡ st.has_standby)
unfolding commit_create persist_state insert_lock
commit_create_changes now path v acked st =
    let (same, kept) = hold_all-versions path acked st in (ap (assign path v) same, kept)
