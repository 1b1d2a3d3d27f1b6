-- ===== src/Server/Replication/Told.antt =====
-- Which clients are told of a write.
use squid_storage.Prelude.{
  ℕ, ◌≡◌, refl, ap, Bool, false, ◌&&◌, ltb, min, ◌⊎◌, inl, inr, Bool-cases, none, some,
  some-injective, List, [], ◌∷◌, ◌++◌, map,
}
use squid_storage.Prelude.Lists.{length}
use squid_storage.Prelude.Key.{Bytes, bytes_key, bytes_eq, bytes_eq_iff}
use squid_storage.Prelude.Int.{ℤ, negsuc}
use squid_storage.Prelude.Map.{Map, find}
use squid_storage.Server.State.{
  SessionPtr, create_file, update_file, delete_file, Net, Effect, push_create, push_update,
  push_delete, State,
}
use squid_storage.Server.Replication.{
  quorum, acked_by, asked, holders_of, notify, delta_for, next_version, propagate_create_file,
  propagate_update_file, propagate_delete_file,
}

abbrev pub Among : Effect → List Effect → Type 0
Among e [] = ⊥
Among e (x ∷ xs) = (x ≡ e) ⊎ Among e xs

Among-right : (e : Effect) (xs ys : List Effect) → Among e ys → Among e (xs ++ ys)
Among-right e [] ys h = h
Among-right e (x ∷ xs) ys h = inr (Among-right e xs ys h)

Among-left : (e : Effect) (xs ys : List Effect) → Among e xs → Among e (xs ++ ys)
Among-left e [] ys h = absurd h
Among-left e (x ∷ xs) ys (inl h) = inl h
Among-left e (x ∷ xs) ys (inr h) = inr (Among-left e xs ys h)

module _ (name origin : Bytes) (s : ℕ) (others : bytes_eq name origin ≡ false) where
  notify-Among :
      (push : ℕ → Effect) (clients : Map Bytes SessionPtr)
      → find name clients ≡ some (some s)
      → Among (push s) (notify push origin clients)
  unfolding notify find
  notify-Among push [] h = absurd (cc)
  notify-Among push ((n, none) ∷ clients) h = elim (Bool-cases (bytes_eq n name)) [
    | inl here ↦ absurd (cc (rw here at h))
    | inr away ↦ notify-Among push clients (rw away at h)
  ]
  notify-Among push ((n, some t) ∷ clients) h = elim (Bool-cases (bytes_eq n name)) [
    | inl here ↦
        let same : n ≡ name = (bytes_eq_iff n name).0 here in
        rw (same, others) (inl (ap push (some-injective (some-injective (rw here at h)))))
    | inr away ↦ elim (Bool-cases (bytes_eq n origin)) [
      | inl left_out ↦ rw left_out (notify-Among push clients (rw away at h))
      | inr told ↦ rw told (inr (notify-Among push clients (rw away at h)))
    ]
  ]

  create_tells :
      (net : Net) (now : ℕ) (path file_data : Bytes) (v : ℤ) (st : State)
      → find name st.clients ≡ some (some s)
      → let created = propagate_create_file net now path v origin file_data st in
        ((created.2 ≡ false) × (created.0 ≡ st)) ⊎ Among (push_create s path v file_data) created.1
  unfolding propagate_create_file
  create_tells net now path file_data v st h =
      let acked = acked_by net (create_file path v file_data) st.data_nodes in
      elim (Bool-cases (ltb (length acked) (quorum st))) [
        | inl few ↦ rw few (inl (refl, refl))
        | inr enough ↦ rw enough (
            inr (
              Among-right _ (delta_for 0 path v (map (λ node. node.0) acked) st) _
                (notify-Among (λ i. push_create i path v file_data) st.clients h)))
      ]

  update_tells :
      (net : Net) (path file_data : Bytes) (v : ℤ) (st : State)
      → find name st.clients ≡ some (some s)
      → let updated = propagate_update_file net path v origin file_data st in
        (updated ≡ (st, [], negsuc 0)) ⊎ Among (push_update s path updated.2 file_data) updated.1
  unfolding propagate_update_file
  update_tells net path file_data v st h =
      let new = next_version path v st in
      let nodes = holders_of path st in
      let acked = acked_by net (update_file path new file_data) nodes in
      elim (Bool-cases (ltb (length acked) (min (quorum st) (length nodes)))) [
        | inl few ↦ rw few (inl refl)
        | inr enough ↦ rw enough (
            inr (
              Among-right _ (delta_for 0 path new (map (λ e. e.0) nodes) st) _
                (notify-Among (λ i. push_update i path new file_data) st.clients h)))
      ]

  delete_tells :
      (net : Net) (on_disk : Bool) (path : Bytes) (st : State)
      → find name st.clients ≡ some (some s)
      → let deleted = propagate_delete_file net on_disk path origin st in
        (deleted ≡ (st, [])) ⊎ Among (push_delete s path) deleted.1
  unfolding propagate_delete_file
  delete_tells net on_disk path st h =
      let total = asked net (holders_of path st) in
      let votes = length (acked_by net (delete_file path) (holders_of path st)) in
      elim (Bool-cases (ltb 0 total && ltb votes (min (quorum st) total))) [
        | inl few ↦ rw few (inl refl)
        | inr enough ↦ rw enough (
            inr (
              Among-left _ (notify (λ i. push_delete i path) origin st.clients) _
                (notify-Among (λ i. push_delete i path) st.clients h)))
      ]

  -- Every write is either refused or told, with its bytes and its version, to every connected client
  -- but the one that it comes from: a creation that is not refused, an update with the version that
  -- it returns, and a deletion. A refused update or deletion changes nothing and tells nobody.
  pub writes_tell :
      (net : Net) (now : ℕ) (on_disk : Bool) (path file_data : Bytes) (v : ℤ) (st : State)
      → find name st.clients ≡ some (some s)
      → let created = propagate_create_file net now path v origin file_data st in
        let updated = propagate_update_file net path v origin file_data st in
        let deleted = propagate_delete_file net on_disk path origin st in
        (((created.2 ≡ false) × (created.0 ≡ st))
          ⊎ Among (push_create s path v file_data) created.1)
        × ((updated ≡ (st, [], negsuc 0))
            ⊎ Among (push_update s path updated.2 file_data) updated.1)
        × ((deleted ≡ (st, [])) ⊎ Among (push_delete s path) deleted.1)
  writes_tell net now on_disk path file_data v st h = (
    create_tells net now path file_data v st h,
    update_tells net path file_data v st h,
    delete_tells net on_disk path st h,
  )
