-- ===== src/DataNode/Stores.antt =====
-- What a data node stores is what it was sent, and what it gives to a reader.
use squid_storage.Prelude.{
  ◌≡◌, refl, ◌∙◌, sym, ap, subst, true, false, if◌then◌else◌, none, some, List, [], ◌++◌,
}
use squid_storage.Prelude.Key.{Bytes, bytes_key, bytes_eq, bytes_eq_iff}
use squid_storage.Prelude.Int.{ℤ, IsInt}
use squid_storage.Prelude.Map.{find, assign}
use squid_storage.Prelude.Map.Laws.{find-assign}
use squid_storage.Prelude.Text.Lines.{IsWord}
use squid_storage.Protocol.Opcode.{create_file, update_file, read_file}
use squid_storage.Protocol.Frame.{Fallible, returns, throws}
use squid_storage.Protocol.Format.{response_ack, response_ack_with_version}
use squid_storage.Filesystem.VersionFile.{get_file_version}
use squid_storage.Filesystem.VersionFile.Set.{get_file_version-set_file_version}
use squid_storage.Transport.Channel.{Channel, Written}
use squid_storage.Transport.Channel.Stream.{stream}
use squid_storage.Transport.Order.{Connection, send_frame, send_built}
use squid_storage.Transport.Transfer.{Sending, send_file_data, send_file, receive_file}
use squid_storage.Transport.Transfer.RoundTrip.{receive_file-send_file_data}
use squid_storage.DataNode.{
  FileSystem, Node, respond, received_into, sent_from, receive_into, send_from, stored, store,
  offered, offer, dispatch,
}

inbound-send_built : (r : Fallible Bytes) (c : Connection) → (send_built r c).inbound ≡ c.inbound
inbound-send_built (returns frame) c = unfold send_frame in refl
inbound-send_built (throws e) c = refl

-- Answers change neither the files nor the version file.
disk-respond : (r : Fallible Bytes) (n : Node) → (respond r n).disk ≡ n.disk
unfolding respond
disk-respond r n = refl

module _ (fs : FileSystem) where
  -- The node once it has received `s` for the path and the stream is `left`.
  abbrev pub with_file : Bytes → Bytes → Channel → Node → Node
  with_file path s left n = record n {
    disk = assign (fs.resolve_path path) s n.disk;
    connection = record n.connection { inbound = left };
  }

  receive_into-whole :
      (path s rest : Bytes) (ws : List Written) (n : Node)
      → fs.can_open (fs.resolve_path path) ≡ true
      → (send_file_data s ws).1 ≡ true
      → stream n.connection.inbound ≡ (send_file_data s ws).0 ++ rest
      → (left : Channel) × (receive_into fs path n ≡ (true, with_file path s left n))
        × (stream left ≡ rest)
  unfolding receive_into
  receive_into-whole path s rest ws n opens ok e =
      let full = fs.resolve_path path in
      let old = find full n.disk in
      let (memory, (left, run, stays)) =
        receive_file-send_file_data s [] rest old ws n.connection.inbound ok e in
      (
        left,
        ap (λ b. received_into full n (receive_file b old n.connection.inbound)) opens
            ∙ ap (received_into full n) run,
        stays,
      )

  store_lem :
      (path s rest : Bytes) (v : ℤ) (answer : Fallible Bytes) (ws : List Written) (n : Node)
      → fs.can_open (fs.resolve_path path) ≡ true
      → (send_file_data s ws).1 ≡ true
      → stream n.connection.inbound ≡ (send_file_data s ws).0 ++ rest
      → (left : Channel) × (store fs path v answer n
          ≡ stored fs path v answer (true, with_file path s left (respond (response_ack true) n)))
        × (stream left ≡ rest)
  unfolding store respond
  store_lem path s rest v answer ws n opens ok e =
      let told = respond (response_ack true) n in
      let (left, run, stays) =
        receive_into-whole path s rest ws told opens ok
          (ap stream (inbound-send_built (response_ack true) n.connection) ∙ e) in
      (left, ap (stored fs path v answer) run, stays)

  -- What `q` and its version are after `s` was stored for `path` with the version `v`.
  abbrev pub Stored : Bytes → Bytes → Bytes → ℤ → Bytes → Node → Node → Type 0
  Stored q path s v rest n d =
      (find (fs.resolve_path q) d.disk ≡ (
        if bytes_eq (fs.resolve_path path) (fs.resolve_path q)
        then some s
        else find (fs.resolve_path q) n.disk))
      × (get_file_version q d.version_text
          ≡ (if bytes_eq path q then v else get_file_version q n.version_text))
      × (stream d.connection.inbound ≡ rest)

  stored-Stored :
      (q path s rest : Bytes) (v : ℤ) (answer : Fallible Bytes) (left : Channel) (n : Node)
      → IsWord path
      → IsInt v
      → stream left ≡ rest
      → Stored q path s v rest n
          (stored fs path v answer (true, with_file path s left (respond (response_ack true) n)))
  unfolding respond
  stored-Stored q path s rest v answer left n w h e = (
    find-assign (fs.resolve_path q) (fs.resolve_path path) s n.disk,
    get_file_version-set_file_version path q v n.version_text w h,
    ap stream (inbound-send_built answer _) ∙ e,
  )

  store-Stored :
      (q path s rest : Bytes) (v : ℤ) (answer : Fallible Bytes) (ws : List Written) (n : Node)
      → IsWord path
      → IsInt v
      → fs.can_open (fs.resolve_path path) ≡ true
      → (send_file_data s ws).1 ≡ true
      → stream n.connection.inbound ≡ (send_file_data s ws).0 ++ rest
      → Stored q path s v rest n (store fs path v answer n)
  store-Stored q path s rest v answer ws n w h opens ok e =
      let (left, run, stays) = store_lem path s rest v answer ws n opens ok e in
      subst (Stored q path s v rest n) (sym run)
        (stored-Stored q path s rest v answer left n w h stays)

  -- A request to create or to update a file, whose bytes follow it whole, stores exactly these bytes
  -- and the version of the request, changes no other file and no other version, and takes no more
  -- from the stream, if the path has no space and its file can be opened.
  pub dispatch-stores :
      (q path s rest : Bytes) (v : ℤ) (ws : List Written) (n : Node)
      → IsWord path
      → IsInt v
      → fs.can_open (fs.resolve_path path) ≡ true
      → (send_file_data s ws).1 ≡ true
      → stream n.connection.inbound ≡ (send_file_data s ws).0 ++ rest
      → Stored q path s v rest n (dispatch fs create_file path v n)
        × Stored q path s v rest n (dispatch fs update_file path v n)
  unfolding dispatch
  dispatch-stores q path s rest v ws n w h opens ok e = (
    store-Stored q path s rest v (response_ack true) ws n w h opens ok e,
    store-Stored q path s rest v (response_ack_with_version true v) ws n w h opens ok e,
  )

  offered_sent :
      (path : Bytes) (v : ℤ) (told : Node) (r : Sending)
      → r.1 ≡ true
      → get_file_version path told.version_text ≡ v
      → offered fs path (sent_from told r)
        ≡ respond (response_ack_with_version true v) (sent_from told r).1
  offered_sent path v told (bytes, true, later) ok g =
      ap (λ u. respond (response_ack_with_version true u) (sent_from told (bytes, true, later)).1) g
  offered_sent path v told (bytes, false, later) ok g = absurd (cc)

  read_found :
      (path s : Bytes) (u v : ℤ) (n : Node)
      → find (fs.resolve_path path) n.disk ≡ some s
      → get_file_version path n.version_text ≡ v
      → (send_file_data s (respond (response_ack true) n).connection.outbound).1 ≡ true
      → dispatch fs read_file path u n ≡ (
          let told = respond (response_ack true) n in
          respond
            (response_ack_with_version true v)
            (sent_from told (send_file_data s told.connection.outbound)).1)
  unfolding dispatch offer send_from send_file respond
  read_found path s u v n f g ok =
      let told = respond (response_ack true) n in
      ap (λ r. offered fs path (sent_from told (send_file r told.connection.outbound))) f
      ∙ offered_sent path v told (send_file_data s told.connection.outbound) ok g

  eq_self : (b : Bytes) → bytes_eq b b ≡ true
  eq_self b = (bytes_eq_iff b b).1 refl

  -- A file is created, its bytes following the request whole, and then read. The reader gets an ACK,
  -- the size and exactly these bytes, if the network takes them, and an ACK with the version of the
  -- creation, if the path has no space and its file can be opened.
  pub dispatch-create_read :
      (path s rest : Bytes) (u v : ℤ) (ws : List Written) (n : Node)
      → IsWord path
      → IsInt v
      → fs.can_open (fs.resolve_path path) ≡ true
      → (send_file_data s ws).1 ≡ true
      → stream n.connection.inbound ≡ (send_file_data s ws).0 ++ rest
      → (send_file_data s
          (respond (response_ack true) (dispatch fs create_file path v n)).connection.outbound).1
        ≡ true
      → dispatch fs read_file path u (dispatch fs create_file path v n) ≡ (
          let told = respond (response_ack true) (dispatch fs create_file path v n) in
          respond
            (response_ack_with_version true v)
            (sent_from told (send_file_data s told.connection.outbound)).1)
  dispatch-create_read path s rest u v ws n w h opens ok e sent =
      let d = dispatch fs create_file path v n in
      let (there, version, left) = (dispatch-stores path path s rest v ws n w h opens ok e).0 in
      read_found path s u v d (there ∙ rw (eq_self (fs.resolve_path path)))
        (version ∙ rw (eq_self path)) sent

  -- What the node is once a transfer has failed.
  abbrev Lost : Bytes → Node → Node → Type 0
  Lost path n d =
      (m : Node) × (d ≡ respond (response_ack false) m)
      × (find (fs.resolve_path path) m.disk ≡ none)
      × (m.version_text ≡ n.version_text)
