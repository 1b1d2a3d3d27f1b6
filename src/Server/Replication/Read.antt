-- ===== src/Server/Replication/Read.antt =====
-- Reading a file: never an old version, and never a failure while a live holder has the current one.
use squid_storage.Prelude.{
  ℕ, ◌≡◌, refl, Bool, true, false, ◌&&◌, ◌||◌, if◌then◌else◌, Option, none, some, List, [], ◌∷◌,
  arith, ◌⊎◌, inl, inr, Bool-cases,
}
use squid_storage.Prelude.Key.{Bytes, bytes_key}
use squid_storage.Prelude.Int.{ℤ, pos, ltz, lez}
use squid_storage.Prelude.Map.{Map}
use squid_storage.Protocol.Message.{is_ack}
use squid_storage.Server.State.{SessionPtr, read_file, Net, State}
use squid_storage.Server.Replication.{
  holders_of, live_holders, known_version, got_version, read_from, get_file_from_data_node,
}

-- The session answers with a version that is not older than the server's, if the server has one.
abbrev pub is_current : Net → Bytes → ℤ → ℕ → Bool
is_current net path expected s =
    is_ack (net.answer s (read_file path))
    && (ltz expected (pos 0) || lez expected (got_version net s path))

-- The bytes of the first such session.
abbrev pub first_current : Net → Bytes → ℤ → List ℕ → Option Bytes
first_current net path expected [] = none
first_current net path expected (s ∷ rest) =
    if is_current net path expected s
    then some (net.bytes_read s path)
    else first_current net path expected rest

pub read_from-first_current :
    (net : Net) (path : Bytes) (expected : ℤ) (ss : List ℕ)
    → read_from net path expected ss ≡ first_current net path expected ss
unfolding read_from
read_from-first_current net path expected [] = refl
read_from-first_current net path expected (s ∷ []) = ground arith
read_from-first_current net path expected (s ∷ t ∷ ts) =
    ground (arith, read_from-first_current net path expected (t ∷ ts))

-- A live session among the holders of a file.
abbrev pub IsLiveHolder : Net → Map Bytes SessionPtr → ℕ → Type 0
IsLiveHolder net [] s = ⊥
IsLiveHolder net ((name, p) ∷ m) s = ((p ≡ some s) × (net.is_alive s ≡ true)) ⊎ IsLiveHolder net m s

some_eq : {a b : Bytes} → some a ≡ some b → a ≡ b
some_eq h = cc

first_current_found :
    (net : Net) (path : Bytes) (expected : ℤ) (m : Map Bytes SessionPtr) (bytes : Bytes)
    → first_current net path expected (live_holders net m) ≡ some bytes
    → (s : ℕ) × IsLiveHolder net m s
      × (is_current net path expected s ≡ true)
      × (net.bytes_read s path ≡ bytes)
unfolding live_holders
first_current_found net path expected [] bytes h = cc
first_current_found net path expected ((name, none) ∷ m) bytes h =
    let (s, l, c, b) = first_current_found net path expected m bytes h in (s, inr l, c, b)
first_current_found net path expected ((name, some t) ∷ m) bytes h =
    elim (Bool-cases (net.is_alive t)) [
      | inr dead ↦
          let (s, l, c, b) = first_current_found net path expected m bytes (rw dead at h) in
          (s, inr l, c, b)
      | inl alive ↦ elim (Bool-cases (is_current net path expected t)) [
        | inl good ↦ (t, inl (refl, alive), good, some_eq (rw (alive, good) at h))
        | inr old ↦
            let (s, l, c, b) =
              first_current_found net path expected m bytes (rw (alive, old) at h) in
            (s, inr l, c, b)
      ]
    ]

pub some_session : {a b : ℕ} → some a ≡ some b → a ≡ b
some_session h = cc

first_current_missed :
    (net : Net) (path : Bytes) (expected : ℤ) (m : Map Bytes SessionPtr) (s : ℕ)
    → first_current net path expected (live_holders net m) ≡ none
    → IsLiveHolder net m s
    → is_current net path expected s ≡ false
unfolding live_holders
first_current_missed net path expected [] s h l = absurd l
first_current_missed net path expected ((name, none) ∷ m) s h (inl l) = cc
first_current_missed net path expected ((name, none) ∷ m) s h (inr l) =
    first_current_missed net path expected m s h l
first_current_missed net path expected ((name, some t) ∷ m) s h l =
    elim (Bool-cases (net.is_alive t)) [
      | inr dead ↦ elim l [
        | inl here ↦ cc (here.0, here.1, dead, some_session here.0)
        | inr rest ↦ first_current_missed net path expected m s (rw dead at h) rest
      ]
      | inl alive ↦ elim (Bool-cases (is_current net path expected t)) [
        | inl good ↦ cc (rw (alive, good) at h)
        | inr old ↦ elim l [
          | inl here ↦ rw (← some_session here.0) old
          | inr rest ↦ first_current_missed net path expected m s (rw (alive, old) at h) rest
        ]
      ]
    ]

-- What a read returns was read from a live holder that acknowledged and whose version is not below
-- the server's. A read fails only if no live holder is such: each is silent, or has an older version.
pub get_file_from_data_node_lem :
    (net : Net) (path : Bytes) (st : State)
    → let expected = known_version path st in
      ((bytes : Bytes)
        → get_file_from_data_node net path st ≡ some bytes
        → (s : ℕ) × IsLiveHolder net (holders_of path st) s
          × (is_current net path expected s ≡ true)
          × (net.bytes_read s path ≡ bytes))
      × (get_file_from_data_node net path st ≡ none
          → (s : ℕ) → IsLiveHolder net (holders_of path st) s
          → is_current net path expected s ≡ false)
unfolding get_file_from_data_node
get_file_from_data_node_lem net path st =
    let expected = known_version path st in
    let same = read_from-first_current net path expected (live_holders net (holders_of path st)) in
    (
      λ bytes h. first_current_found net path expected (holders_of path st) bytes (rw same at h),
      λ h s l. first_current_missed net path expected (holders_of path st) s (rw same at h) l,
    )
