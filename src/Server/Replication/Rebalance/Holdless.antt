-- ===== src/Server/Replication/Rebalance/Holdless.antt =====
-- Maps of holders without a certain data node.
use squid_storage.Prelude.{
  ℕ, ◌≡◌, refl, Bool, true, false, leb, ltb, Option, none, some, List, [], ◌∷◌, arith, Bool-cases,
  inl, inr,
}
use squid_storage.Prelude.Lists.{length}
use squid_storage.Prelude.Key.{Bytes, bytes_key, bytes_eq, bytes_before}
use squid_storage.Prelude.Map.{Map, find, assign, erase}
use squid_storage.Prelude.Map.Laws.{find-assign, find-erase, find-erase_self}
use squid_storage.Protocol.Message.{is_ack}
use squid_storage.Server.State.{SessionPtr, Call, Net, State}
use squid_storage.Server.Replication.{holders_of, hold}
use squid_storage.Server.Replication.Rebalance.{
  erase_holder, too_few, candidates, copy_to, store_holders, add_candidate, add_target,
}

-- No file has the data node among its holders.
abbrev pub Holdless : Bytes → Map Bytes (Map Bytes SessionPtr) → Type 0
Holdless name [] = Unit
Holdless name ((path, nodes) ∷ m) = (find name nodes ≡ none) × Holdless name m

-- The server does not know the data node, neither as connected nor as a holder.
pub record IsGone (name : Bytes) (st : State) : Type 0 where
  pub no_node : find name st.data_nodes ≡ none
  pub no_holder : Holdless name st.holders

pub find_erased :
    (n name : Bytes) (m : Map Bytes SessionPtr) → find n m ≡ none → find n (erase name m) ≡ none
find_erased n name m h = ground (arith, find-erase n name m, h)

pub erase_holder-Holdless :
    (name : Bytes) (m : Map Bytes (Map Bytes SessionPtr)) → Holdless name (erase_holder name m)
unfolding erase_holder
erase_holder-Holdless name [] = tt
erase_holder-Holdless name ((path, nodes) ∷ m) =
    (find-erase_self name nodes, erase_holder-Holdless name m)

pub Holdless-erase_holder :
    (n name : Bytes) (m : Map Bytes (Map Bytes SessionPtr))
    → Holdless n m
    → Holdless n (erase_holder name m)
unfolding erase_holder
Holdless-erase_holder n name [] h = tt
Holdless-erase_holder n name ((path, nodes) ∷ m) h =
    (find_erased n name nodes h.0, Holdless-erase_holder n name m h.1)

-- The holders of a file in a map of holders.
abbrev at_path : Bytes → Map Bytes (Map Bytes SessionPtr) → Map Bytes SessionPtr
at_path p m = elim (find p m) [ none ↦ [] | some nodes ↦ nodes ]

pub Holdless-find :
    (name p : Bytes) (m : Map Bytes (Map Bytes SessionPtr))
    → Holdless name m
    → find name (at_path p m) ≡ none
unfolding find
Holdless-find name p [] h = refl
Holdless-find name p ((path, nodes) ∷ m) h = elim (Bool-cases (bytes_eq path p)) [
  | inl here ↦ rw (find, here) h.0
  | inr away ↦ rw (find, away) (Holdless-find name p m h.1)
]

pub assign-Holdless :
    (name path : Bytes) (nodes : Map Bytes SessionPtr) (m : Map Bytes (Map Bytes SessionPtr))
    → find name nodes ≡ none
    → Holdless name m
    → Holdless name (assign path nodes m)
unfolding assign
assign-Holdless name path nodes [] h k = (h, tt)
assign-Holdless name path nodes ((q, old) ∷ m) h k = elim (Bool-cases (bytes_eq q path)) [
  | inl here ↦ rw here (h, k.1)
  | inr away ↦ elim (Bool-cases (bytes_before path q)) [
    | inl first ↦ rw (away, first) (h, k)
    | inr later ↦ rw (away, later) (k.0, assign-Holdless name path nodes m h k.1)
  ]
]

-- No pair of the list has the name.
abbrev pub Lacks : {V : Type 0} → Bytes → List (Bytes × V) → Type 0
Lacks name [] = Unit
Lacks name ((n, s) ∷ m) = (bytes_eq n name ≡ false) × Lacks name m

pub add_candidate-Lacks :
    (held : Option SessionPtr) (alive : Bool) (n : Bytes) (s : ℕ) (rest : List (Bytes × ℕ))
    (name : Bytes)
    → bytes_eq n name ≡ false
    → Lacks name rest
    → Lacks name (add_candidate held alive n s rest)
add_candidate-Lacks (some held) alive n s rest name d l = l
add_candidate-Lacks none true n s rest name d l = (d, l)
add_candidate-Lacks none false n s rest name d l = l

pub find-Lacks : (name : Bytes) (m : Map Bytes SessionPtr) → find name m ≡ none → Lacks name m
unfolding find
find-Lacks name [] h = tt
find-Lacks name ((n, s) ∷ m) h = elim (Bool-cases (bytes_eq n name)) [
  | inl same ↦ cc (rw same at h)
  | inr other ↦ (other, find-Lacks name m (rw other at h))
]

pub candidates-Lacks :
    (net : Net) (holders nodes : Map Bytes SessionPtr) (name : Bytes)
    → Lacks name nodes
    → Lacks name (candidates net holders nodes)
unfolding candidates
candidates-Lacks net holders [] name h = tt
candidates-Lacks net holders ((n, none) ∷ nodes) name h =
    candidates-Lacks net holders nodes name h.1
candidates-Lacks net holders ((n, some s) ∷ nodes) name h =
    add_candidate-Lacks (find n holders) (net.is_alive s) n s (candidates net holders nodes) name
      h.0 (candidates-Lacks net holders nodes name h.1)

pub find_added :
    (n name : Bytes) (s : SessionPtr) (m : Map Bytes SessionPtr)
    → bytes_eq n name ≡ false
    → find name m ≡ none
    → find name (assign n s m) ≡ none
find_added n name s m d h = ground (arith, find-assign name n s m, h, d)

pub copy_to-Lacks :
    (net : Net) (c : Call) (factor : ℕ) (nodes : List (Bytes × ℕ)) (m : Map Bytes SessionPtr)
    (name : Bytes)
    → Lacks name nodes
    → find name m ≡ none
    → find name (copy_to net c factor nodes m) ≡ none
unfolding copy_to
copy_to-Lacks net c factor [] m name l h = h
copy_to-Lacks net c factor ((n, s) ∷ nodes) m name l h =
    let here = find_added n name (some s) m l.0 h in
    elim (Bool-cases (is_ack (net.answer s c))) [
      | inr nack ↦ rw nack (copy_to-Lacks net c factor nodes m name l.1 h)
      | inl acks ↦ elim (Bool-cases (leb factor (length (assign n (some s) m)))) [
        | inl enough ↦ rw (acks, enough) here
        | inr few ↦
            rw (acks, few) (copy_to-Lacks net c factor nodes (assign n (some s) m) name l.1 here)
      ]
    ]

pub store_holders-Holdless :
    (path : Bytes) (m : Map Bytes SessionPtr) (name : Bytes) (st : State)
    → Lacks name m
    → Holdless name st.holders
    → Holdless name (store_holders path m st).holders
unfolding store_holders
store_holders-Holdless path [] name st l h = h
store_holders-Holdless path ((n, s) ∷ m) name st l h =
    store_holders-Holdless path m name (hold path n s st) l.1 (
      assign-Holdless name path (assign n s (holders_of path st)) st.holders
        (find_added n name s (holders_of path st) l.0 (Holdless-find name path st.holders h)) h)

pub store_holders_nodes :
    (path : Bytes) (m : Map Bytes SessionPtr) (st : State)
    → (store_holders path m st).data_nodes ≡ st.data_nodes
unfolding store_holders
store_holders_nodes path [] st = refl
store_holders_nodes path ((n, s) ∷ m) st = store_holders_nodes path m (hold path n s st)

pub add_target-Holdless :
    (held : Option SessionPtr) (needed : ℕ) (path : Bytes) (left : Map Bytes SessionPtr)
    (rest : List (Bytes × Map Bytes SessionPtr)) (name : Bytes)
    → find name left ≡ none
    → Holdless name rest
    → Holdless name (add_target held needed path left rest)
add_target-Holdless none needed path left rest name h k = k
add_target-Holdless (some s) needed path left rest name h k =
    elim (Bool-cases (ltb (length left) needed)) [
      | inl few ↦ rw few (h, k)
      | inr enough ↦ rw enough k
    ]

pub too_few_own :
    (needed : ℕ) (name : Bytes) (m : Map Bytes (Map Bytes SessionPtr))
    → Holdless name (too_few needed name m)
unfolding too_few
too_few_own needed name [] = tt
too_few_own needed name ((path, nodes) ∷ m) =
    add_target-Holdless (find name nodes) needed path (erase name nodes) (too_few needed name m)
      name (find-erase_self name nodes) (too_few_own needed name m)

pub too_few-Holdless :
    (needed : ℕ) (n name : Bytes) (m : Map Bytes (Map Bytes SessionPtr))
    → Holdless n m
    → Holdless n (too_few needed name m)
unfolding too_few
too_few-Holdless needed n name [] h = tt
too_few-Holdless needed n name ((path, nodes) ∷ m) h =
    add_target-Holdless (find name nodes) needed path (erase name nodes) (too_few needed name m) n
      (find_erased n name nodes h.0) (too_few-Holdless needed n name m h.1)
