-- ===== src/Standby/Snapshot.antt =====
-- common/src/squidprotocol/squidProtocolFormatter.cpp, parseSnapEntry and
-- stateSnapFormat: the entries of a snapshot.
pub mod RoundTrip
use squid_storage.Prelude.{◌==◌, if◌then◌else◌, Option, none, some, List, [], ◌∷◌, ◌++◌, ℕ}
use squid_storage.Prelude.Key.{Bytes, bytes_eq, bytes_before, bytes_key}
use squid_storage.Prelude.Int.{ℤ}
use squid_storage.Prelude.Map.{Map, find}
use squid_storage.Protocol.Opcode.{state_snap, snap_entry, epoch}
use squid_storage.Protocol.Frame.{Fallible, BinaryField}
use squid_storage.Protocol.Message.{field_string, field_uint32}
use squid_storage.Protocol.Format.{request}
use squid_storage.Prelude.Text.{read_word, read_int, show_int}

-- A `std::set<string>` is the list of its elements in their order.
unfoldable pub insert_name : Bytes → List Bytes → List Bytes
insert_name x [] = x ∷ []
insert_name x (y ∷ ys) =
    if bytes_eq y x then y ∷ ys else if bytes_before x y then x ∷ y ∷ ys else y ∷ insert_name x ys

-- The set of the elements of a list.
unfoldable pub set_of : List Bytes → List Bytes
set_of [] = []
set_of (x ∷ xs) = insert_name x (set_of xs)

-- A byte before the parts that the rest of the text has.
abbrev pub cut_at : ℕ → List Bytes → List Bytes
cut_at c [] = []
cut_at c (part ∷ parts) = if c == 44 then [] ∷ part ∷ parts else (c ∷ part) ∷ parts

-- The parts between the commas.
unfoldable pub split_commas : Bytes → List Bytes
split_commas [] = [] ∷ []
split_commas (c ∷ s) = cut_at c (split_commas s)

unfoldable pub nonempty : List Bytes → List Bytes
nonempty [] = []
nonempty ([] ∷ xs) = nonempty xs
nonempty ((c ∷ s) ∷ xs) = (c ∷ s) ∷ nonempty xs

abbrev pub names_in : Option (Bytes × Bytes) → List Bytes
names_in none = []
names_in (some r) = set_of (nonempty (split_commas r.0))

abbrev pub data_nodes_in : Bytes → List Bytes
data_nodes_in s = names_in (read_word s)

abbrev pub with_nodes : Bytes → Option (ℤ × Bytes) → Option (Bytes × ℤ × List Bytes)
with_nodes path none = none
with_nodes path (some t) = some (path, t.0, data_nodes_in t.1)

abbrev pub with_version : Option (Bytes × Bytes) → Option (Bytes × ℤ × List Bytes)
with_version none = none
with_version (some r) = with_nodes r.0 (read_int r.1)

-- The path, the version and the data nodes; `none` where the source returns false.
unfoldable pub parse_snap_entry : Bytes → Option (Bytes × ℤ × List Bytes)
parse_snap_entry entry = with_version (read_word entry)

-- The names with commas between them.
unfoldable pub join_commas : List Bytes → Bytes
join_commas [] = []
join_commas (n ∷ []) = n
join_commas (n ∷ m ∷ ns) = n ++ 44 ∷ join_commas (m ∷ ns)

abbrev pub nodes_text : List Bytes → Bytes
nodes_text [] = []
nodes_text (n ∷ ns) = 32 ∷ join_commas (n ∷ ns)

-- The entry of a file, and the fields of `stateSnapFormat`.
unfoldable pub snap_text : Bytes → ℤ → List Bytes → Bytes
snap_text path v nodes = path ++ 32 ∷ (show_int v ++ nodes_text nodes)

abbrev pub nodes_or_none : Option (List Bytes) → List Bytes
nodes_or_none none = []
nodes_or_none (some ns) = ns

unfoldable pub snap_entries : Map Bytes ℤ → Map Bytes (List Bytes) → List BinaryField
snap_entries [] holders = []
snap_entries ((path, v) ∷ m) holders =
    field_string snap_entry (snap_text path v (nodes_or_none (find path holders)))
    ∷ snap_entries m holders

unfoldable pub state_snap_format : Map Bytes ℤ → Map Bytes (List Bytes) → ℕ → Fallible Bytes
unfolding snap_entries
state_snap_format versions holders e =
    request state_snap (field_uint32 epoch e ∷ snap_entries versions holders)
