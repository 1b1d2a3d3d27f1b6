-- ===== src/Standby/Snapshot/RoundTrip.antt =====
-- An entry of a snapshot is read back as the file, its version and its data nodes.
use squid_storage.Prelude.{
  ℕ, ◌≡◌, refl, ◌∙◌, sym, ap, true, false, Bool-cases, inl, inr, ◌==◌, some, List, [], ◌∷◌, ◌++◌,
  arith,
}
use squid_storage.Prelude.Lists.{All}
use squid_storage.Prelude.Key.{Bytes, bytes_eq_iff, bytes_before, bytes_before_irrefl}
use squid_storage.Prelude.Int.{ℤ, IsInt}
use squid_storage.Prelude.Text.{skip_spaces, span_word, read_word, show_int}
use squid_storage.Prelude.Text.Decimal.{NoDigit, read_int-show_int}
use squid_storage.Prelude.Text.Lines.{NotSpace, IsWord, read_word-append, read_word-end}
use squid_storage.Standby.Snapshot.{
  insert_name, set_of, cut_at, split_commas, nonempty, names_in, data_nodes_in, with_nodes,
  with_version, parse_snap_entry, join_commas, nodes_text, snap_text,
}

abbrev pub NotComma : ℕ → Type 0
NotComma c = (c == 44) ≡ false

-- A name without a space or a comma.
abbrev pub IsName : Bytes → Type 0
IsName s = IsWord s × All NotComma s

-- Names in the order of a set, each once.
abbrev pub IsNameSet : List Bytes → Type 0
IsNameSet [] = Unit
IsNameSet (x ∷ []) = Unit
IsNameSet (x ∷ y ∷ ys) = (bytes_before x y ≡ true) × IsNameSet (y ∷ ys)

cut_at-parts :
    (c : ℕ) (p : Bytes) (ps : List Bytes)
    → (q : Bytes) × (qs : List Bytes) × (cut_at c (p ∷ ps) ≡ q ∷ qs)
cut_at-parts c p ps = elim (Bool-cases (c == 44)) [
  | inl e ↦ ([], p ∷ ps, rw e)
  | inr e ↦ (c ∷ p, ps, rw e)
]

-- There is always a part.
split_commas-parts : (s : Bytes) → (p : Bytes) × (ps : List Bytes) × (split_commas s ≡ p ∷ ps)
unfolding split_commas
split_commas-parts [] = ([], [], refl)
split_commas-parts (c ∷ s) =
    let (p, ps, e) = split_commas-parts s in
    let (q, qs, f) = cut_at-parts c p ps in (q, qs, ap (cut_at c) e ∙ f)

split_commas-append :
    (s rest : Bytes) → All NotComma s → split_commas (s ++ 44 ∷ rest) ≡ (s ∷ split_commas rest)
unfolding split_commas
split_commas-append [] rest h =
    let (p, ps, e) = split_commas-parts rest in ap (cut_at 44) e ∙ ap (λ r. [] ∷ r) (sym e)
split_commas-append (c ∷ s) rest h = ap (cut_at c) (split_commas-append s rest h.1) ∙ rw h.0

split_commas-end : (s : Bytes) → All NotComma s → split_commas s ≡ s ∷ []
unfolding split_commas
split_commas-end [] h = refl
split_commas-end (c ∷ s) h = ap (cut_at c) (split_commas-end s h.1) ∙ rw h.0

split_commas-join_commas :
    (n : Bytes) (ns : List Bytes)
    → All IsName (n ∷ ns)
    → split_commas (join_commas (n ∷ ns)) ≡ n ∷ ns
unfolding join_commas
split_commas-join_commas n [] h = split_commas-end n h.0.1
split_commas-join_commas n (m ∷ ns) h =
    split_commas-append n (join_commas (m ∷ ns)) h.0.1
    ∙ ap (λ r. n ∷ r) (split_commas-join_commas m ns h.1)

nonempty-names : (ns : List Bytes) → All IsName ns → nonempty ns ≡ ns
unfolding nonempty
nonempty-names [] h = refl
nonempty-names ([] ∷ ns) h = absurd h.0.0
nonempty-names ((c ∷ s) ∷ ns) h = ap (λ r. (c ∷ s) ∷ r) (nonempty-names ns h.1)

insert_name-first :
    (x y : Bytes) (ys : List Bytes) → bytes_before x y ≡ true → insert_name x (y ∷ ys) ≡ x ∷ y ∷ ys
unfolding insert_name
insert_name-first x y ys h = ground (arith, h, bytes_eq_iff y x, bytes_before_irrefl x)

set_of-IsNameSet : (ns : List Bytes) → IsNameSet ns → set_of ns ≡ ns
unfolding set_of
set_of-IsNameSet [] h = refl
set_of-IsNameSet (x ∷ []) h = unfold insert_name in refl
set_of-IsNameSet (x ∷ y ∷ ys) h =
    ap (insert_name x) (set_of-IsNameSet (y ∷ ys) h.1) ∙ insert_name-first x y ys h.0

NotSpace-append : (s t : Bytes) → All NotSpace s → All NotSpace t → All NotSpace (s ++ t)
NotSpace-append [] t h k = k
NotSpace-append (c ∷ s) t h k = (h.0, NotSpace-append s t h.1 k)

IsWord-NotSpace : (s : Bytes) → IsWord s → All NotSpace s
IsWord-NotSpace (c ∷ s) h = h
IsWord-NotSpace [] h = absurd h

join_commas-NotSpace : (ns : List Bytes) → All IsName ns → All NotSpace (join_commas ns)
unfolding join_commas
join_commas-NotSpace [] h = tt
join_commas-NotSpace (n ∷ []) h = IsWord-NotSpace n h.0.0
join_commas-NotSpace (n ∷ m ∷ ns) h =
    NotSpace-append n (44 ∷ join_commas (m ∷ ns)) (IsWord-NotSpace n h.0.0)
      (refl, join_commas-NotSpace (m ∷ ns) h.1)

join_commas-IsWord :
    (n : Bytes) (ns : List Bytes) → All IsName (n ∷ ns) → IsWord (join_commas (n ∷ ns))
unfolding join_commas
join_commas-IsWord [] ns h = absurd h.0.0
join_commas-IsWord (c ∷ s) [] h = h.0.0
join_commas-IsWord (c ∷ s) (m ∷ ns) h = join_commas-NotSpace ((c ∷ s) ∷ m ∷ ns) h

nodes_read : (ns : List Bytes) → All IsName ns → IsNameSet ns → data_nodes_in (nodes_text ns) ≡ ns
nodes_read [] h o = unfold read_word span_word skip_spaces in refl
nodes_read (n ∷ ns) h o =
    ap names_in (read_word-end (join_commas (n ∷ ns)) (join_commas-IsWord n ns h))
    ∙ ap (λ r. set_of (nonempty r)) (split_commas-join_commas n ns h)
    ∙ ap set_of (nonempty-names (n ∷ ns) h)
    ∙ set_of-IsNameSet (n ∷ ns) o

nodes_text-NoDigit : (ns : List Bytes) → NoDigit (nodes_text ns)
nodes_text-NoDigit [] = tt
nodes_text-NoDigit (n ∷ ns) = refl

-- The entry of a file whose path has no space, with data nodes whose names have neither a space nor a
-- comma, is read back as the path, the version and the same set of names.
pub parse_snap_entry-snap_text :
    (path : Bytes) (v : ℤ) (nodes : List Bytes)
    → IsWord path
    → IsInt v
    → All IsName nodes
    → IsNameSet nodes
    → parse_snap_entry (snap_text path v nodes) ≡ some (path, v, nodes)
unfolding parse_snap_entry snap_text
parse_snap_entry-snap_text path v nodes w h names o =
    ap with_version (read_word-append path (show_int v ++ nodes_text nodes) w)
    ∙ ap (with_nodes path) (read_int-show_int v (nodes_text nodes) h (nodes_text-NoDigit nodes))
    ∙ ap (λ r. some (path, v, r)) (nodes_read nodes names o)
