-- ===== src/Prelude/Map/Laws.antt =====
-- The laws of the ordered map: what a lookup finds after each change, and that every change keeps
-- the keys in order, each once.
use mathlib.Core.Path.{◌≡◌, refl}
use mathlib.Core.Logic.{◌≢◌, inl, inr}
use mathlib.Core.Bool.{true}
use mathlib.Core.List.{[], ◌∷◌, ◌++◌, append_assoc}
use mathlib.Core.Option.{none, some}
use native.Mathlib.Omega.{arith}
use squid_storage.Prelude.Tests.{if◌then◌else◌, Option-cases}
use squid_storage.Prelude.Key.{Key}
use squid_storage.Prelude.Map.{Map, find, assign, erase, insert, After}

module _ {ℓ κ} {K : Type ℓ} {V : Type κ} ⦃key : Key K⦄ where
  pub find-assign :
      (j k : K) (v : V) (m : Map K V)
      → find j (assign k v m) ≡ (if key.eqb k j then some v else find j m)
  unfolding find assign
  find-assign j k v [] = refl
  find-assign j k v ((i, w) ∷ m) =
      ground (arith, key.eqb_iff k j, key.eqb_iff i k, key.eqb_iff i j, find-assign j k v m)

  pub find-erase :
      (j k : K) (m : Map K V) → find j (erase k m) ≡ (if key.eqb k j then none else find j m)
  unfolding find erase
  find-erase j k [] = ground arith
  find-erase j k ((i, w) ∷ m) =
      ground (arith, key.eqb_iff k j, key.eqb_iff i k, key.eqb_iff i j, find-erase j k m)

  pub find-assign_self : (k : K) (v : V) (m : Map K V) → find k (assign k v m) ≡ some v
  find-assign_self k v m = ground (arith, find-assign k k v m, key.eqb_iff k k)

  pub find-erase_self : (k : K) (m : Map K V) → find k (erase k m) ≡ none
  find-erase_self k m = ground (arith, find-erase k k m, key.eqb_iff k k)

  pub find-assign_ne : (j k : K) (v : V) (m : Map K V) → k ≢ j → find j (assign k v m) ≡ find j m
  find-assign_ne j k v m h = ground (arith, find-assign j k v m, key.eqb_iff k j)

  pub find-erase_ne : (j k : K) (m : Map K V) → k ≢ j → find j (erase k m) ≡ find j m
  find-erase_ne j k m h = ground (arith, find-erase j k m, key.eqb_iff k j)

  pub find-insert_old : (k : K) (v w : V) (m : Map K V) → find k m ≡ some w → insert k v m ≡ m
  unfolding insert
  find-insert_old k v w m h = rw (h, insert)

  pub find-insert_new :
      (k : K) (v : V) (m : Map K V) → find k m ≡ none → find k (insert k v m) ≡ some v
  unfolding insert
  find-insert_new k v m h = rw (h, insert) (find-assign_self k v m)

  pub find-insert_ne : (j k : K) (v : V) (m : Map K V) → k ≢ j → find j (insert k v m) ≡ find j m
  unfolding insert
  find-insert_ne j k v m h = elim (Option-cases (find k m)) [
    | inl e ↦ rw (e, insert) (find-assign_ne j k v m h)
    | inr (w, e) ↦ rw (e, insert)
  ]

  -- The keys in order.
  abbrev pub IsOrdered : Map K V → Type 0
  IsOrdered [] = Unit
  IsOrdered ((k, v) ∷ m) = After k m × IsOrdered m

  After-trans : (i k : K) (m : Map K V) → key.before i k ≡ true → After k m → After i m
  After-trans i k [] h a = tt
  After-trans i k ((j, w) ∷ m) h a = (key.before_trans i k j h a.0, After-trans i k m h a.1)

  After-assign :
      (i k : K) (v : V) (m : Map K V) → key.before i k ≡ true → After i m → After i (assign k v m)
  unfolding assign
  After-assign i k v [] h a = (h, tt)
  After-assign i k v ((j, w) ∷ m) h a = ground (arith, After-assign i k v m, key.eqb_iff j k)

  After-erase : (i k : K) (m : Map K V) → After i m → After i (erase k m)
  unfolding erase
  After-erase i k [] a = tt
  After-erase i k ((j, w) ∷ m) a = ground (arith, After-erase i k m)

  pub assign-IsOrdered : (k : K) (v : V) (m : Map K V) → IsOrdered m → IsOrdered (assign k v m)
  unfolding assign
  assign-IsOrdered k v [] o = (tt, tt)
  assign-IsOrdered k v ((j, w) ∷ m) o = ground (
    arith,
    key.eqb_iff j k,
    key.before_total j k,
    key.before_total k j,
    key.eqb_iff k j,
    After-trans k j m,
    After-assign j k v m,
    assign-IsOrdered k v m o.1,
  )

  pub erase-IsOrdered : (k : K) (m : Map K V) → IsOrdered m → IsOrdered (erase k m)
  unfolding erase
  erase-IsOrdered k [] o = tt
  erase-IsOrdered k ((j, w) ∷ m) o = ground (arith, After-erase j k m, erase-IsOrdered k m o.1)

  -- A key that comes before all others is not found.
  pub find_before : (k : K) (m : Map K V) → After k m → find k m ≡ none
  unfolding find
  find_before k [] a = refl
  find_before k ((j, w) ∷ m) a =
      ground (arith, key.eqb_iff j k, key.before_irrefl k, find_before k m a.1)

  -- Every key comes before `k`.
  abbrev pub Before : Map K V → K → Type 0
  Before [] k = Unit
  Before ((j, v) ∷ m) k = (key.before j k ≡ true) × Before m k

  After-append :
      (j k : K) (v : V) (xs m : Map K V) → After j (xs ++ (k, v) ∷ m) → key.before j k ≡ true
  After-append j k v [] m a = a.0
  After-append j k v (x ∷ xs) m a = After-append j k v xs m a.1

  IsOrdered-Before : (k : K) (v : V) (xs m : Map K V) → IsOrdered (xs ++ (k, v) ∷ m) → Before xs k
  IsOrdered-Before k v [] m o = tt
  IsOrdered-Before k v ((j, w) ∷ xs) m o =
      (After-append j k v xs m o.0, IsOrdered-Before k v xs m o.1)

  assign_last : (k : K) (v : V) (xs : Map K V) → Before xs k → assign k v xs ≡ xs ++ (k, v) ∷ []
  unfolding assign
  assign_last k v [] b = refl
  assign_last k v ((j, w) ∷ xs) b =
      ground (
        arith,
        key.eqb_iff j k,
        key.before_irrefl j,
        key.before_trans j k j,
        assign_last k v xs b.1,
      )

  -- In key order, `assign` appends.
  pub assign-append :
      (k : K) (v : V) (xs m : Map K V)
      → IsOrdered (xs ++ (k, v) ∷ m)
      → assign k v xs ++ m ≡ xs ++ (k, v) ∷ m
  assign-append k v xs m o =
      rw (assign_last k v xs (IsOrdered-Before k v xs m o)) (append_assoc xs ((k, v) ∷ []) m)
