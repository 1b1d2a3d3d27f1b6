-- ===== src/Prelude/Map.antt =====
-- `std::map`: an association list in the order of its keys, which is the order of iteration.
pub mod Laws
use mathlib.Core.Path.{◌≡◌}
use mathlib.Core.Bool.{Bool, true, false}
use mathlib.Core.List.{List, [], ◌∷◌}
use mathlib.Core.Option.{Option, none, some}
use squid_storage.Prelude.Tests.{if◌then◌else◌}
use squid_storage.Prelude.Lists.{All}
use squid_storage.Prelude.Key.{Key}

abbrev pub Map {ℓ κ} : Type ℓ → Type κ → Type (ℓ ⊔ κ)
Map K V = List (K × V)

module _ {ℓ κ} {K : Type ℓ} {V : Type κ} ⦃key : Key K⦄ where
  -- `find`: the value, or `none` where the source has `end()`.
  unfoldable pub find : K → Map K V → Option V
  find k [] = none
  find k ((j, v) ∷ m) = if key.eqb j k then some v else find k m

  -- `m[k] = v`.
  unfoldable pub assign : K → V → Map K V → Map K V
  assign k v [] = (k, v) ∷ []
  assign k v ((j, w) ∷ m) =
      if key.eqb j k
      then (k, v) ∷ m
      else if key.before k j
      then (k, v) ∷ (j, w) ∷ m
      else (j, w) ∷ assign k v m

  -- `erase(k)`.
  unfoldable pub erase : K → Map K V → Map K V
  erase k [] = []
  erase k ((j, w) ∷ m) = if key.eqb j k then erase k m else (j, w) ∷ erase k m

  -- `insert({k, v})` and `emplace(k, v)`, which leave an entry that is there.
  unfoldable pub insert : K → V → Map K V → Map K V
  unfolding find assign
  insert k v m = elim (find k m) [ none ↦ assign k v m | some w ↦ m ]

  -- Every key comes after `k`.
  abbrev pub After : K → Map K V → Type 0
  After k [] = Unit
  After k ((j, v) ∷ m) = (key.before k j ≡ true) × After k m
