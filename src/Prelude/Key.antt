-- ===== src/Prelude/Key.antt =====
-- The keys of the ordered maps: an equality test and a strict order, with their laws. The program
-- has two kinds of keys, numbers and texts (`std::string`, as the list of its bytes).
use Prim.Native.Nat.{ℕ, compare, Ordering}
use Prim.Native.Char.{code}
use Prim.Native.String.{String}
use mathlib.Core.Path.{◌≡◌, refl}
use mathlib.Core.Logic.{◌↔◌}
use mathlib.Core.Bool.{Bool, true, false, ◌&&◌}
use mathlib.Core.List.{List, [], ◌∷◌}
use native.Mathlib.Omega.{arith}
use squid_storage.Prelude.Tests.{ltb, ◌==◌}

pub record Key {ℓ} (K : Type ℓ) : Type ℓ where
  pub eqb : K → K → Bool
  pub before : K → K → Bool
  pub eqb_iff : (a b : K) → (eqb a b ≡ true) ↔ (a ≡ b)
  pub before_irrefl : (a : K) → before a a ≡ false
  pub before_trans : (a b c : K) → before a b ≡ true → before b c ≡ true → before a c ≡ true
  pub before_total : (a b : K) → eqb a b ≡ false → before a b ≡ false → before b a ≡ true

-- A text is the list of its bytes.
abbrev pub Bytes : Type 0
Bytes = List ℕ

-- The bytes of a literal in ASCII.
abbrev pub codes : String → Bytes
codes String.[] = []
codes (String.◌∷◌ c s) = code c ∷ codes s

abbrev pub bytes_eq : Bytes → Bytes → Bool
bytes_eq [] [] = true
bytes_eq [] (b ∷ bs) = false
bytes_eq (a ∷ s) [] = false
bytes_eq (a ∷ s) (b ∷ t) = (a == b) && bytes_eq s t

-- The order of `std::string`, by its first difference.
abbrev pub bytes_before : Bytes → Bytes → Bool
bytes_before [] [] = false
bytes_before [] (b ∷ bs) = true
bytes_before (a ∷ s) [] = false
bytes_before (a ∷ s) (b ∷ t) = elim (compare a b) [
  | Ordering.lt ↦ true
  | Ordering.eq ↦ bytes_before s t
  | Ordering.gt ↦ false
]

pub bytes_eq_iff : (a b : Bytes) → (bytes_eq a b ≡ true) ↔ (a ≡ b)
bytes_eq_iff [] [] = ground arith
bytes_eq_iff [] (y ∷ ys) = ground arith
bytes_eq_iff (x ∷ xs) [] = ground arith
bytes_eq_iff (x ∷ xs) (y ∷ ys) = ground (arith, bytes_eq_iff xs ys)

pub bytes_before_irrefl : (a : Bytes) → bytes_before a a ≡ false
bytes_before_irrefl [] = refl
bytes_before_irrefl (x ∷ xs) = ground (arith, bytes_before_irrefl xs)

pub bytes_before_trans :
    (a b c : Bytes) → bytes_before a b ≡ true → bytes_before b c ≡ true → bytes_before a c ≡ true
bytes_before_trans [] [] c h k = cc
bytes_before_trans [] (y ∷ ys) [] h k = cc
bytes_before_trans [] (y ∷ ys) (z ∷ zs) h k = refl
bytes_before_trans (x ∷ xs) [] c h k = cc
bytes_before_trans (x ∷ xs) (y ∷ ys) [] h k = cc
bytes_before_trans (x ∷ xs) (y ∷ ys) (z ∷ zs) h k = ground (arith, bytes_before_trans xs ys zs)

pub bytes_before_total :
    (a b : Bytes) → bytes_eq a b ≡ false → bytes_before a b ≡ false → bytes_before b a ≡ true
bytes_before_total [] [] h k = cc
bytes_before_total [] (y ∷ ys) h k = cc
bytes_before_total (x ∷ xs) [] h k = refl
bytes_before_total (x ∷ xs) (y ∷ ys) h k = ground (arith, bytes_before_total xs ys)

instance abbrev pub bytes_key : Key Bytes
bytes_key = record {
  eqb = bytes_eq;
  before = bytes_before;
  eqb_iff = bytes_eq_iff;
  before_irrefl = bytes_before_irrefl;
  before_trans = bytes_before_trans;
  before_total = bytes_before_total;
}

pub nat_eq : (a b : ℕ) → ((a == b) ≡ true) ↔ (a ≡ b)
nat_eq a b = ground arith

pub nat_irrefl : (a : ℕ) → ltb a a ≡ false
nat_irrefl a = ground arith

pub nat_trans : (a b c : ℕ) → ltb a b ≡ true → ltb b c ≡ true → ltb a c ≡ true
nat_trans a b c h k = ground arith

pub nat_total : (a b : ℕ) → (a == b) ≡ false → ltb a b ≡ false → ltb b a ≡ true
nat_total a b h k = ground arith

instance abbrev pub nat_key : Key ℕ
nat_key = record {
  eqb = ◌==◌;
  before = ltb;
  eqb_iff = nat_eq;
  before_irrefl = nat_irrefl;
  before_trans = nat_trans;
  before_total = nat_total;
}
