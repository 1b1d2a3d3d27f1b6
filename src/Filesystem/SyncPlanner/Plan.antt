-- ===== src/Filesystem/SyncPlanner/Plan.antt =====
-- The plan has, for each file, exactly the operation that the two versions call for.
use squid_storage.Prelude.{
  ◌≡◌, refl, if◌then◌else◌, Option, none, some, List, [], ◌∷◌, ◌++◌, arith, append-nil, inl, inr,
  ◌⊎◌, ltb→lt, Bool-cases, Option-cases,
}
use squid_storage.Prelude.Key.{Bytes, bytes_key, bytes_eq, bytes_eq_iff}
use squid_storage.Prelude.Int.{ℤ, pos, ltz, ◌<ℤ◌, eq_of_not_lt}
use squid_storage.Prelude.Map.{Map, find, erase}
use squid_storage.Prelude.Map.Laws.{IsOrdered, find-erase, erase-IsOrdered, find_before}
use squid_storage.Filesystem.SyncPlanner.{
  SyncOp, sync_op, upload, download, create_remote, compare_versions, scan_local, download_rest,
  plan_sync,
}

-- The operations of a plan on one file.
abbrev pub ops_for : Bytes → List SyncOp → List SyncOp
ops_for p [] = []
ops_for p (o ∷ os) = if bytes_eq o.file_path p then o ∷ ops_for p os else ops_for p os

-- What the two versions of a file call for.
abbrev pub wanted : Bytes → Option ℤ → Option ℤ → List SyncOp
wanted p (some l) (some r) = compare_versions p l r
wanted p (some l) none = sync_op create_remote p l ∷ []
wanted p none (some r) = sync_op download p r ∷ []
wanted p none none = []

ops_for-append :
    (p : Bytes) (xs ys : List SyncOp) → ops_for p (xs ++ ys) ≡ ops_for p xs ++ ops_for p ys
ops_for-append p [] ys = refl
ops_for-append p (x ∷ xs) ys = ground (arith, ops_for-append p xs ys)

ops_for-compare :
    (q p : Bytes) (l r : ℤ)
    → ops_for q (compare_versions p l r) ≡ (if bytes_eq p q then compare_versions p l r else [])
unfolding compare_versions
ops_for-compare q p l r = ground arith

ops_for-download_rest :
    (p : Bytes) (m : Map Bytes ℤ)
    → IsOrdered m
    → ops_for p (download_rest m) ≡ wanted p none (find p m)
unfolding download_rest find
ops_for-download_rest p [] o = refl
ops_for-download_rest p ((q, v) ∷ m) o =
    ground (arith, bytes_eq_iff q p, find_before q m o.0, ops_for-download_rest p m o.1)

-- What is left of the remote map after the first loop.
abbrev left_over : Option ℤ → Option ℤ → Option ℤ
left_over none r = r
left_over (some l) r = none

abbrev scanned : Bytes → Option ℤ → Option ℤ → List SyncOp
scanned p none r = []
scanned p (some l) r = wanted p (some l) r

scan_local-IsOrdered :
    (local remote : Map Bytes ℤ) → IsOrdered remote → IsOrdered (scan_local local remote).1
unfolding scan_local
scan_local-IsOrdered [] remote o = o
scan_local-IsOrdered ((p, v) ∷ local) remote o = elim (Option-cases (find p remote)) [
  | inl e ↦ rw (e, scan_local) (scan_local-IsOrdered local remote o)
  | inr (r, e) ↦
      rw (e, scan_local) (scan_local-IsOrdered local (erase p remote) (erase-IsOrdered p remote o))
]

-- The value of a key, with 0 where there is none.
abbrev known : Bytes → Map Bytes ℤ → ℤ
known p m = elim (find p m) [ some r ↦ r | none ↦ pos 0 ]

scan_local_lem :
    (q : Bytes) (local remote : Map Bytes ℤ)
    → IsOrdered local
    → (ops_for q (scan_local local remote).0 ≡ scanned q (find q local) (find q remote))
      × (find q (scan_local local remote).1 ≡ left_over (find q local) (find q remote))
unfolding scan_local find
scan_local_lem q [] remote o = (refl, refl)
scan_local_lem q ((p, v) ∷ local) remote o = ground (
  arith,
  bytes_eq_iff p q,
  find_before p local o.0,
  find-erase q p remote,
  scan_local_lem q local remote o.1,
  scan_local_lem q local (erase p remote) o.1,
  ops_for-append q (compare_versions p v (known p remote)) (scan_local local (erase p remote)).0,
  ops_for-compare q p v (known p remote),
  append-nil (compare_versions p v (known p remote)),
)

pub ops_for-wanted :
    (p : Bytes) (local remote : Map Bytes ℤ)
    → IsOrdered local
    → IsOrdered remote
    → ops_for p (plan_sync local remote) ≡ wanted p (find p local) (find p remote)
unfolding plan_sync
ops_for-wanted p local remote ol or = ground (
  arith,
  ops_for-append p (scan_local local remote).0 (download_rest (scan_local local remote).1),
  scan_local_lem p local remote ol,
  ops_for-download_rest p (scan_local local remote).1 (scan_local-IsOrdered local remote or),
  append-nil (wanted p (find p local) (find p remote)),
)

-- The operations on a file by its two versions: the newer side is copied, and a file that one side
-- lacks is sent to it.
abbrev pub Planned : Bytes → Option ℤ → Option ℤ → List SyncOp → Type 0
Planned p (some l) (some r) os =
    ((r <ℤ l) × (os ≡ sync_op upload p l ∷ []))
    ⊎ (((l <ℤ r) × (os ≡ sync_op download p r ∷ [])) ⊎ ((l ≡ r) × (os ≡ [])))
Planned p (some l) none os = os ≡ sync_op create_remote p l ∷ []
Planned p none (some r) os = os ≡ sync_op download p r ∷ []
Planned p none none os = os ≡ []

wanted-Planned : (p : Bytes) (l r : Option ℤ) → Planned p l r (wanted p l r)
unfolding compare_versions
wanted-Planned p (some l) (some r) = elim (Bool-cases (ltz r l)) [
  | inl below ↦ inl (ltb→lt _ _ below, rw below refl)
  | inr no_upload ↦ elim (Bool-cases (ltz l r)) [
    | inl above ↦ inr (inl (ltb→lt _ _ above, rw (no_upload, above) refl))
    | inr no_download ↦
        inr (inr (eq_of_not_lt l r no_download no_upload, rw (no_upload, no_download) refl))
  ]
]
wanted-Planned p (some l) none = refl
wanted-Planned p none (some r) = refl
wanted-Planned p none none = refl

-- Of two maps in key order, the plan has for each file the one operation that the file's versions
-- call for, and none where they agree or neither side has the file: an upload if the local version
-- is higher, a download if the remote one is, a creation or a download if one side has no file.
pub ops_for-plan_sync :
    (p : Bytes) (local remote : Map Bytes ℤ)
    → IsOrdered local
    → IsOrdered remote
    → Planned p (find p local) (find p remote) (ops_for p (plan_sync local remote))
ops_for-plan_sync p local remote ol or =
    rw (ops_for-wanted p local remote ol or) (wanted-Planned p (find p local) (find p remote))
