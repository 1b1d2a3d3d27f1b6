-- ===== src/Transport/Channel/Stream.antt =====
-- How the network cuts the bytes makes no difference to who reads them in blocks.
use squid_storage.Prelude.{
  ℕ, zero, suc, ◌-◌, ◌≤◌, ◌<◌, ◌≡◌, refl, ◌∙◌, sym, none≢some, some-injective, ap, leb, leb→le,
  if◌then◌else◌, none, some, [], ◌∷◌, ◌++◌, arith, inl, inr, Bool-cases,
}
use squid_storage.Prelude.Lists.{
  length, take, drop, length-append, length-take, length-drop, take-append_length,
  drop-append_length, take-append_drop,
}
use squid_storage.Prelude.Key.{Bytes}
use squid_storage.Transport.Channel.{
  arrived, broken, Channel, Received, received, closed, failed, put_back, joined, recv_loop,
  recv_all, Reader, and_then, ◌>>=◌, as_option, recv_exact,
}

-- The bytes that arrive before the connection ends or breaks.
abbrev pub stream : Channel → Bytes
stream [] = []
stream (broken ∷ ch) = []
stream (arrived [] ∷ ch) = []
stream (arrived (b ∷ s) ∷ ch) = (b ∷ s) ++ stream ch

sub_zero : (n : ℕ) → n - 0 ≡ n
sub_zero n = omega arith

sub_suc : (n k : ℕ) → suc n - suc k ≡ n - k
sub_suc n k = omega arith

stream-put_back : (s : Bytes) (ch : Channel) → stream (put_back s ch) ≡ s ++ stream ch
stream-put_back [] ch = refl
stream-put_back (b ∷ s) ch = refl

take_parts :
    (n : ℕ) (s t : Bytes)
    → take n s ++ take (n - length (take n s)) (drop n s ++ t) ≡ take n (s ++ t)
take_parts zero s t = refl
take_parts (suc n) [] t = rw (sub_zero (suc n))
take_parts (suc n) (b ∷ s) t = rw (sub_suc n (length (take n s)), take_parts n s t)

drop_parts : (n : ℕ) (s t : Bytes) → drop (n - length (take n s)) (drop n s ++ t) ≡ drop n (s ++ t)
drop_parts zero s t = refl
drop_parts (suc n) [] t = rw (sub_zero (suc n))
drop_parts (suc n) (b ∷ s) t = rw (sub_suc n (length (take n s))) (drop_parts n s t)

parts_length :
    (n : ℕ) (s t : Bytes) → n ≤ length (s ++ t) → n - length (take n s) ≤ length (drop n s ++ t)
parts_length n s t h =
    omega
      (arith, h, length-append s t, length-append (drop n s) t, length-take n s, length-drop n s)

-- The channel after `n` of the bytes have been read as a block.
abbrev Reads : ℕ → Channel → Received × Channel → Type 0
Reads n ch result =
    (rest : Channel) × (result ≡ (received (take n (stream ch)), rest))
    × (stream rest ≡ drop n (stream ch))

loop_round :
    (fuel n b : ℕ) (s : Bytes) (ch : Channel)
    → Reads
        (n - length (take n s))
        (put_back (drop n s) ch)
        (recv_loop fuel (n - length (take n s)) (put_back (drop n s) ch))
    → Reads (suc n) (arrived (b ∷ s) ∷ ch) (recv_loop (suc fuel) (suc n) (arrived (b ∷ s) ∷ ch))
unfolding recv_loop
loop_round fuel n b s ch (rest, run, stays) = (
  rest,
  rw (
    sub_suc n (length (take n s)),
    run,
    stream-put_back (drop n s) ch,
    take_parts n s (stream ch),
  ),
  stays ∙ rw (stream-put_back (drop n s) ch, drop_parts n s (stream ch)),
)

-- A block of all that is asked for, whatever the cuts.
loop_enough :
    (fuel n : ℕ) (ch : Channel)
    → n ≤ fuel
    → n ≤ length (stream ch)
    → Reads n ch (recv_loop fuel n ch)
loop_enough fuel zero ch h k = (ch, unfold recv_loop in refl, refl)
loop_enough zero (suc n) ch h k = absurd (omega (arith, h))
loop_enough (suc fuel) (suc n) [] h k = absurd (omega (arith, k))
loop_enough (suc fuel) (suc n) (broken ∷ ch) h k = absurd (omega (arith, k))
loop_enough (suc fuel) (suc n) (arrived [] ∷ ch) h k = absurd (omega (arith, k))
loop_enough (suc fuel) (suc n) (arrived (b ∷ s) ∷ ch) h k = loop_round fuel n b s ch (
    loop_enough fuel (n - length (take n s)) (put_back (drop n s) ch) (omega (arith, h))
      (rw (stream-put_back (drop n s) ch) (parts_length n s (stream ch) (omega (arith, k)))))

-- Too few bytes are no block, however they are cut.
joined-none :
    (s : Bytes) (ch : Channel) (more : Received × Channel)
    → (as_option more).0 ≡ none
    → (as_option (joined (received s) ch more)).0 ≡ none
joined-none s ch (received t, rest) h = absurd (cc)
joined-none s ch (closed, rest) h = refl
joined-none s ch (failed, rest) h = refl

loop_short :
    (fuel n : ℕ) (ch : Channel)
    → length (stream ch) < n
    → (as_option (recv_loop fuel n ch)).0 ≡ none
unfolding recv_loop
loop_short fuel zero ch h = absurd (omega (arith, h))
loop_short zero (suc n) ch h = refl
loop_short (suc fuel) (suc n) [] h = refl
loop_short (suc fuel) (suc n) (broken ∷ ch) h = refl
loop_short (suc fuel) (suc n) (arrived [] ∷ ch) h = refl
loop_short (suc fuel) (suc n) (arrived (b ∷ s) ∷ ch) h =
    joined-none (take (suc n) (b ∷ s)) (put_back (drop n s) ch)
      (recv_loop fuel (suc n - suc (length (take n s))) (put_back (drop n s) ch))
      (loop_short fuel (suc n - suc (length (take n s))) (put_back (drop n s) ch) (
        rw (stream-put_back (drop n s) ch) (
          omega (
            arith,
            h,
            length-append s (stream ch),
            length-append (drop n s) (stream ch),
            length-take n s,
            length-drop n s,
          ))))

-- A read of exactly `n` bytes gives the first `n` bytes that the connection delivers before it
-- ends or breaks, however the network cuts them, and it gives nothing if they are fewer.
pub recv_exact-eq_take :
    (n : ℕ) (ch : Channel)
    → (recv_exact n ch).0 ≡ (if leb n (length (stream ch)) then some (take n (stream ch)) else none)
unfolding recv_exact recv_all
recv_exact-eq_take n ch = elim (Bool-cases (leb n (length (stream ch)))) [
  | inl e ↦ rw e (
      ap (λ r. (as_option r).0)
        (loop_enough n n ch (omega arith) (leb→le n (length (stream ch)) e)).1)
  | inr e ↦ rw e (loop_short n n ch (ground (arith, e)))
]

-- What is at the front of the stream is read, and the rest stays.
pub recv_exact-front :
    (s rest : Bytes) (ch : Channel)
    → stream ch ≡ s ++ rest
    → (left : Channel) × (recv_exact (length s) ch ≡ (some s, left)) × (stream left ≡ rest)
unfolding recv_exact recv_all
recv_exact-front s rest ch e =
    let (left, run, stays) =
      loop_enough (length s) (length s) ch (omega arith)
        (rw e (omega (arith, length-append s rest))) in
    (
      left,
      ap as_option run ∙ rw (e, take-append_length s rest),
      stays ∙ rw (e, drop-append_length s rest),
    )

-- What was read was the front of the stream.
recv_loop_took :
    (n : ℕ) (s : Bytes) (ch left : Channel)
    → recv_exact n ch ≡ (some s, left)
    → n ≤ length (stream ch)
    → (length s ≡ n) × (stream ch ≡ s ++ stream left)
unfolding recv_exact recv_all
recv_loop_took n s ch left h k =
    let (d, run, stays) = loop_enough n n ch (omega arith) k in
    let same = sym (ap as_option run) ∙ h in
    let front = some-injective (ap (λ r. r.0) same) in
    (
      omega (arith, ap length front, length-take n (stream ch), k),
      sym (take-append_drop n (stream ch))
          ∙ ap (λ r. r ++ drop n (stream ch)) front
          ∙ ap (λ r. s ++ r) (sym stays ∙ ap (λ r. stream r.1) same),
    )

pub recv_exact-took :
    (n : ℕ) (s : Bytes) (ch left : Channel)
    → recv_exact n ch ≡ (some s, left)
    → (length s ≡ n) × (stream ch ≡ s ++ stream left)
recv_exact-took n s ch left h = elim (Bool-cases (leb n (length (stream ch)))) [
  | inl e ↦ recv_loop_took n s ch left h (leb→le n (length (stream ch)) e)
  | inr e ↦ absurd (none≢some (sym (recv_exact-eq_take n ch ∙ rw e) ∙ ap (λ r. r.0) h))
]

-- A reader reads all of the stream up to `rest` and gives `a`.
module _ {ℓ} {A : Type ℓ} where
  abbrev pub Yields : Reader A → Channel → A → Bytes → Type ℓ
  Yields m ch a rest = (left : Channel) × (m ch ≡ (some a, left)) × (stream left ≡ rest)

pub Yields-then {ℓ κ} :
    {A : Type ℓ} {B : Type κ} (m : Reader A) (f : A → Reader B) (ch : Channel) (a : A) (b : B)
    (middle rest : Bytes)
    → Yields m ch a middle
    → ((d : Channel) → stream d ≡ middle → Yields (f a) d b rest)
    → Yields (m >>= f) ch b rest
Yields-then m f ch a b middle rest (d, run, e) h =
    let (left, goes, stays) = h d e in (left, ap (λ r. and_then r f) run ∙ goes, stays)
