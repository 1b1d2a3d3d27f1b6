-- ===== src/Protocol/Frame/Truncated.antt =====
-- What building refuses, and that a frame cut short is never taken for a whole one.
use squid_storage.Prelude.{
  ℕ, zero, suc, ◌+◌, ◌≤◌, ◌<◌, ◌≡◌, ◌⊎◌, ◌^◌, refl, sym, ap, ◌∙◌, ◌↔◌, ltb, ◌==◌, List, [], ◌∷◌,
  ◌++◌, append-nil, arith, Bool-cases, inl, inr, not-ltb→le, le→not-ltb,
}
use squid_storage.Prelude.Lists.{length, take, drop, All, length-append, length-take, length-drop}
use squid_storage.Prelude.Key.{Bytes}
use squid_storage.Protocol.Opcode.{Opcode, field_of}
use squid_storage.Protocol.Frame.{
  Error, Fallible, returns, throws, ◌>>=◌, BinaryField, Message, read_u16, squid_magic,
  build_fields, build_frame, stamp_seq, parse_fields, parse_message, frame_header_size,
}
use squid_storage.Protocol.Frame.RoundTrip.{
  IsOpcode, IsField, Fits, field_bytes, body, build_frame-eq_returns, parse_message-build_frame,
}

>>=-eq-returns {ℓ κ} :
    {A : Type ℓ} {B : Type κ} (m : Fallible A) (f : A → Fallible B) {b : B}
    → (m >>= f) ≡ returns b
    → (a : A) × (m ≡ returns a) × (f a ≡ returns b)
>>=-eq-returns (returns a) f h = (a, refl, h)
>>=-eq-returns (throws e) f h = cc

returns-injective {ℓ} : {A : Type ℓ} {a b : A} → returns a ≡ returns b → a ≡ b
returns-injective h = cc

Fallible-cases {ℓ} :
    {A : Type ℓ} (r : Fallible A) → ((e : Error) × (r ≡ throws e)) ⊎ ((a : A) × (r ≡ returns a))
Fallible-cases (returns a) = inr (a, refl)
Fallible-cases (throws e) = inl (e, refl)

length-body_cons :
    (f : BinaryField) (fs : List BinaryField)
    → length (body (f ∷ fs)) ≡ 3 + length f.value + length (body fs)
unfolding body field_bytes
length-body_cons f fs = omega (arith, length-append (field_bytes f) (body fs))

build_fields-Fits :
    (fs : List BinaryField) (bytes : Bytes) → build_fields fs ≡ returns bytes → All Fits fs
unfolding build_fields
build_fields-Fits [] bytes h = tt
build_fields-Fits (f ∷ fs) bytes h = elim (Bool-cases (ltb 65535 (length f.value))) [
  | inl big ↦ cc (rw big at h)
  | inr small ↦
      let whole = >>=-eq-returns (build_fields fs) _ (rw small at h) in
      (not-ltb→le _ _ small, build_fields-Fits fs whole.0 whole.1)
]

build_frame-Fits :
    (op : Opcode) (flags payload_len : ℕ) (fs : List BinaryField) (frame : Bytes)
    → build_frame op flags fs payload_len ≡ returns frame
    → (length fs ≤ 255) × All Fits fs
unfolding build_frame
build_frame-Fits op flags payload_len fs frame h = elim (Bool-cases (ltb 255 (length fs))) [
  | inl big ↦ cc (rw big at h)
  | inr small ↦
      let whole = >>=-eq-returns (build_fields fs) _ (rw small at h) in
      (not-ltb→le _ _ small, build_fields-Fits fs whole.0 whole.1)
]

-- A frame is built exactly when it has at most 255 fields, each of at most 65535 bytes; otherwise
-- an exception is thrown.
pub build_frame-returns_iff :
    (op : Opcode) (flags payload_len : ℕ) (fs : List BinaryField)
    → ((frame : Bytes) × (build_frame op flags fs payload_len ≡ returns frame))
      ↔ ((length fs ≤ 255) × All Fits fs)
build_frame-returns_iff op flags payload_len fs = (
  λ built. build_frame-Fits op flags payload_len fs built.0 built.1,
  λ h. (_, build_frame-eq_returns op flags payload_len fs h.0 h.1),
)

take-append : (n : ℕ) (xs ys : Bytes) → n ≤ length xs → take n (xs ++ ys) ≡ take n xs
take-append zero xs ys h = refl
take-append (suc n) [] ys h = absurd (omega arith)
take-append (suc n) (x ∷ xs) ys h = rw (take-append n xs ys (omega arith))

drop-append : (n : ℕ) (xs ys : Bytes) → n ≤ length xs → drop n (xs ++ ys) ≡ drop n xs ++ ys
drop-append zero xs ys h = refl
drop-append (suc n) [] ys h = absurd (omega arith)
drop-append (suc n) (x ∷ xs) ys h = drop-append n xs ys (omega arith)

-- One field that was read: its value was there whole.
parse_fields_step :
    (n i a l : ℕ) (rest : Bytes) (fs : List BinaryField)
    → parse_fields (suc n) (i ∷ a ∷ l ∷ rest) ≡ returns fs
    → (tl : List BinaryField) × (read_u16 a l ≤ length rest)
      × (parse_fields n (drop (read_u16 a l) rest) ≡ returns tl)
      × (record { id = field_of i; value = take (read_u16 a l) rest } ∷ tl ≡ fs)
unfolding parse_fields
parse_fields_step n i a l rest fs h = elim (Bool-cases (ltb (length rest) (read_u16 a l))) [
  | inl short ↦ cc (rw short at h)
  | inr full ↦
      let (tl, read, e) =
        >>=-eq-returns (parse_fields n (drop (read_u16 a l) rest)) _ (rw full at h) in
      (tl, not-ltb→le _ _ full, read, returns-injective e)
]

-- More bytes at the end change nothing once the fields are complete.
parse_fields-append :
    (n : ℕ) (xs ys : Bytes) (fs : List BinaryField)
    → parse_fields n xs ≡ returns fs
    → parse_fields n (xs ++ ys) ≡ returns fs
unfolding parse_fields
parse_fields-append zero xs ys fs h = h
parse_fields-append (suc n) (i ∷ a ∷ l ∷ rest) ys fs h =
    let (tl, fits, read, e) = parse_fields_step n i a l rest fs h in
    rw (
      le→not-ltb (length (rest ++ ys)) (read_u16 a l) (omega (arith, length-append rest ys)),
      take-append (read_u16 a l) rest ys fits,
      drop-append (read_u16 a l) rest ys fits,
      parse_fields-append n (drop (read_u16 a l) rest) ys tl read,
      e,
    )
parse_fields-append (suc n) [] ys fs h = cc
parse_fields-append (suc n) (i ∷ []) ys fs h = cc
parse_fields-append (suc n) (i ∷ a ∷ []) ys fs h = cc

parse_fields-length :
    (n : ℕ) (xs : Bytes) (fs : List BinaryField)
    → parse_fields n xs ≡ returns fs
    → length (body fs) ≤ length xs
unfolding parse_fields
parse_fields-length zero xs fs h = rw (← returns-injective h) (unfold body in omega arith)
parse_fields-length (suc n) (i ∷ a ∷ l ∷ rest) fs h =
    let (tl, fits, read, e) = parse_fields_step n i a l rest fs h in
    rw (← e) (
      omega (
        arith,
        length-body_cons (record { id = field_of i; value = take (read_u16 a l) rest }) tl,
        length-take (read_u16 a l) rest,
        length-drop (read_u16 a l) rest,
        parse_fields-length n (drop (read_u16 a l) rest) tl read,
      ))
parse_fields-length (suc n) [] fs h = cc
parse_fields-length (suc n) (i ∷ []) fs h = cc
parse_fields-length (suc n) (i ∷ a ∷ []) fs h = cc

parse_message-append :
    (xs ys : Bytes) (m : Message)
    → parse_message xs ≡ returns m
    → parse_message (xs ++ ys) ≡ returns m
unfolding parse_message
parse_message-append (a ∷ b ∷ op ∷ fl ∷ nf ∷ s ∷ t ∷ u ∷ v ∷ p ∷ q ∷ r ∷ w ∷ rest) ys m h =
    elim (Bool-cases (read_u16 a b == squid_magic)) [
      | inl good ↦
          let (fs, read, e) = >>=-eq-returns (parse_fields nf rest) _ (rw good at h) in
          rw (good, parse_fields-append nf rest ys fs read) e
      | inr bad ↦ cc (rw bad at h)
    ]
parse_message-append _ ys m h = cc

parse_message-length :
    (xs : Bytes) (m : Message)
    → parse_message xs ≡ returns m
    → frame_header_size + length (body m.fields) ≤ length xs
unfolding parse_message
parse_message-length (a ∷ b ∷ op ∷ fl ∷ nf ∷ s ∷ t ∷ u ∷ v ∷ p ∷ q ∷ r ∷ w ∷ rest) m h =
    elim (Bool-cases (read_u16 a b == squid_magic)) [
      | inl good ↦
          let (fs, read, e) = >>=-eq-returns (parse_fields nf rest) _ (rw good at h) in
          rw (← returns-injective e) (omega (arith, parse_fields-length nf rest fs read))
      | inr bad ↦ cc (rw bad at h)
    ]
parse_message-length _ m h = cc

-- A built frame, stamped, is read whole.
whole_message :
    (op : Opcode) (flags payload_len seq : ℕ) (fs : List BinaryField) (frame : Bytes)
    → IsOpcode op
    → payload_len < 2 ^ 32
    → seq < 2 ^ 32
    → All IsField fs
    → build_frame op flags fs payload_len ≡ returns frame
    → parse_message (stamp_seq frame seq)
      ≡ returns
          (record { opcode = op; flags = flags; seq = seq; payload_len = payload_len; fields = fs })
whole_message op flags payload_len seq fs frame io hp hs i built =
    let fits = build_frame-Fits op flags payload_len fs frame built in
    let read = parse_message-build_frame op flags payload_len seq fs [] io hp hs fits.0 i fits.1 in
    rw (built, append-nil (stamp_seq frame seq)) at read

length-stamp_seq :
    (op : Opcode) (flags payload_len seq : ℕ) (fs : List BinaryField) (frame : Bytes)
    → build_frame op flags fs payload_len ≡ returns frame
    → length (stamp_seq frame seq) ≡ frame_header_size + length (body fs)
unfolding stamp_seq
length-stamp_seq op flags payload_len seq fs frame built =
    let fits = build_frame-Fits op flags payload_len fs frame built in
    let e = build_frame-eq_returns op flags payload_len fs fits.0 fits.1 in
    rw (← returns-injective (sym e ∙ built)) (omega arith)

-- Whatever strict prefix of a frame has arrived, parsing it throws: no message is made up from the
-- front of a frame that was cut short.
pub parse_message_truncated :
    (op : Opcode) (flags payload_len seq x : ℕ) (fs : List BinaryField) (frame front back : Bytes)
    → IsOpcode op
    → payload_len < 2 ^ 32
    → seq < 2 ^ 32
    → All IsField fs
    → build_frame op flags fs payload_len ≡ returns frame
    → stamp_seq frame seq ≡ front ++ x ∷ back
    → (e : Error) × (parse_message front ≡ throws e)
parse_message_truncated op flags payload_len seq x fs frame front back io hp hs i built cut =
    elim (Fallible-cases (parse_message front)) [
      | inl (e, failed) ↦ (e, failed)
      | inr (m, read) ↦
          let same = whole_message op flags payload_len seq fs frame io hp hs i built in
          let more = parse_message-append front (x ∷ back) m read in
          absurd (
            omega (
              arith,
              length-stamp_seq op flags payload_len seq fs frame built,
              ap length cut,
              length-append front (x ∷ back),
              parse_message-length front m read,
              ap (λ (n : Message). length (body n.fields))
                  (returns-injective (sym more ∙ (rw cut at same))),
            ))
    ]
