-- ===== src/Transport/Frames/Parses.antt =====
-- Every frame that is received can be parsed, and takes its bytes from the stream.
use squid_storage.Prelude.{
  ℕ, zero, suc, ◌≤◌, ◌≡◌, refl, ◌∙◌, sym, ap, subst, some-injective, ltb, le→not-ltb, ◌==◌,
  Bool-cases, inl, inr, true, Option, none, some, none≢some, List, [], ◌∷◌, ◌++◌, append_assoc,
  arith,
}
use squid_storage.Prelude.Lists.{length, length-append, take-append_length, drop-append_length}
use squid_storage.Prelude.Key.{Bytes}
use squid_storage.Protocol.Opcode.{opcode_of, field_of}
use squid_storage.Protocol.Frame.{
  returns, BinaryField, Message, parse_fields, parse_message, read_u16, read_u32, squid_magic,
}
use squid_storage.Transport.Channel.{Channel, Reader, ◌>>=◌, and_then, gives, recv_exact}
use squid_storage.Transport.Channel.Stream.{stream, recv_exact-took}
use squid_storage.Transport.Frames.{
  field_length, receive_field, receive_fields, max_payload_size, receive_payload, after_header,
  receive_frame,
}

-- A reader that gave a value gave it from what its first part gave.
pub and_then-some {ℓ κ} :
    {A : Type ℓ} {B : Type κ} (r : Option A × Channel) (f : A → Reader B) (b : B) (left : Channel)
    → and_then r f ≡ (some b, left)
    → (a : A) × (d : Channel) × (r ≡ (some a, d)) × (f a d ≡ (some b, left))
and_then-some (none, d) f b left h = absurd (cc)
and_then-some (some a, d) f b left h = (a, d, refl, h)

-- One round: the bytes of a field, whose length is right.
abbrev IsFieldBytes : Bytes → Type 0
IsFieldBytes s =
    (i : ℕ) × (h : ℕ) × (l : ℕ) × (value : Bytes) × (s ≡ i ∷ h ∷ l ∷ value)
    × (length value ≡ read_u16 h l)

join_field :
    (fhdr value : Bytes)
    → length fhdr ≡ 3
    → length value ≡ field_length fhdr
    → IsFieldBytes (fhdr ++ value)
join_field (i ∷ h ∷ l ∷ []) value e k = (i, h, l, value, refl, k)
join_field [] value e k = absurd (omega (arith, e))
join_field (i ∷ []) value e k = absurd (omega (arith, e))
join_field (i ∷ h ∷ []) value e k = absurd (omega (arith, e))
join_field (i ∷ h ∷ l ∷ b ∷ s) value e k = absurd (omega (arith, e))

pub took_both :
    (s t : Bytes) (ch d left : Channel)
    → stream ch ≡ s ++ stream d
    → stream d ≡ t ++ stream left
    → stream ch ≡ (s ++ t) ++ stream left
took_both s t ch d left e f = e ∙ ap (λ r. s ++ r) f ∙ sym (append_assoc s t (stream left))

receive_field_took :
    (s : Bytes) (ch left : Channel)
    → receive_field ch ≡ (some s, left)
    → IsFieldBytes s × (stream ch ≡ s ++ stream left)
unfolding receive_field
receive_field_took s ch left e =
    let (fhdr, d, first, then_value) =
      and_then-some (recv_exact 3 ch)
        (λ fhdr. recv_exact (field_length fhdr) >>= λ value. gives (fhdr ++ value)) s left e in
    let (value, d2, second, done) =
      and_then-some (recv_exact (field_length fhdr) d) (λ value. gives (fhdr ++ value)) s left
        then_value in
    let (three, front) = recv_exact-took 3 fhdr ch d first in
    let (long, back) = recv_exact-took (field_length fhdr) value d d2 second in
    let whole = some-injective (ap (λ r. r.0) done) in
    (
      subst IsFieldBytes whole (join_field fhdr value three long),
      took_both fhdr value ch d d2 front back
          ∙ ap (λ r. r ++ stream d2) whole
          ∙ ap (λ r. s ++ stream r.1) done,
    )

-- The fields can be parsed, whatever follows them.
abbrev Parses : ℕ → Bytes → Type 0
Parses n s = (fs : List BinaryField) × ((rest : Bytes) → parse_fields n (s ++ rest) ≡ returns fs)

parse_at :
    (n i h l : ℕ) (value rest : Bytes) (fs : List BinaryField)
    → length value ≡ read_u16 h l
    → parse_fields n rest ≡ returns fs
    → parse_fields (suc n) (i ∷ h ∷ l ∷ value ++ rest)
      ≡ returns (record { id = field_of i; value = value } ∷ fs)
unfolding parse_fields
parse_at n i h l value rest fs k p = rw (
  sym k,
  le→not-ltb (length (value ++ rest)) (length value) (omega (arith, length-append value rest)),
  take-append_length value rest,
  drop-append_length value rest,
  p,
)

parse_one : (n : ℕ) (s more : Bytes) → IsFieldBytes s → Parses n more → Parses (suc n) (s ++ more)
parse_one n s more (i, h, l, value, e, k) (fs, p) = (
  record { id = field_of i; value = value } ∷ fs,
  λ rest.
      rw (e, append_assoc value more rest) (parse_at n i h l value (more ++ rest) fs k (p rest)),
)

receive_fields_took :
    (n : ℕ) (s : Bytes) (ch left : Channel)
    → receive_fields n ch ≡ (some s, left)
    → Parses n s × (stream ch ≡ s ++ stream left)
unfolding receive_fields
receive_fields_took zero s ch left e =
    let empty = some-injective (ap (λ r. r.0) e) in
    (
      ([], λ rest. unfold parse_fields in refl),
      ap (λ r. stream r.1) e ∙ ap (λ r. r ++ stream left) empty,
    )
receive_fields_took (suc n) s ch left e =
    let (field, d, first, then_more) =
      and_then-some (receive_field ch) (λ field. receive_fields n >>= λ more. gives (field ++ more))
        s left e in
    let (more, d2, second, done) =
      and_then-some (receive_fields n d) (λ more. gives (field ++ more)) s left then_more in
    let (ok, front) = receive_field_took field ch d first in
    let (parses, back) = receive_fields_took n more d d2 second in
    let whole = some-injective (ap (λ r. r.0) done) in
    (
      subst (Parses (suc n)) whole (parse_one n field more ok parses),
      took_both field more ch d d2 front back
          ∙ ap (λ r. r ++ stream d2) whole
          ∙ ap (λ r. s ++ stream r.1) done,
    )

receive_payload_took :
    (n : ℕ) (s : Bytes) (ch left : Channel)
    → receive_payload n ch ≡ (some s, left)
    → stream ch ≡ s ++ stream left
unfolding receive_payload
receive_payload_took n s ch left e = elim (Bool-cases (ltb max_payload_size n)) [
  | inl b ↦ absurd (none≢some (sym (rw b) ∙ ap (λ r. r.0) e))
  | inr b ↦ (recv_exact-took n s ch left (sym (rw b) ∙ e)).1
]

abbrev CanParse : Bytes → Type 0
CanParse s = (msg : Message) × (parse_message s ≡ returns msg)

header_parses :
    (m n op fl nf b t u v p q r w : ℕ) (rest : Bytes) (fs : List BinaryField)
    → (read_u16 m n == squid_magic) ≡ true
    → parse_fields nf rest ≡ returns fs
    → CanParse (m ∷ n ∷ op ∷ fl ∷ nf ∷ b ∷ t ∷ u ∷ v ∷ p ∷ q ∷ r ∷ w ∷ rest)
unfolding parse_message
header_parses m n op fl nf b t u v p q r w rest fs magic parses = (
  record {
    opcode = opcode_of op;
    flags = fl;
    seq = read_u32 b t u v;
    payload_len = read_u32 p q r w;
    fields = fs;
  },
  rw (magic, parses),
)

-- The rest of a frame after its header.
abbrev Completes : Bytes → Bytes → Channel → Channel → Type 0
Completes header s ch left =
    (more : Bytes) × (s ≡ header ++ more) × (stream ch ≡ more ++ stream left) × CanParse s

-- The header's number of fields and payload length are `nf` and `k`.
rest_took :
    (header : Bytes) (nf k : ℕ) (s : Bytes) (ch left : Channel)
    → (receive_fields nf >>= λ fields.
          receive_payload k >>= λ payload. gives (header ++ (fields ++ payload)))
        ch
      ≡ (some s, left)
    → (fields : Bytes) × (payload : Bytes) × (header ++ (fields ++ payload) ≡ s)
      × (stream ch ≡ (fields ++ payload) ++ stream left)
      × Parses nf fields
rest_took header nf k s ch left e =
    let (fields, d, first, then_more) =
      and_then-some (receive_fields nf ch)
        (λ fields. receive_payload k >>= λ payload. gives (header ++ (fields ++ payload))) s left
        e in
    let (payload, d2, second, done) =
      and_then-some (receive_payload k d) (λ payload. gives (header ++ (fields ++ payload))) s left
        then_more in
    let (parses, front) = receive_fields_took nf fields ch d first in
    let back = receive_payload_took k payload d d2 second in
    (
      fields,
      payload,
      some-injective (ap (λ r. r.0) done),
      took_both fields payload ch d d2 front back
          ∙ ap (λ r. (fields ++ payload) ++ stream r.1) done,
      parses,
    )

after_header_took :
    (header s : Bytes) (ch left : Channel)
    → after_header header ch ≡ (some s, left)
    → Completes header s ch left
unfolding after_header
after_header_took (m ∷ n ∷ op ∷ fl ∷ nf ∷ b ∷ t ∷ u ∷ v ∷ p ∷ q ∷ r ∷ w ∷ []) s ch left e =
    let header = m ∷ n ∷ op ∷ fl ∷ nf ∷ b ∷ t ∷ u ∷ v ∷ p ∷ q ∷ r ∷ w ∷ [] in
    elim (Bool-cases (read_u16 m n == squid_magic)) [
      | inl magic ↦
          let (fields, payload, whole, took, (fs, parses)) =
            rest_took header nf (read_u32 p q r w) s ch left (sym (rw magic) ∙ e) in
          (
            fields ++ payload,
            sym whole,
            took,
            subst CanParse whole (
                header_parses m n op fl nf b t u v p q r w (fields ++ payload) fs magic
                  (parses payload)),
          )
      | inr other ↦ absurd (none≢some (sym (rw other) ∙ ap (λ r. r.0) e))
    ]
after_header_took _ s ch left e = absurd (none≢some (ap (λ r. r.0) e))

-- A frame that is received is at least a header, it is the front of the stream, with the rest left
-- for later, and it can be parsed: `receiveAndParse` never meets a parse error in what it reads.
pub receive_frame-parse_message :
    (raw : Bytes) (ch left : Channel)
    → receive_frame ch ≡ (some raw, left)
    → (13 ≤ length raw)
      × (stream ch ≡ raw ++ stream left)
      × ((msg : Message) × (parse_message raw ≡ returns msg))
unfolding receive_frame
receive_frame-parse_message raw ch left e =
    let (header, d, first, then_rest) = and_then-some (recv_exact 13 ch) after_header raw left e in
    let (long, front) = recv_exact-took 13 header ch d first in
    let (more, whole, back, parses) = after_header_took header raw d left then_rest in
    (
      omega (arith, long, ap length whole, length-append header more),
      took_both header more ch d left front back ∙ ap (λ r. r ++ stream left) (sym whole),
      parses,
    )
