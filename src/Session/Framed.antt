-- ===== src/Session/Framed.antt =====
-- ihs/src/fix42.cpp: the fields that `deserialize` reads of a message that `serialize` wrote.
use fast_server.Prelude.{
  ℕ, false, List, [], ◌++◌, ◌≡◌, ◌≢◌, inl, inr, refl, ap, ◌∙◌, Bool-cases, All, arith, length,
  Option, some, if◌then◌else◌,
}
use fast_server.Fix.{soh, decimal}
use fast_server.Parser.{ℤ, pos, negsuc, same_int, find}
use fast_server.Parser.Digits.{decimal-All_ne}
use fast_server.Session.Wire.{
  Message, below_tag, put_field, fix_version, field_onto, is_framing, serialize_body,
  session_checksum, serialize_header, serialize, read_fields,
}
use fast_server.Session.Fields.{
  same_int→eq, find-put_self, find-put_ne, IsMap, IsText, read_fields-field, field_onto-append,
  put_body, read_fields-body, find-put_body_framing, find-put_body,
}

session_checksum-All_ne : (text : List ℕ) → All (λ c. c ≢ soh) (session_checksum text)
unfolding session_checksum
session_checksum-All_ne text = (ground arith, (ground arith, (ground arith, tt)))

fix_version-All_ne : All (λ c. c ≢ soh) fix_version
fix_version-All_ne = (
  ground arith,
  (
    ground arith,
    (ground arith, (ground arith, (ground arith, (ground arith, (ground arith, tt))))),
  ),
)

-- The fields that are read: the message's between the three that frame it.
abbrev pub framed : Message → List (ℤ × List ℕ)
framed msg =
    let body = serialize_body msg.fields in
    put_field (pos 10) (session_checksum (serialize_header body)) (
      put_body msg.fields
        (put_field (pos 9) (decimal (length body)) (put_field (pos 8) fix_version [])))

pub read_fields-serialize :
    (msg : Message) → IsText msg.fields → read_fields [] (serialize msg) [] ≡ framed msg
unfolding serialize serialize_header read_fields
read_fields-serialize msg h =
    let body = serialize_body msg.fields in
    let size = decimal (length body) in
    let sum = session_checksum (serialize_header body) in
    let tail = field_onto (pos 10) sum [] in
    ap (λ t. read_fields [] t [])
      (field_onto-append (pos 8) fix_version (field_onto (pos 9) size body) tail)
    ∙ read_fields-field 8 fix_version (field_onto (pos 9) size body ++ tail) [] (omega arith)
        fix_version-All_ne
    ∙ ap (λ t. read_fields [] t (put_field (pos 8) fix_version []))
        (field_onto-append (pos 9) size body tail)
    ∙ read_fields-field 9 size (body ++ tail) (put_field (pos 8) fix_version []) (omega arith)
        (decimal-All_ne (length body) soh (inl (omega arith)))
    ∙ read_fields-body msg.fields (put_field (pos 9) size (put_field (pos 8) fix_version [])) tail h
    ∙ read_fields-field 10 sum []
        (put_body msg.fields (put_field (pos 9) size (put_field (pos 8) fix_version [])))
        (omega arith) (session_checksum-All_ne (serialize_header body))

-- What a reader is to find under a tag: the version, the length of the body and the checksum where a
-- message has them, and the message's own field elsewhere.
unfoldable pub sent_field : Message → ℤ → Option (List ℕ)
sent_field msg tag =
    let body = serialize_body msg.fields in
    if same_int tag (pos 8)
    then some fix_version
    else if same_int tag (pos 9)
    then some (decimal (length body))
    else if same_int tag (pos 10)
    then some (session_checksum (serialize_header body))
    else find tag msg.fields

framed-version : (msg : Message) → find (pos 8) (framed msg) ≡ some fix_version
unfolding find put_field below_tag same_int
framed-version msg =
    let body = serialize_body msg.fields in
    let start = put_field (pos 9) (decimal (length body)) (put_field (pos 8) fix_version []) in
    find-put_ne (pos 8) (pos 10) (session_checksum (serialize_header body))
      (put_body msg.fields start) refl
    ∙ find-put_body_framing (pos 8) msg.fields start refl

framed-length :
    (msg : Message)
    → find (pos 9) (framed msg) ≡ some (decimal (length (serialize_body msg.fields)))
unfolding find put_field below_tag same_int
framed-length msg =
    let body = serialize_body msg.fields in
    let start = put_field (pos 9) (decimal (length body)) (put_field (pos 8) fix_version []) in
    find-put_ne (pos 9) (pos 10) (session_checksum (serialize_header body))
      (put_body msg.fields start) refl
    ∙ find-put_body_framing (pos 9) msg.fields start refl

pub framed-checksum :
    (msg : Message)
    → find (pos 10) (framed msg)
      ≡ some (session_checksum (serialize_header (serialize_body msg.fields)))
framed-checksum msg =
    let body = serialize_body msg.fields in
    let start = put_field (pos 9) (decimal (length body)) (put_field (pos 8) fix_version []) in
    find-put_self (pos 10) (session_checksum (serialize_header body)) (put_body msg.fields start)

not_framing :
    (t : ℤ)
    → is_framing t ≡ false
    → (same_int (pos 8) t ≡ false) × (same_int (pos 9) t ≡ false) × (same_int (pos 10) t ≡ false)
unfolding same_int
not_framing (pos n) h = (ground arith, ground arith, ground arith)
not_framing (negsuc n) h = (refl, refl, refl)

framed-other :
    (msg : Message) (tag : ℤ)
    → IsMap msg.fields
    → is_framing tag ≡ false
    → find tag (framed msg) ≡ find tag msg.fields
unfolding find
framed-other msg tag m h =
    let far = not_framing tag h in
    let body = serialize_body msg.fields in
    let front = put_field (pos 8) fix_version [] in
    let start = put_field (pos 9) (decimal (length body)) front in
    find-put_ne tag (pos 10) (session_checksum (serialize_header body)) (put_body msg.fields start)
      far.2
    ∙ find-put_body tag msg.fields start h
        (find-put_ne tag (pos 9) (decimal (length body)) front far.1
          ∙ find-put_ne tag (pos 8) fix_version [] far.0)
        m

pub find-framed :
    (msg : Message) (tag : ℤ) → IsMap msg.fields → find tag (framed msg) ≡ sent_field msg tag
unfolding sent_field
find-framed msg tag h = elim (Bool-cases (same_int tag (pos 8))) [
  | inl a ↦
      ap (λ t. find t (framed msg)) (same_int→eq tag (pos 8) a)
      ∙ framed-version msg
      ∙ ground (arith, a)
  | inr a ↦ elim (Bool-cases (same_int tag (pos 9))) [
    | inl b ↦
        ap (λ t. find t (framed msg)) (same_int→eq tag (pos 9) b)
        ∙ framed-length msg
        ∙ ground (arith, a, b)
    | inr b ↦ elim (Bool-cases (same_int tag (pos 10))) [
      | inl c ↦
          ap (λ t. find t (framed msg)) (same_int→eq tag (pos 10) c)
          ∙ framed-checksum msg
          ∙ ground (arith, a, b, c)
      | inr c ↦ framed-other msg tag h (ground (arith, a, b, c)) ∙ ground (arith, a, b, c)
    ]
  ]
]
