-- ===== src/Parser/Turns.antt =====
-- ihs/src/parser.cpp: the loop of `parseMessage` over fields that are printed as the encoder of
-- ihs/src/encoder.cpp prints them.
use fast_server.Prelude.{
  ℕ, suc, ◌+◌, ◌^◌, ◌<◌, ◌≡◌, ◌≢◌, List, [], ◌∷◌, ◌++◌, some, true, false, All, refl, ap, sym, ◌∙◌,
  arith, length, drop, length-append, length-drop,
}
use fast_server.Fix.{soh, equal_sign, decimal}
use fast_server.Parser
use fast_server.Parser.Print.{read_field-print, drop-print}

-- Fields in front of a text, as the encoder prints them.
abbrev pub print_onto : List (ℕ × List ℕ) → List ℕ → List ℕ
print_onto [] rest = rest
print_onto ((tag, value) ∷ fields) rest =
    decimal tag ++ equal_sign ∷ (value ++ soh ∷ print_onto fields rest)

abbrev pub store : List (ℕ × List ℕ) → Parser.FixMessage → Parser.FixMessage
store [] msg = msg
store ((tag, value) ∷ fields) msg = store fields (Parser.add_field (Parser.pos tag) value msg)

-- A field beside those that the parser looks at.
pub record IsOther (field : ℕ × List ℕ) : Type 0 where
  pub fits : field.0 < 2 ^ 31
  pub no_begin : field.0 ≢ 8
  pub no_length : field.0 ≢ 9
  pub no_type : field.0 ≢ 35
  pub no_check : field.0 ≢ 10
  pub plain : All (λ c. c ≢ soh) field.1

abbrev pub printed : ℕ → List ℕ → ℕ → Parser.Field
printed tag value field_end = record { tag = Parser.pos tag; value = value; field_end = field_end }

pub length-print_field :
    (tag : ℕ) (value rest : List ℕ)
    → length (print_onto ((tag, value) ∷ []) rest)
      ≡ length (decimal tag) + suc (length value) + 1 + length rest
length-print_field tag value rest = omega (
  arith,
  length-append (decimal tag) (equal_sign ∷ (value ++ soh ∷ rest)),
  length-append value (soh ∷ rest),
)

-- The loop at a field that was printed.
parse_fields-read :
    (fuel : ℕ) (buffer : List ℕ) (start at : ℕ) (h h2 : Parser.Header) (f : Parser.Field)
    → at < length buffer
    → Parser.read_field buffer at ≡ Parser.returns f
    → Parser.same_int f.tag Parser.check_sum ≡ false
    → Parser.note_field f (Parser.insert_field f h) ≡ Parser.returns h2
    → Parser.parse_fields (suc fuel) buffer start at h
      ≡ Parser.parse_fields fuel buffer start (f.field_end + 1) h2
unfolding Parser.parse_fields
parse_fields-read fuel buffer start at h h2 f i r c n = ground arith

pub parse_fields-check :
    (fuel : ℕ) (buffer : List ℕ) (start at : ℕ) (h : Parser.Header) (f : Parser.Field)
    → at < length buffer
    → Parser.read_field buffer at ≡ Parser.returns f
    → Parser.same_int f.tag Parser.check_sum ≡ true
    → Parser.parse_fields (suc fuel) buffer start at h
      ≡ some (Parser.check_message buffer start f (Parser.insert_field f h))
unfolding Parser.parse_fields
parse_fields-check fuel buffer start at h f i r c = ground arith

not_check : (tag : ℕ) → tag ≢ 10 → Parser.same_int (Parser.pos tag) Parser.check_sum ≡ false
unfolding Parser.same_int
not_check tag h = ground arith

pub in_buffer :
    (buffer rest value : List ℕ) (at tag : ℕ)
    → drop at buffer ≡ print_onto ((tag, value) ∷ []) rest
    → at + length (decimal tag) + length value + 1 < length buffer
in_buffer buffer rest value at tag e =
    omega (arith, ap length e, length-print_field tag value rest, length-drop at buffer)

-- A turn of the loop on a printed field that is not the checksum.
pub turn-print :
    (fuel : ℕ) (buffer rest value : List ℕ) (start at next tag : ℕ) (h h2 : Parser.Header)
    → drop at buffer ≡ print_onto ((tag, value) ∷ []) rest
    → tag < 2 ^ 31
    → All (λ c. c ≢ soh) value
    → tag ≢ 10
    → next ≡ at + length (print_onto ((tag, value) ∷ []) [])
    → ((end : ℕ)
        → Parser.note_field (printed tag value end) (Parser.insert_field (printed tag value end) h)
          ≡ Parser.returns h2)
    → (Parser.parse_fields (suc fuel) buffer start at h
        ≡ Parser.parse_fields fuel buffer start next h2)
      × (drop next buffer ≡ rest)
turn-print fuel buffer rest value start at next tag h h2 e b p d m n =
    let end = at + (length (decimal tag) + suc (length value)) in
    let place : end + 1 ≡ next = omega (arith, m, length-print_field tag value []) in
    (
      parse_fields-read fuel buffer start at h h2 (printed tag value end)
            (omega (arith, in_buffer buffer rest value at tag e))
            (read_field-print buffer rest value at tag e b p) (not_check tag d) (n end)
          ∙ ap (λ k. Parser.parse_fields fuel buffer start k h2) place,
      drop-print buffer rest value at tag next e (sym place),
    )

note-other :
    (tag end : ℕ) (value : List ℕ) (h : Parser.Header)
    → IsOther (tag, value)
    → Parser.note_field (printed tag value end) (Parser.insert_field (printed tag value end) h)
      ≡ Parser.returns (record h { msg = Parser.add_field (Parser.pos tag) value h.msg })
unfolding Parser.note_field Parser.insert_field Parser.same_int
note-other tag end value h o = ground (arith, o.no_begin, o.no_length, o.no_type)

-- The loop over printed fields that the parser does not look at.
pub others-print :
    (fields : List (ℕ × List ℕ)) (fuel : ℕ) (buffer rest : List ℕ) (start at : ℕ)
    (h : Parser.Header)
    → drop at buffer ≡ print_onto fields rest
    → All IsOther fields
    → (next : ℕ) × (next ≡ at + length (print_onto fields []))
      × (Parser.parse_fields (length fields + fuel) buffer start at h
          ≡ Parser.parse_fields fuel buffer start next (record h { msg = store fields h.msg }))
      × (drop next buffer ≡ rest)
others-print [] fuel buffer rest start at h e a = (
  at,
  omega arith,
  ap (λ n. Parser.parse_fields n buffer start at h) {x = length {A = ℕ × List ℕ} [] + fuel}
      (omega arith),
  e,
)
others-print ((tag, value) ∷ fields) fuel buffer rest start at h e (o, a) =
    let mid = at + length (print_onto ((tag, value) ∷ []) []) in
    let h2 = record h { msg = Parser.add_field (Parser.pos tag) value h.msg } in
    let one =
      turn-print (length fields + fuel) buffer (print_onto fields rest) value start at mid tag h h2
        e o.fits o.plain o.no_check refl (λ end. note-other tag end value h o) in
    let more = others-print fields fuel buffer rest start mid h2 one.1 a in
    (
      more.0,
      omega (
        arith,
        more.1,
        length-print_field tag value [],
        length-print_field tag value (print_onto fields []),
      ),
      ap (λ n. Parser.parse_fields n buffer start at h) {x = suc (length fields) + fuel}
            (omega arith)
          ∙ one.0
          ∙ more.2,
      more.3,
    )
