-- ===== src/Parser/RoundTrip.antt =====
-- ihs/src/parser.cpp: a message with its length, printed as by the encoder, and parsed.
use fast_server.Prelude.{
  ℕ, suc, ◌+◌, ◌-◌, ◌^◌, ◌≤◌, ◌<◌, ◌≡◌, ◌≢◌, inl, List, [], ◌∷◌, ◌++◌, some, true, All, refl, ap,
  sym, ◌∙◌, arith, length, drop, length-append, length-drop,
}
use fast_server.Fix.{soh, decimal}
use fast_server.Parser
use fast_server.Parser.Digits.{decimal-All_ne}
use fast_server.Parser.Print.{read_field-print, drop-print}
use fast_server.Parser.Turns.{
  print_onto, store, printed, length-print_field, parse_fields-check, in_buffer, turn-print,
  others-print,
}
use fast_server.Parser.Printed.{
  Printed, fields_of, IsPrinted, note-begin, note-length, note-type, print_onto-append,
  store-append, calculate_body_length-print,
}

length-fields_le :
    (fields : List (ℕ × List ℕ)) (rest : List ℕ)
    → length fields + length rest ≤ length (print_onto fields rest)
length-fields_le [] rest = omega arith
length-fields_le ((tag, value) ∷ fields) rest =
    omega
      (arith, length-fields_le fields rest, length-print_field tag value (print_onto fields rest))

pub length-print_onto :
    (fields : List (ℕ × List ℕ)) (rest : List ℕ)
    → length (print_onto fields rest) ≡ length (print_onto fields []) + length rest
length-print_onto [] rest = omega arith
length-print_onto ((tag, value) ∷ fields) rest = omega (
  arith,
  length-print_onto fields rest,
  length-print_field tag value (print_onto fields rest),
  length-print_field tag value (print_onto fields []),
)

check_message-print :
    (buffer rest begin_value value : List ℕ) (start end size : ℕ) (h : Parser.Header)
    → drop start buffer ≡ print_onto ((8, begin_value) ∷ []) rest
    → All (λ c. c ≢ soh) begin_value
    → size < 2 ^ 31
    → end ≡ start + length (print_onto ((8, begin_value) ∷ []) []) + size
    → (h.has_begin_string ≡ true) × (h.has_body_length ≡ true) × (h.has_msg_type ≡ true)
    → h.length_value ≡ Parser.pos size
    → Parser.check_message buffer start
        (printed 10 value end)
        (Parser.insert_field (printed 10 value end) h)
      ≡ Parser.returns (Parser.add_field (Parser.pos 10) value h.msg, end + 1)
unfolding Parser.check_message Parser.verify_checksum Parser.size_of_int Parser.insert_field
check_message-print buffer rest b value start end size h e p s c (x, y, z) l =
    rw (x, y, z, l, calculate_body_length-print buffer rest b start end size e p s c) (ground arith)

abbrev header_of : Printed → Parser.Header
header_of m = record {
  msg = Parser.add_field (Parser.pos 35) m.type_value (
      Parser.add_field (Parser.pos 9) (decimal m.size)
        (Parser.add_field (Parser.pos 8) m.begin_value (record { fields = [] })));
  length_value = Parser.pos m.size;
  has_begin_string = true;
  has_body_length = true;
  has_msg_type = true;
}

-- The three fields at the front of a message.
front-print :
    (m : Printed) (fuel : ℕ) (buffer rest : List ℕ) (start : ℕ)
    → IsPrinted m
    → drop start buffer ≡ print_onto (fields_of m) rest
    → (next : ℕ) × (next
        ≡ start
          + length
              (print_onto ((8, m.begin_value) ∷ (9, decimal m.size) ∷ (35, m.type_value) ∷ []) []))
      × (Parser.parse_fields (suc (suc (suc fuel))) buffer start start Parser.no_header
          ≡ Parser.parse_fields fuel buffer start next (header_of m))
      × (drop next buffer ≡ print_onto m.others (print_onto ((10, m.check_value) ∷ []) rest))
front-print m fuel buffer rest start i e =
    let tail = print_onto (m.others ++ (10, m.check_value) ∷ []) rest in
    let empty : Parser.FixMessage = record { fields = [] } in
    let msg1 = Parser.add_field (Parser.pos 8) m.begin_value empty in
    let msg2 = Parser.add_field (Parser.pos 9) (decimal m.size) msg1 in
    let h1 : Parser.Header = record Parser.no_header { has_begin_string = true; msg = msg1 } in
    let h2 : Parser.Header = record h1 {
      has_body_length = true;
      length_value = Parser.pos m.size;
      msg = msg2;
    } in
    let n1 = start + length (print_onto ((8, m.begin_value) ∷ []) []) in
    let n2 = n1 + length (print_onto ((9, decimal m.size) ∷ []) []) in
    let n3 = n2 + length (print_onto ((35, m.type_value) ∷ []) []) in
    let one =
      turn-print (suc (suc fuel)) buffer
        (print_onto ((9, decimal m.size) ∷ (35, m.type_value) ∷ []) tail) m.begin_value start start
        n1 8 Parser.no_header h1 e (omega arith) i.plain_begin (omega arith) refl
        (λ end. note-begin end m.begin_value Parser.no_header) in
    let two =
      turn-print (suc fuel) buffer (print_onto ((35, m.type_value) ∷ []) tail) (decimal m.size)
        start n1 n2 9 h1 h2 one.1 (omega arith) (decimal-All_ne m.size soh (inl (omega arith)))
        (omega arith) refl (λ end. note-length end m.size h1 i.small) in
    let three =
      turn-print fuel buffer tail m.type_value start n2 n3 35 h2 (header_of m) two.1 (omega arith)
        i.plain_type (omega arith) refl (λ end. note-type end m.type_value h2) in
    (
      n3,
      omega (
        arith,
        length-print_field 8 m.begin_value [],
        length-print_field 9 (decimal m.size) [],
        length-print_field 35 m.type_value [],
        length-print_onto ((8, m.begin_value) ∷ [])
            (print_onto ((9, decimal m.size) ∷ (35, m.type_value) ∷ []) []),
        length-print_onto ((9, decimal m.size) ∷ []) (print_onto ((35, m.type_value) ∷ []) []),
      ),
      one.0 ∙ two.0 ∙ three.0,
      three.1 ∙ print_onto-append m.others ((10, m.check_value) ∷ []) rest,
    )

length-fields_of :
    (m : Printed) (rest : List ℕ) → 4 + length m.others ≤ length (print_onto (fields_of m) rest)
length-fields_of m rest =
    omega (
      arith,
      length-fields_le (fields_of m) rest,
      length-append m.others ((10, m.check_value) ∷ []),
    )

abbrev front_of : Printed → List (ℕ × List ℕ)
front_of m = (8, m.begin_value) ∷ (9, decimal m.size) ∷ (35, m.type_value) ∷ []

length-print_parts :
    (m : Printed)
    → length (print_onto (fields_of m) [])
      ≡ length (print_onto (front_of m) [])
        + length (print_onto m.others [])
        + (length (decimal 10) + suc (length m.check_value) + 1)
length-print_parts m =
    let check = print_onto ((10, m.check_value) ∷ []) [] in
    omega (
      arith,
      ap length (print_onto-append (front_of m ++ m.others) ((10, m.check_value) ∷ []) []),
      ap length (print_onto-append (front_of m) m.others check),
      length-print_onto (front_of m) (print_onto m.others check),
      length-print_onto m.others check,
      length-print_field 10 m.check_value [],
    )

-- A printed message in a buffer, at its start, is read with its fields, up to its end.
pub parse_message-print :
    (m : Printed) (buffer rest : List ℕ) (start : ℕ)
    → IsPrinted m
    → drop start buffer ≡ print_onto (fields_of m) rest
    → Parser.parse_message buffer start
      ≡ some (
          Parser.returns (
            store (fields_of m) (record { fields = [] }),
            start + length (print_onto (fields_of m) []),
          ))
unfolding Parser.parse_message Parser.same_int
parse_message-print m buffer rest start i e =
    let fuel = length buffer - (3 + length m.others) in
    let front = front-print m (length m.others + suc fuel) buffer rest start i e in
    let others =
      others-print m.others (suc fuel) buffer (print_onto ((10, m.check_value) ∷ []) rest) start
        front.0 (header_of m) front.3 i.others_other in
    let end = others.0 + (length (decimal 10) + suc (length m.check_value)) in
    let last : end + 1 ≡ start + length (print_onto (fields_of m) []) =
      omega (arith, others.1, front.1, length-print_parts m) in
    let enough : length buffer + 1 ≡ suc (suc (suc (length m.others + suc fuel))) =
      omega (arith, ap length e, length-drop start buffer, length-fields_of m rest) in
    let h : Parser.Header = record (header_of m) { msg = store m.others (header_of m).msg } in
    let checked =
      check_message-print buffer
        (print_onto
          ((9, decimal m.size) ∷ (35, m.type_value) ∷ (m.others ++ (10, m.check_value) ∷ [])) rest)
        m.begin_value m.check_value start end m.size h e i.plain_begin i.small
        (omega (arith, last, i.sized)) (refl, refl, refl) refl in
    ap (λ n. Parser.parse_fields n buffer start start Parser.no_header) enough
    ∙ front.2
    ∙ others.2
    ∙ parse_fields-check fuel buffer start others.0 h (printed 10 m.check_value end)
        (omega (arith, in_buffer buffer rest m.check_value others.0 10 others.3))
        (read_field-print buffer rest m.check_value others.0 10 others.3 (omega arith)
          i.plain_check)
        refl
    ∙ ap some checked
    ∙ ap (λ k. some (Parser.returns (Parser.add_field (Parser.pos 10) m.check_value h.msg, k))) last
    ∙ ap (λ msg. some (Parser.returns (msg, start + length (print_onto (fields_of m) []))))
        (sym (store-append m.others ((10, m.check_value) ∷ []) (header_of m).msg))

-- What stands behind printed fields.
pub drop-print_onto :
    (fields : List (ℕ × List ℕ)) (buffer rest : List ℕ) (at : ℕ)
    → drop at buffer ≡ print_onto fields rest
    → drop (at + length (print_onto fields [])) buffer ≡ rest
drop-print_onto [] buffer rest at e =
    ap (λ n. drop n buffer) {x = at + length {A = ℕ} []} (omega arith) ∙ e
drop-print_onto ((tag, value) ∷ fields) buffer rest at e =
    let next = at + length (print_onto ((tag, value) ∷ []) []) in
    ap (λ n. drop n buffer) {y = next + length (print_onto fields [])}
      (omega (
        arith,
        length-print_field tag value [],
        length-print_field tag value (print_onto fields []),
      ))
    ∙ drop-print_onto fields buffer rest next (
        drop-print buffer (print_onto fields rest) value at tag next e
          (omega (arith, length-print_field tag value [])))
