-- ===== src/Parser/Printed.antt =====
-- ihs/src/parser.cpp: a message with its length, as the encoder prints it, and the
-- variables that `parseMessage` keeps of its fields.
use fast_server.Prelude.{
  ℕ, ◌+◌, ◌^◌, ◌<◌, ◌≡◌, ◌≢◌, inl, List, [], ◌∷◌, ◌++◌, true, All, refl, ap, sym, ◌∙◌, arith,
  length, drop, length-append, append_assoc,
}
use fast_server.Fix.{soh, equal_sign, decimal, index_of}
use fast_server.Fix.Replace.{index_of_here}
use fast_server.Parser
use fast_server.Parser.Digits.{stoi-decimal, decimal-All_ne}
use fast_server.Parser.Print.{All-join}
use fast_server.Parser.Turns.{print_onto, store, IsOther, printed, length-print_field}

-- A message: the fields that the parser looks at, the others, and the number in its field 9.
pub record Printed : Type 0 where
  pub begin_value : List ℕ
  pub size : ℕ
  pub type_value : List ℕ
  pub others : List (ℕ × List ℕ)
  pub check_value : List ℕ

abbrev pub fields_of : Printed → List (ℕ × List ℕ)
fields_of m =
    (8, m.begin_value)
    ∷ (9, decimal m.size)
    ∷ (35, m.type_value)
    ∷ (m.others ++ (10, m.check_value) ∷ [])

-- No value has a separator, the others are other fields, and the size is the number of characters
-- between the end of the first field and the last separator.
pub record IsPrinted (m : Printed) : Type 0 where
  pub plain_begin : All (λ c. c ≢ soh) m.begin_value
  pub plain_type : All (λ c. c ≢ soh) m.type_value
  pub plain_check : All (λ c. c ≢ soh) m.check_value
  pub others_other : All IsOther m.others
  pub small : m.size < 2 ^ 31
  pub sized :
      length (print_onto (fields_of m) [])
      ≡ length (print_onto ((8, m.begin_value) ∷ []) []) + m.size + 1

pub note-begin :
    (end : ℕ) (value : List ℕ) (h : Parser.Header)
    → Parser.note_field (printed 8 value end) (Parser.insert_field (printed 8 value end) h)
      ≡ Parser.returns
          (record h { has_begin_string = true; msg = Parser.add_field (Parser.pos 8) value h.msg })
unfolding Parser.note_field Parser.insert_field Parser.same_int
note-begin end value h = refl

pub note-length :
    (end n : ℕ) (h : Parser.Header)
    → n < 2 ^ 31
    → Parser.note_field
        (printed 9 (decimal n) end)
        (Parser.insert_field (printed 9 (decimal n) end) h)
      ≡ Parser.returns (record h {
        has_body_length = true;
        length_value = Parser.pos n;
        msg = Parser.add_field (Parser.pos 9) (decimal n) h.msg;
      })
unfolding Parser.note_field Parser.insert_field Parser.same_int
note-length end n h b = rw (stoi-decimal n b) refl

pub note-type :
    (end : ℕ) (value : List ℕ) (h : Parser.Header)
    → Parser.note_field (printed 35 value end) (Parser.insert_field (printed 35 value end) h)
      ≡ Parser.returns
          (record h { has_msg_type = true; msg = Parser.add_field (Parser.pos 35) value h.msg })
unfolding Parser.note_field Parser.insert_field Parser.same_int
note-type end value h = refl

-- The places in a message behind its fields.
pub print_onto-append :
    (fields more : List (ℕ × List ℕ)) (rest : List ℕ)
    → print_onto (fields ++ more) rest ≡ print_onto fields (print_onto more rest)
print_onto-append [] more rest = refl
print_onto-append ((tag, value) ∷ fields) more rest =
    ap (λ xs. decimal tag ++ equal_sign ∷ (value ++ soh ∷ xs)) (print_onto-append fields more rest)

pub store-append :
    (fields more : List (ℕ × List ℕ)) (msg : Parser.FixMessage)
    → store (fields ++ more) msg ≡ store more (store fields msg)
store-append [] more msg = refl
store-append ((tag, value) ∷ fields) more msg =
    store-append fields more (Parser.add_field (Parser.pos tag) value msg)

-- The length that the parser computes from the places of a message.
pub calculate_body_length-print :
    (buffer rest value : List ℕ) (start checksum_end size : ℕ)
    → drop start buffer ≡ print_onto ((8, value) ∷ []) rest
    → All (λ c. c ≢ soh) value
    → size < 2 ^ 31
    → checksum_end ≡ start + length (print_onto ((8, value) ∷ []) []) + size
    → Parser.calculate_body_length buffer start checksum_end ≡ size
unfolding Parser.calculate_body_length
calculate_body_length-print buffer rest value start checksum_end size e p b c =
    let whole = e ∙ sym (append_assoc (decimal 8) (equal_sign ∷ value) (soh ∷ rest)) in
    let plain =
      All-join soh equal_sign (decimal 8) value (decimal-All_ne 8 soh (inl (omega arith)))
        (omega arith) p in
    let place =
      ap (index_of soh) whole ∙ index_of_here soh (decimal 8 ++ equal_sign ∷ value) rest plain in
    omega (
      arith,
      place,
      c,
      length-print_field 8 value [],
      length-append (decimal 8) (equal_sign ∷ value),
    )
