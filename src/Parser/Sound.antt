-- ===== src/Parser/Sound.antt =====
-- The messages that `FixParser::parse` of ihs/src/parser.cpp returns.
use fast_server.Prelude.{
  ℕ, zero, suc, ◌+◌, ◌%◌, ◌^◌, ◌≡◌, ap, true, false, List, [], ◌∷◌, ◌++◌, some, subst, sym, ◌∙◌,
  length, drop, All, All-append, arith, inl, inr, some-injective,
}
use fast_server.Parser
use fast_server.Parser.Flags
use fast_server.Parser.Past.{
  added, IsPast, start-IsPast, read-IsPast, first_and_others, calculate_body_length-pieces,
}
use fast_server.Parser.Pieces.{Piece, IsPiece, pieces_text, read_field-IsRead}
use fast_server.Parser.Places.{IsStart, find_next_message_start-IsStart}
use fast_server.Parser.Total.{turn, Turn, round, Round}

-- A message that stands in the buffer: from `start`, behind a separator and at `8=`, the buffer
-- is the texts of pieces, the last of which has the tag 10; the message's fields are those pieces
-- stored one after the other; it has the fields 8, 9, 35 and 10, and its field 9 is, as a
-- `size_t`, the number of characters of all pieces but the first, less the last separator.
pub record IsReceived (buffer : List ℕ) (msg : Parser.FixMessage) : Type 0 where
  pub start : ℕ
  pub first : Piece
  pub others : List Piece
  pub before : List Piece
  pub last : Piece
  pub rest : List ℕ
  pub size : Parser.ℤ
  pub starts : IsStart buffer start
  pub stands : drop start buffer ≡ pieces_text (first ∷ others) ++ rest
  pub pieces : All IsPiece (first ∷ others)
  pub ends : first ∷ others ≡ before ++ last ∷ []
  pub closes : Parser.same_int last.tag Parser.check_sum ≡ true
  pub filled : msg ≡ added (first ∷ others) (record { fields = [] })
  pub begins : Parser.has_field Parser.begin_string msg ≡ true
  pub typed : Parser.has_field Parser.message_type msg ≡ true
  pub checked : Parser.has_field Parser.check_sum msg ≡ true
  pub sized : Parser.stoi (Parser.get_field Parser.body_length msg) ≡ Parser.returns size
  pub counted : (Parser.size_of_int size + 1) % 2 ^ 64 ≡ length (pieces_text others) % 2 ^ 64

not_length :
    (f : Parser.Field)
    → Parser.same_int f.tag Parser.check_sum ≡ true
    → Parser.same_int f.tag Parser.body_length ≡ false
not_length f e = Flags.other_tag f 10 9 e (omega arith)

check_message-IsReceived :
    (buffer : List ℕ) (start at : ℕ) (f : Parser.Field) (h : Parser.Header)
    (msg : Parser.FixMessage) (end : ℕ)
    → IsStart buffer start
    → Flags.IsTracked h
    → IsPast buffer start at h.msg
    → Parser.read_field buffer at ≡ Parser.returns f
    → Parser.same_int f.tag Parser.check_sum ≡ true
    → Parser.check_message buffer start f (Parser.insert_field f h) ≡ Parser.returns (msg, end)
    → IsReceived buffer msg
unfolding Parser.check_message
check_message-IsReceived buffer start at f h msg end s t past r c e =
    let i = Flags.insert_field-IsTracked f h (not_length f c) t in
    let h2 = Parser.insert_field f h in
    let same : h2.msg ≡ msg = ground arith in
    let flags : (h2.has_begin_string ≡ true)
        × (h2.has_body_length ≡ true)
        × (h2.has_msg_type ≡ true) =
      ground arith in
    let counts : Parser.calculate_body_length buffer start f.field_end
        ≡ Parser.size_of_int h2.length_value =
      ground arith in
    let read = read_field-IsRead buffer at f r in
    let (whole, ends) = read-IsPast buffer start at f h past read in
    let (first, others, all) = first_and_others past.past read.piece in
    let same_past = ends ∙ all in
    let pieces = subst (All IsPiece) same_past whole.all_pieces in
    let stands =
      whole.divided ∙ ap (λ ps. pieces_text ps ++ drop (f.field_end + 1) buffer) same_past in
    let reached = whole.reached ∙ ap (λ ps. start + length (pieces_text ps)) same_past in
    subst (IsReceived buffer) same (record {
      start = start;
      first = first;
      others = others;
      before = past.past;
      last = read.piece;
      rest = drop (f.field_end + 1) buffer;
      size = h2.length_value;
      starts = s;
      stands = stands;
      pieces = pieces;
      ends = sym all;
      closes = ap (λ t. Parser.same_int t Parser.check_sum) read.same_tag ∙ c;
      filled = whole.stored ∙ ap (λ ps. added ps (record { fields = [] })) same_past;
      begins = i.begins flags.0;
      typed = i.typed flags.2;
      checked = Flags.has_field-insert f h Parser.check_sum c;
      sized = i.counted flags.1;
      counted =
          ap (λ n. (n + 1) % 2 ^ 64) (sym counts)
          ∙ calculate_body_length-pieces buffer (drop (f.field_end + 1) buffer) start f.field_end
              first others stands pieces.0 reached;
    })

note_field-msg :
    (f : Parser.Field) (h h2 : Parser.Header)
    → Parser.note_field f h ≡ Parser.returns h2
    → h.msg ≡ h2.msg
unfolding Parser.note_field
note_field-msg f h h2 e = elim (Parser.Result-cases (Parser.stoi f.value)) [
  | inl (n, s) ↦ ground arith
  | inr (x, s) ↦ ground arith
]

parse_fields-IsReceived :
    (fuel : ℕ) (buffer : List ℕ) (start at : ℕ) (h : Parser.Header) (msg : Parser.FixMessage)
    (end : ℕ)
    → IsStart buffer start
    → Flags.IsTracked h
    → IsPast buffer start at h.msg
    → Parser.parse_fields fuel buffer start at h ≡ some (Parser.returns (msg, end))
    → IsReceived buffer msg
unfolding Parser.parse_fields
parse_fields-IsReceived zero buffer start at h msg end s t past e = absurd cc
parse_fields-IsReceived (suc fuel) buffer start at h msg end s t past e =
    elim (turn fuel buffer start at h) [
      | Turn.fails x p ↦ absurd cc
      | Turn.ends f r c p ↦
          check_message-IsReceived buffer start at f h msg end s t past r c
            (some-injective _ _ (sym p ∙ e))
      | Turn.goes_on f h2 r c n p ↦
          let more = read-IsPast buffer start at f h past (read_field-IsRead buffer at f r) in
          parse_fields-IsReceived fuel buffer start (f.field_end + 1) h2 msg end s
            (Flags.note_field-IsTracked f h h2 n t)
            (subst (IsPast buffer start (f.field_end + 1))
              (note_field-msg f (Parser.insert_field f h) h2 n) more.0)
            (sym p ∙ e)
    ]

parse_from-IsReceived :
    (fuel : ℕ) (buffer : List ℕ) (at : ℕ) (messages result : List Parser.FixMessage)
    → All (IsReceived buffer) messages
    → Parser.parse_from fuel buffer at messages ≡ some (Parser.returns result)
    → All (IsReceived buffer) result
unfolding Parser.parse_from Parser.parse_message
parse_from-IsReceived zero buffer at messages result a e = absurd cc
parse_from-IsReceived (suc fuel) buffer at messages result a e =
    elim (round fuel buffer at messages) [
      | Round.stops p ↦ subst (All (IsReceived buffer)) (ground arith) a
      | Round.escapes x p ↦ absurd cc
      | Round.reads start end msg n m p ↦
          let one =
            parse_fields-IsReceived (length buffer + 1) buffer start start Parser.no_header msg end
              (find_next_message_start-IsStart buffer at start n) Flags.no_header-IsTracked
              (start-IsPast buffer start) m in
          parse_from-IsReceived fuel buffer end (messages ++ msg ∷ []) result
            (All-append (IsReceived buffer) messages msg a one) (sym p ∙ e)
      | Round.skips start n p ↦
          parse_from-IsReceived fuel buffer (start + 1) messages result a (sym p ∙ e)
    ]

-- Every message that `parse` returns stands in the buffer. Behind a separator, from `8=` on, the
-- buffer is a sequence of fields, each a tag that `stoi` reads, an equal sign and a value without
-- separators, then a separator; the last has the tag 10. The message's fields are those, a later one
-- of a tag replacing an earlier one. It has the fields 8, 35 and 10, and its field 9 reads as the
-- number of characters, modulo 2 ^ 64, from the end of the first field to the last separator.
pub parse-IsReceived :
    (buffer : List ℕ) (messages : List Parser.FixMessage)
    → Parser.parse buffer ≡ some (Parser.returns messages)
    → All (IsReceived buffer) messages
unfolding Parser.parse
parse-IsReceived buffer messages e =
    parse_from-IsReceived (length buffer + 1) buffer 0 [] messages tt e
