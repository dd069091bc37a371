-- ===== src/Parser/Past.antt =====
-- ihs/src/parser.cpp: the fields that the loop of `parseMessage` has read, as pieces of the buffer.
use fast_server.Prelude.{
  ℕ, ◌+◌, ◌%◌, ◌^◌, ◌≡◌, refl, ap, List, [], ◌∷◌, ◌++◌, sym, ◌∙◌, length, length-append, drop,
  append_assoc, append-nil, All, All-append, arith,
}
use fast_server.Fix.{soh, equal_sign, index_of}
use fast_server.Fix.Replace.{index_of_here}
use fast_server.Parser
use fast_server.Parser.Pieces.{
  Piece, IsPiece, piece_text, pieces_text, length-piece_text, text_split, IsRead,
}
use fast_server.Parser.Print.{All-join}

abbrev pub added : List Piece → Parser.FixMessage → Parser.FixMessage
added [] msg = msg
added (p ∷ ps) msg = added ps (Parser.add_field p.tag p.value msg)

-- What the loop has read before `at`.
pub record IsPast (buffer : List ℕ) (start at : ℕ) (msg : Parser.FixMessage) : Type 0 where
  pub past : List Piece
  pub divided : drop start buffer ≡ pieces_text past ++ drop at buffer
  pub reached : at ≡ start + length (pieces_text past)
  pub all_pieces : All IsPiece past
  pub stored : msg ≡ added past (record { fields = [] })

pieces_text-append :
    (ps : List Piece) (p : Piece) (rest : List ℕ)
    → pieces_text ps ++ (piece_text p ++ rest) ≡ pieces_text (ps ++ p ∷ []) ++ rest
pieces_text-append [] p rest = ap (λ t. t ++ rest) (sym (append-nil (piece_text p)))
pieces_text-append (q ∷ ps) p rest =
    append_assoc (piece_text q) (pieces_text ps) (piece_text p ++ rest)
    ∙ ap (λ t. piece_text q ++ t) (pieces_text-append ps p rest)
    ∙ sym (append_assoc (piece_text q) (pieces_text (ps ++ p ∷ [])) rest)

length-pieces_text :
    (ps : List Piece) (p : Piece)
    → length (pieces_text (ps ++ p ∷ [])) ≡ length (pieces_text ps) + length (piece_text p)
length-pieces_text [] p = length-append (piece_text p) [] ∙ omega arith
length-pieces_text (q ∷ ps) p = omega (
  arith,
  length-append (piece_text q) (pieces_text (ps ++ p ∷ [])),
  length-append (piece_text q) (pieces_text ps),
  length-pieces_text ps p,
)

added-append :
    (ps : List Piece) (p : Piece) (msg : Parser.FixMessage)
    → added (ps ++ p ∷ []) msg ≡ Parser.add_field p.tag p.value (added ps msg)
added-append [] p msg = refl
added-append (q ∷ ps) p msg = added-append ps p (Parser.add_field q.tag q.value msg)

pub start-IsPast :
    (buffer : List ℕ) (start : ℕ) → IsPast buffer start start (record { fields = [] })
start-IsPast buffer start = record {
  past = [];
  divided = refl;
  reached = omega arith;
  all_pieces = tt;
  stored = refl;
}

-- A field that was read is stored as the next piece.
pub read-IsPast :
    (buffer : List ℕ) (start at : ℕ) (f : Parser.Field) (h : Parser.Header)
    → (s : IsPast buffer start at h.msg) → (r : IsRead buffer at f)
    → (q : IsPast buffer start (f.field_end + 1) (Parser.insert_field f h).msg) × (q.past
        ≡ s.past ++ r.piece ∷ [])
unfolding Parser.insert_field
read-IsPast buffer start at f h s r = (
  record {
    past = s.past ++ r.piece ∷ [];
    divided =
        s.divided
        ∙ ap (λ t. pieces_text s.past ++ t) r.here
        ∙ pieces_text-append s.past r.piece (drop (f.field_end + 1) buffer);
    reached = omega (arith, s.reached, r.next, length-pieces_text s.past r.piece);
    all_pieces = All-append IsPiece s.past r.piece s.all_pieces r.is_piece;
    stored =
        ap (Parser.add_field f.tag f.value) s.stored
        ∙ ap (λ t. Parser.add_field t f.value (added s.past (record { fields = [] })))
            (sym r.same_tag)
        ∙ ap (λ v. Parser.add_field r.piece.tag v (added s.past (record { fields = [] })))
            (sym r.same_value)
        ∙ sym (added-append s.past r.piece (record { fields = [] }));
  },
  refl,
)

pub first_and_others :
    (ps : List Piece) (p : Piece) → (q : Piece) × (qs : List Piece) × (ps ++ p ∷ [] ≡ q ∷ qs)
first_and_others [] p = (p, [], refl)
first_and_others (q ∷ ps) p = (q, ps ++ p ∷ [], refl)

-- The place behind the first field.
index_of-piece :
    (p : Piece) (rest : List ℕ)
    → IsPiece p
    → index_of soh (piece_text p ++ rest) + 1 ≡ length (piece_text p)
index_of-piece p rest i =
    let body = p.tag_text ++ equal_sign ∷ p.value in
    let plain =
      All-join soh equal_sign p.tag_text p.value i.plain_tag (omega arith) i.plain_value in
    let place = index_of_here soh body rest plain in
    omega (
      arith,
      ap (index_of soh) (sym (text_split p.tag_text p.value rest)),
      place,
      length-append p.tag_text (equal_sign ∷ p.value),
      length-piece_text p,
    )

-- The number of characters that `calculateBodyLength` counts.
pub calculate_body_length-pieces :
    (buffer rest : List ℕ) (start last : ℕ) (p : Piece) (ps : List Piece)
    → drop start buffer ≡ pieces_text (p ∷ ps) ++ rest
    → IsPiece p
    → last + 1 ≡ start + length (pieces_text (p ∷ ps))
    → (Parser.calculate_body_length buffer start last + 1) % 2 ^ 64
      ≡ length (pieces_text ps) % 2 ^ 64
unfolding Parser.calculate_body_length
calculate_body_length-pieces buffer rest start last p ps e i size =
    let place : index_of soh (drop start buffer) + 1 ≡ length (piece_text p) =
      ap (λ t. index_of soh t + 1) (e ∙ append_assoc (piece_text p) (pieces_text ps) rest)
      ∙ index_of-piece p (pieces_text ps ++ rest) i in
    omega (arith, place, size, length-append (piece_text p) (pieces_text ps))
