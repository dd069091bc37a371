-- ===== src/Parser/Pieces.antt =====
-- ihs/src/parser.cpp: the text of a field that the loop of `parseMessage` read.
use fast_server.Prelude.{
  ℕ, suc, ◌+◌, ◌-◌, ◌<◌, ◌≡◌, ◌≢◌, refl, ap, sym, subst, ◌∙◌, arith, List, [], ◌∷◌, ◌++◌, All,
  Bool-cases, inl, inr, ◌==◌, length, length-append, length-drop, drop, take, slice, take-length,
  drop-length, drop-drop, append_assoc,
}
use fast_server.Fix.{soh, equal_sign, index_of}
use fast_server.Parser

-- The text of a field: a tag, an equal sign, a value and a separator.
pub record Piece : Type 0 where
  pub tag : Parser.ℤ
  pub tag_text : List ℕ
  pub value : List ℕ

abbrev pub piece_text : Piece → List ℕ
piece_text p = p.tag_text ++ equal_sign ∷ (p.value ++ soh ∷ [])

abbrev pub pieces_text : List Piece → List ℕ
pieces_text [] = []
pieces_text (p ∷ ps) = piece_text p ++ pieces_text ps

-- The tag's text reads as the tag and has no equal sign; neither text has a separator.
pub record IsPiece (p : Piece) : Type 0 where
  pub reads : Parser.stoi p.tag_text ≡ Parser.returns p.tag
  pub first_equal : All (λ c. c ≢ equal_sign) p.tag_text
  pub plain_tag : All (λ c. c ≢ soh) p.tag_text
  pub plain_value : All (λ c. c ≢ soh) p.value

-- A text at the first of some character.
split_here :
    (ch : ℕ) (text : List ℕ)
    → index_of ch text < length text
    → (front : List ℕ) × (rest : List ℕ) × (text ≡ front ++ ch ∷ rest)
      × (length front ≡ index_of ch text)
      × All (λ c. c ≢ ch) front
unfolding index_of
split_here ch [] h = absurd (omega arith)
split_here ch (c ∷ text) h = elim (Bool-cases (c == ch)) [
  | inl e ↦ ([], text, ap (λ t. t ∷ text) (ground arith), ground arith, tt)
  | inr e ↦
      let (front, rest, same, size, all) = split_here ch text (ground arith) in
      (c ∷ front, rest, ap (λ t. c ∷ t) same, ground (arith, size), ((λ q. ground arith), all))
]

All-parts :
    (P : ℕ → Type 0) (xs : List ℕ) (y : ℕ) (ys : List ℕ)
    → All P (xs ++ y ∷ ys)
    → All P xs × All P ys
All-parts P [] y ys (h, hs) = (tt, hs)
All-parts P (x ∷ xs) y ys (h, hs) = let (left, right) = All-parts P xs y ys hs in ((h, left), right)

-- The piece that stands at `at` when `f` was read there.
pub record IsRead (buffer : List ℕ) (at : ℕ) (f : Parser.Field) : Type 0 where
  pub piece : Piece
  pub is_piece : IsPiece piece
  pub same_tag : piece.tag ≡ f.tag
  pub same_value : piece.value ≡ f.value
  pub here : drop at buffer ≡ piece_text piece ++ drop (f.field_end + 1) buffer
  pub next : f.field_end + 1 ≡ at + length (piece_text piece)

-- The variables of `parseMessage` at a field that was read.
read_field-parts :
    (buffer : List ℕ) (at : ℕ) (f : Parser.Field)
    → Parser.read_field buffer at ≡ Parser.returns f
    → let j = index_of soh (drop at buffer) in
      let k = index_of equal_sign (slice buffer at (at + j - at)) in
      (f.field_end ≡ at + j)
      × (at + j < length buffer)
      × (at + k < at + j)
      × (Parser.stoi (slice buffer at (at + k - at)) ≡ Parser.returns f.tag)
      × (f.value ≡ slice buffer (at + k + 1) (at + j - (at + k) - 1))
unfolding Parser.read_field
read_field-parts buffer at f e = ground (arith, e)

pub text_split :
    (tag_text value rest : List ℕ)
    → (tag_text ++ equal_sign ∷ value) ++ soh ∷ rest
      ≡ (tag_text ++ equal_sign ∷ (value ++ soh ∷ [])) ++ rest
text_split [] value rest = ap (λ t. equal_sign ∷ t) (sym (append_assoc value (soh ∷ []) rest))
text_split (c ∷ tag_text) value rest = ap (λ t. c ∷ t) (text_split tag_text value rest)

-- The parts of a text that is a tag `t`, a value `v` and the rest.
slices_of :
    (buffer t v rest : List ℕ) (at j k : ℕ)
    → drop at buffer ≡ t ++ equal_sign ∷ (v ++ soh ∷ rest)
    → length t ≡ k
    → j ≡ length t + suc (length v)
    → (slice buffer at (at + k - at) ≡ t)
      × (slice buffer (at + k + 1) (at + j - (at + k) - 1) ≡ v)
      × (drop (at + j + 1) buffer ≡ rest)
slices_of buffer t v rest at j k e size whole =
    let behind : drop (at + k + 1) buffer ≡ v ++ soh ∷ rest =
      sym (drop-drop (length t + 1) at (at + k + 1) buffer (omega (arith, size)))
      ∙ ap (drop (length t + 1)) e
      ∙ sym (drop-drop 1 (length t) (length t + 1) (t ++ equal_sign ∷ (v ++ soh ∷ rest)) refl)
      ∙ ap (drop 1) (drop-length t (equal_sign ∷ (v ++ soh ∷ rest))) in
    (
      ap (λ n. slice buffer at n) {y = length t} (omega (arith, size))
          ∙ ap (take (length t)) e
          ∙ take-length t (equal_sign ∷ (v ++ soh ∷ rest)),
      ap (λ n. slice buffer (at + k + 1) n) {y = length v} (omega (arith, size, whole))
          ∙ ap (take (length v)) behind
          ∙ take-length v (soh ∷ rest),
      sym (drop-drop (length v + 1) (at + k + 1) (at + j + 1) buffer (omega (arith, size, whole)))
          ∙ ap (drop (length v + 1)) behind
          ∙ sym (drop-drop 1 (length v) (length v + 1) (v ++ soh ∷ rest) refl)
          ∙ ap (drop 1) (drop-length v (soh ∷ rest)),
    )

-- A piece is one character longer than the place of its separator.
pub length-piece_text : (p : Piece) → length (piece_text p) ≡ length p.tag_text + length p.value + 2
length-piece_text p = ground (
  arith,
  length-append p.tag_text (equal_sign ∷ (p.value ++ soh ∷ [])),
  length-append p.value (soh ∷ []),
)

-- The text at a place as a tag, a value and the rest, where a separator and an equal sign stand
-- before the end.
record IsParted (text : List ℕ) (j k : ℕ) : Type 0 where
  t : List ℕ
  v : List ℕ
  rest : List ℕ
  whole : text ≡ t ++ equal_sign ∷ (v ++ soh ∷ rest)
  tag_size : length t ≡ k
  body_size : j ≡ length t + suc (length v)
  first_equal : All (λ c. c ≢ equal_sign) t
  plain_tag : All (λ c. c ≢ soh) t
  plain_value : All (λ c. c ≢ soh) v

divide :
    (text : List ℕ) (j k n : ℕ)
    → j ≡ index_of soh text
    → n ≡ j
    → k ≡ index_of equal_sign (take n text)
    → j < length text
    → k < j
    → IsParted text j k
divide text j k n at_soh same at_equal inside before =
    let (body, rest, whole, size, plain) = split_here soh text (omega (arith, at_soh)) in
    let body_here : take n text ≡ body =
      ap (λ n. take n text) {y = length body} (omega (arith, size, same, at_soh))
      ∙ ap (take (length body)) whole
      ∙ take-length body (soh ∷ rest) in
    let place = ap (index_of equal_sign) body_here in
    let (t, v, parted, tag_size, none_equal) =
      split_here equal_sign body (omega (arith, place, at_equal, size, at_soh)) in
    let plains =
      All-parts (λ c. c ≢ soh) t equal_sign v (subst (All (λ c. c ≢ soh)) parted plain) in
    let body_size : length body ≡ length t + suc (length v) =
      ap length parted ∙ length-append t (equal_sign ∷ v) in
    record {
      t = t;
      v = v;
      rest = rest;
      whole =
          whole ∙ ap (λ b. b ++ soh ∷ rest) parted ∙ append_assoc t (equal_sign ∷ v) (soh ∷ rest);
      tag_size = omega (arith, tag_size, place, at_equal);
      body_size = omega (arith, size, at_soh, body_size);
      first_equal = none_equal;
      plain_tag = plains.0;
      plain_value = plains.1;
    }

-- A field that was read is the piece of the buffer from there on.
pub read_field-IsRead :
    (buffer : List ℕ) (at : ℕ) (f : Parser.Field)
    → Parser.read_field buffer at ≡ Parser.returns f
    → IsRead buffer at f
read_field-IsRead buffer at f e =
    let j = index_of soh (drop at buffer) in
    let k = index_of equal_sign (slice buffer at (at + j - at)) in
    let (ends, inside, before, tag, value) = read_field-parts buffer at f e in
    let parted =
      divide (drop at buffer) j k (at + j - at) refl (omega arith) refl
        (omega (arith, inside, length-drop at buffer)) (omega (arith, before)) in
    let here =
      slices_of buffer parted.t parted.v parted.rest at j k parted.whole parted.tag_size
        parted.body_size in
    let p : Piece = record { tag = f.tag; tag_text = parted.t; value = parted.v } in
    record {
      piece = p;
      is_piece = record {
        reads = subst (λ s. Parser.stoi s ≡ Parser.returns f.tag) here.0 tag;
        first_equal = parted.first_equal;
        plain_tag = parted.plain_tag;
        plain_value = parted.plain_value;
      };
      same_tag = refl;
      same_value = sym (value ∙ here.1);
      here =
          parted.whole
          ∙ sym (append_assoc parted.t (equal_sign ∷ parted.v) (soh ∷ parted.rest))
          ∙ text_split parted.t parted.v parted.rest
          ∙ ap (λ r. piece_text p ++ r) (sym (ap (λ n. drop (n + 1) buffer) ends ∙ here.2));
      next = omega (arith, ends, parted.body_size, length-piece_text p);
    }
