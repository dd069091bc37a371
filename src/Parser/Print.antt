-- ===== src/Parser/Print.antt =====
-- ihs/src/parser.cpp: a field, as the encoder of ihs/src/encoder.cpp prints it, is read again.
use fast_server.Prelude.{
  ℕ, suc, ◌+◌, ◌-◌, ◌^◌, ◌<◌, ◌≡◌, ◌≢◌, inl, inr, List, [], ◌∷◌, ◌++◌, All, refl, ap, sym, ◌∙◌,
  arith, length, take, drop, slice, drop-drop, drop-length, take-length, length-append, length-drop,
  append_assoc,
}
use fast_server.Fix.{soh, equal_sign, decimal, index_of}
use fast_server.Fix.Replace.{index_of_here}
use fast_server.Parser
use fast_server.Parser.Digits.{stoi-decimal, decimal-All_ne}

abbrev pub print_field : ℕ → List ℕ → List ℕ
print_field tag value = decimal tag ++ equal_sign ∷ (value ++ soh ∷ [])

-- What `read_field` gives where the places are known.
read_field-at :
    (buffer value : List ℕ) (at equal_pos field_end : ℕ) (tag : Parser.ℤ)
    → at + index_of soh (drop at buffer) ≡ field_end
    → at + index_of equal_sign (slice buffer at (field_end - at)) ≡ equal_pos
    → field_end < length buffer
    → equal_pos < field_end
    → Parser.stoi (slice buffer at (equal_pos - at)) ≡ Parser.returns tag
    → slice buffer (equal_pos + 1) (field_end - equal_pos - 1) ≡ value
    → Parser.read_field buffer at
      ≡ Parser.returns (record { tag = tag; value = value; field_end = field_end })
unfolding Parser.read_field
read_field-at buffer value at equal_pos field_end tag a b c d e f = rw (a, b) (ground arith)

pub All-join :
    (ch x : ℕ) (xs ys : List ℕ)
    → All (λ c. c ≢ ch) xs
    → x ≢ ch
    → All (λ c. c ≢ ch) ys
    → All (λ c. c ≢ ch) (xs ++ x ∷ ys)
All-join ch x [] ys h n k = (n, k)
All-join ch x (y ∷ xs) ys (m, h) n k = (m, All-join ch x xs ys h n k)

-- What stands behind a front and a character.
drop_behind :
    (buffer xs ys : List ℕ) (at x k : ℕ)
    → drop at buffer ≡ xs ++ x ∷ ys
    → k ≡ at + length xs + 1
    → drop k buffer ≡ ys
drop_behind buffer xs ys at x k e p =
    sym (drop-drop 1 (at + length xs) k buffer p)
    ∙ ap (drop 1) (
        sym (drop-drop (length xs) at (at + length xs) buffer refl)
        ∙ ap (drop (length xs)) e
        ∙ drop-length xs (x ∷ ys))

-- A printed field is read back, and what follows it stands behind its end.
pub read_field-print :
    (buffer rest value : List ℕ) (at tag : ℕ)
    → drop at buffer ≡ decimal tag ++ equal_sign ∷ (value ++ soh ∷ rest)
    → tag < 2 ^ 31
    → All (λ c. c ≢ soh) value
    → Parser.read_field buffer at
      ≡ Parser.returns (record {
        tag = Parser.pos tag;
        value = value;
        field_end = at + (length (decimal tag) + suc (length value));
      })
read_field-print buffer rest value at tag e b h =
    let d = decimal tag in
    let front = d ++ equal_sign ∷ value in
    let whole : drop at buffer ≡ front ++ soh ∷ rest =
      e ∙ sym (append_assoc d (equal_sign ∷ value) (soh ∷ rest)) in
    let size : length front ≡ length d + suc (length value) =
      length-append d (equal_sign ∷ value) in
    let plain =
      All-join soh equal_sign d value (decimal-All_ne tag soh (inl (omega arith))) (omega arith)
        h in
    let field_end = at + (length d + suc (length value)) in
    let first : slice buffer at (field_end - at) ≡ front =
      ap (take (field_end - at)) whole
      ∙ ap (λ n. take n (front ++ soh ∷ rest)) {x = field_end - at} (omega (arith, size))
      ∙ take-length front (soh ∷ rest) in
    let found : index_of equal_sign front ≡ length d =
      index_of_here equal_sign d value (decimal-All_ne tag equal_sign (inr (omega arith))) in
    let name : slice buffer at (at + length d - at) ≡ d =
      ap (take (at + length d - at)) e
      ∙ ap (λ n. take n (d ++ equal_sign ∷ (value ++ soh ∷ rest))) {x = at + length d - at}
          (omega arith)
      ∙ take-length d (equal_sign ∷ (value ++ soh ∷ rest)) in
    let long = field_end - (at + length d) - 1 in
    let text : slice buffer (at + length d + 1) long ≡ value =
      ap (take long)
        (drop_behind buffer d (value ++ soh ∷ rest) at equal_sign (at + length d + 1) e refl)
      ∙ ap (λ n. take n (value ++ soh ∷ rest)) {x = long} (omega arith)
      ∙ take-length value (soh ∷ rest) in
    read_field-at buffer value at (at + length d) field_end (Parser.pos tag)
      (ap (λ xs. at + index_of soh xs) whole
        ∙ ap (λ n. at + n) (index_of_here soh front rest plain ∙ size))
      (ap (λ xs. at + index_of equal_sign xs) first ∙ ap (λ n. at + n) found)
      (omega
        (arith, ap length whole, length-append front (soh ∷ rest), length-drop at buffer, size))
      (omega arith) (ap Parser.stoi name ∙ stoi-decimal tag b) text

-- What follows a printed field.
pub drop-print :
    (buffer rest value : List ℕ) (at tag k : ℕ)
    → drop at buffer ≡ decimal tag ++ equal_sign ∷ (value ++ soh ∷ rest)
    → k ≡ at + (length (decimal tag) + suc (length value)) + 1
    → drop k buffer ≡ rest
drop-print buffer rest value at tag k e p =
    drop_behind buffer (decimal tag ++ equal_sign ∷ value) rest at soh k
      (e ∙ sym (append_assoc (decimal tag) (equal_sign ∷ value) (soh ∷ rest)))
      (omega (arith, length-append (decimal tag) (equal_sign ∷ value)))
