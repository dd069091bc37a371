-- ===== src/Session/RoundTrip.antt =====
-- ihs/src/fix42.cpp: what `deserialize` reads of a message that `serialize` wrote, and that
-- `validateMessage` accepts it.
use fast_server.Prelude.{
  ℕ, true, false, List, [], ◌∷◌, ◌++◌, ◌≡◌, refl, ap, ◌∙◌, arith, length, take, Option, none, some,
  take-length,
}
use fast_server.Fix.{decimal}
use fast_server.Parser.{ℤ, pos, same_int, find}
use fast_server.Parser.Stream.{search, checksum_text}
use fast_server.Session.Wire.{
  Message, has_tag, value_of, fix_version, field_onto, serialize_body, session_checksum,
  serialize_header, serialize, deserialize, same_text, checked_part, has_all, validate_message,
}
use fast_server.Session.Fields.{IsMap, IsText}
use fast_server.Session.Framed.{
  framed, framed-checksum, find-framed, read_fields-serialize, sent_field,
}

find-ne_nil :
    (t : ℤ) (v : List ℕ) (fields : List (ℤ × List ℕ))
    → find t fields ≡ some v
    → elim fields [ [] ↦ false | f ∷ fs ↦ true ] ≡ true
unfolding find
find-ne_nil t v [] h = absurd cc
find-ne_nil t v (f ∷ fields) h = refl

-- A message whose tags are different and not negative, and whose values hold no separator, is read
-- again: under each tag stands what was written, the framing fields included, and the reading succeeds.
pub deserialize-serialize :
    (msg : Message) (tag : ℤ)
    → IsMap msg.fields
    → IsText msg.fields
    → ((deserialize (serialize msg)).0 ≡ true)
      × (find tag (deserialize (serialize msg)).1.fields ≡ sent_field msg tag)
unfolding deserialize
deserialize-serialize msg tag m h = (
  ap (λ fs. elim fs [ [] ↦ false | f ∷ more ↦ true ]) (read_fields-serialize msg h)
      ∙ find-ne_nil (pos 10) (session_checksum (serialize_header (serialize_body msg.fields)))
          (framed msg) (framed-checksum msg),
  ap (find tag) (read_fields-serialize msg h) ∙ find-framed msg tag m,
)

same_text_self : (text : List ℕ) → same_text text text ≡ true
unfolding same_text
same_text_self [] = refl
same_text_self (c ∷ text) = ground (arith, same_text_self text)

-- What `validateMessage` asks for, as equations.
validate_message-all :
    (sender target size kind number time covered : List ℕ) (msg : Message)
    → find (pos 8) msg.fields ≡ some fix_version
    → find (pos 9) msg.fields ≡ some size
    → find (pos 35) msg.fields ≡ some kind
    → find (pos 49) msg.fields ≡ some target
    → find (pos 56) msg.fields ≡ some sender
    → find (pos 34) msg.fields ≡ some number
    → find (pos 52) msg.fields ≡ some time
    → find (pos 10) msg.fields ≡ some (session_checksum covered)
    → checked_part msg.raw_data ≡ covered
    → validate_message sender target msg ≡ true
unfolding validate_message has_all has_tag value_of
validate_message-all sender target size kind number time covered msg a b c d e f g h i = ground (
  arith,
  a,
  b,
  c,
  d,
  e,
  f,
  g,
  h,
  i,
  same_text_self fix_version,
  same_text_self target,
  same_text_self sender,
  same_text_self (session_checksum covered),
)

checked_part-serialize :
    (msg : Message)
    → search checksum_text (serialize msg)
      ≡ some (length (serialize_header (serialize_body msg.fields)))
    → checked_part (serialize msg) ≡ serialize_header (serialize_body msg.fields)
unfolding checked_part serialize
checked_part-serialize msg h =
    let header = serialize_header (serialize_body msg.fields) in
    let tail = field_onto (pos 10) (session_checksum header) [] in
    ap
      (λ (o : Option ℕ). elim o [
        | none ↦ header ++ tail
        | some place ↦ take place (header ++ tail)
      ])
      h
    ∙ take-length header tail

-- A message whose tags are different and not negative and whose values hold no separator, which has a
-- type, a number and a time, names the two sessions' ids, and in whose text the first `10=` is the
-- checksum's: `validateMessage` of the session at the other end accepts what `deserialize` reads of it.
pub validate_message-serialize :
    (sender target kind number time : List ℕ) (msg : Message)
    → IsMap msg.fields
    → IsText msg.fields
    → find (pos 35) msg.fields ≡ some kind
    → find (pos 49) msg.fields ≡ some target
    → find (pos 56) msg.fields ≡ some sender
    → find (pos 34) msg.fields ≡ some number
    → find (pos 52) msg.fields ≡ some time
    → search checksum_text (serialize msg)
      ≡ some (length (serialize_header (serialize_body msg.fields)))
    → validate_message sender target (deserialize (serialize msg)).1 ≡ true
unfolding sent_field same_int deserialize
validate_message-serialize sender target kind number time msg m t a b c d e f =
    let header = serialize_header (serialize_body msg.fields) in
    let reads = λ (tag : ℤ). (deserialize-serialize msg tag m t).1 in
    validate_message-all sender target (decimal (length (serialize_body msg.fields))) kind number
      time header (deserialize (serialize msg)).1 (reads (pos 8)) (reads (pos 9))
      (reads (pos 35) ∙ a) (reads (pos 49) ∙ b) (reads (pos 56) ∙ c) (reads (pos 34) ∙ d)
      (reads (pos 52) ∙ e) (reads (pos 10)) (checked_part-serialize msg f)
