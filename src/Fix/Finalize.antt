-- ===== src/Fix/Finalize.antt =====
-- ihs/src/encoder.cpp: what `finalize` makes of a message.
use fast_server.Prelude.{
  ℕ, zero, suc, ◌+◌, ◌-◌, ◌≤◌, ◌<◌, ◌≡◌, ◌≢◌, refl, sym, ap, ◌∙◌, true, Bool-cases, inl, inr, List,
  [], ◌∷◌, ◌++◌, arith, All, none, some, ltb, if◌then◌else◌, length, drop, replicate, sub_size,
  length-append, append_assoc, drop-length, drop-drop,
}
use fast_server.Fix.{
  soh, equal_sign, decimal, three_digits, FixEncoder, add_field_internal, index_of,
  replace_field_value, calculate_checksum, finalize, decimal_onto,
}
use fast_server.Fix.Replace.{replace_field_value_lem}
use fast_server.Parser.Digits.{length-decimal}

-- `10=`, a value of the checksum and its separator.
abbrev pub checksum_field : List ℕ → List ℕ
checksum_field value = 49 ∷ 48 ∷ equal_sign ∷ (value ++ soh ∷ [])

-- The field of the body length between what stands before and behind it.
abbrev pub with_length : List ℕ → List ℕ → List ℕ → List ℕ
with_length pre value post = pre ++ (57 ∷ [] ++ equal_sign ∷ (value ++ soh ∷ post))

length-with_length :
    (pre value post : List ℕ)
    → length (with_length pre value post) ≡ length pre + length value + length post + 3
length-with_length pre value post = omega (
  arith,
  length-append pre (57 ∷ equal_sign ∷ (value ++ soh ∷ post)),
  length-append value (soh ∷ post),
)

-- Where no equals sign stands behind its start, a value cannot be replaced.
replace_field_value_fails :
    (start : ℕ) (new : List ℕ) (e : FixEncoder)
    → length e.buffer ≤ start + index_of equal_sign (drop start e.buffer)
    → replace_field_value start new e ≡ none
unfolding replace_field_value
replace_field_value_fails start new e h = ground (arith, h)

found :
    (front extra tag new : List ℕ) (e : FixEncoder) (n : ℕ)
    → All (λ x. x ≢ equal_sign) tag
    → n ≡ length front + length extra
    → e.buffer ≡ front ++ (extra ++ (tag ++ equal_sign ∷ (replicate 3 48 ++ soh ∷ [])))
    → replace_field_value n new e
      ≡ some (record e { buffer = front ++ (extra ++ (tag ++ equal_sign ∷ (new ++ soh ∷ []))) })
found front extra tag new e n far at form =
    ap (λ k. replace_field_value k new e) {x = n} (omega (arith, at, length-append front extra))
    ∙ replace_field_value_lem (front ++ extra) tag (replicate 3 48) [] new e far
        (ground arith, (ground arith, (ground arith, tt)))
        (form ∙ sym (append_assoc front extra (tag ++ equal_sign ∷ (replicate 3 48 ++ soh ∷ []))))
    ∙ ap (λ b. some (record e { buffer = b }))
        (append_assoc front extra (tag ++ equal_sign ∷ (new ++ soh ∷ [])))

missing :
    (front new : List ℕ) (e : FixEncoder) (k : ℕ)
    → e.buffer ≡ front ++ checksum_field (replicate 3 48)
    → 7 ≤ k + index_of equal_sign (drop k (checksum_field (replicate 3 48)))
    → replace_field_value (length front + k) new e ≡ none
missing front new e k form h =
    let rest = checksum_field (replicate 3 48) in
    let behind : drop (length front + k) e.buffer ≡ drop k rest =
      ap (drop (length front + k)) form
      ∙ sym (drop-drop k (length front) (length front + k) (front ++ rest) refl)
      ∙ ap (drop k) (drop-length front rest) in
    replace_field_value_fails (length front + k) new e
      (omega (arith, ap (index_of equal_sign) behind, ap length form, length-append front rest))

-- The second replacement of `finalize`, `k` characters behind the start of the checksum's field.
late_replacement :
    (k : ℕ) (front new : List ℕ) (e : FixEncoder)
    → e.buffer ≡ front ++ checksum_field (replicate 3 48)
    → k < 5
    → replace_field_value (length front + k) new e
      ≡ (if ltb k 3 then some (record e { buffer = front ++ checksum_field new }) else none)
unfolding index_of
late_replacement zero front new e form h =
    found front [] (49 ∷ 48 ∷ []) new e (length front + 0) (ground arith, (ground arith, tt)) refl
      form
late_replacement (suc zero) front new e form h =
    found front (49 ∷ []) (48 ∷ []) new e (length front + 1) (ground arith, tt) refl form
late_replacement (suc (suc zero)) front new e form h =
    found front (49 ∷ 48 ∷ []) [] new e (length front + 2) tt refl form
late_replacement (suc (suc (suc zero))) front new e form h =
    missing front new e 3 form (omega arith)
late_replacement (suc (suc (suc (suc zero)))) front new e form h =
    missing front new e 4 form (omega arith)
late_replacement (suc (suc (suc (suc (suc k))))) front new e form h = absurd (omega arith)

-- The body that `finalize` counts.
abbrev pub body_start : FixEncoder → ℕ
body_start e = index_of soh e.buffer + 1

abbrev pub body_size : FixEncoder → List ℕ
body_size e = decimal (sub_size (length e.buffer) (body_start e))

finalize-steps :
    (e e1 : FixEncoder)
    → e.has_body_length ≡ true
    → replace_field_value e.body_length_pos (body_size e) e ≡ some e1
    → let e3 = record (add_field_internal 10 (replicate 3 48) e1) { has_checksum = true } in
      finalize e
      ≡ replace_field_value
          (length e.buffer)
          (three_digits (calculate_checksum (body_start e) (length e.buffer) e3.buffer))
          e3
unfolding finalize
finalize-steps e e1 h r = ground (arith, h, r)

-- Where the message has the five zeros of `addHeader` in the field of the body length, and that length
-- has at most five digits: with fewer than three digits `finalize` throws; otherwise the length
-- stands in its field and the checksum in a field at the end. The checksum is the sum of the bytes from
-- the first separator on, over as many bytes as there were before the zeros gave way to the length, so
-- that it is also taken over the first bytes of its own field where the length has three or four digits.
pub finalize_lem :
    (pre post : List ℕ) (e : FixEncoder)
    → e.has_body_length ≡ true
    → e.body_length_pos ≡ length pre
    → e.buffer ≡ with_length pre (replicate 5 48) post
    → length (body_size e) ≤ 5
    → finalize e ≡ (
        if ltb (length (body_size e)) 3
        then none
        else some (record e {
          buffer =
              with_length pre (body_size e) post
              ++ checksum_field (
                  three_digits (
                    calculate_checksum
                      (body_start e)
                      (length e.buffer)
                      (with_length pre (body_size e) post ++ checksum_field (replicate 3 48))));
          field_count = e.field_count + 1;
          has_checksum = true;
        }))
unfolding add_field_internal decimal_onto
finalize_lem pre post e h at form few =
    let value = body_size e in
    let front = with_length pre value post in
    let k = 5 - length value in
    let e1 = record e { buffer = front } in
    let e3 = record (add_field_internal 10 (replicate 3 48) e1) { has_checksum = true } in
    let sum = three_digits (calculate_checksum (body_start e) (length e.buffer) e3.buffer) in
    let pos = length-decimal (sub_size (length e.buffer) (body_start e)) in
    let first : replace_field_value e.body_length_pos value e ≡ some e1 =
      ap (λ p. replace_field_value p value e) at
      ∙ replace_field_value_lem pre (57 ∷ []) (replicate 5 48) post value e (ground arith, tt)
          (ground arith, (ground arith, (ground arith, (ground arith, (ground arith, tt))))) form in
    let late : length e.buffer ≡ length front + k = omega (
      arith,
      ap length form,
      length-with_length pre (replicate 5 48) post,
      length-with_length pre value post,
    ) in
    finalize-steps e e1 h first
    ∙ ap (λ p. replace_field_value p sum e3) late
    ∙ late_replacement k front sum e3 refl (omega arith)
    ∙ elim (Bool-cases (ltb (length value) 3)) [
      | inl l ↦ ground (arith, l)
      | inr l ↦ ground (arith, l)
    ]
