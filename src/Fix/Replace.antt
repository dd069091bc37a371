-- ===== src/Fix/Replace.antt =====
-- ihs/src/encoder.cpp: `replaceFieldValue` puts a new value in place of a field's old one.
use fast_server.Prelude.{
  ℕ, zero, suc, ◌+◌, ◌-◌, ◌≤◌, ◌<◌, ◌≡◌, ◌≢◌, refl, sym, ap, ◌∙◌, List, [], ◌∷◌, ◌++◌, arith, All,
  some, length, take, drop, replicate, blit, slice, length-append, length-replicate, blit_front,
  append_assoc, append-nil, drop-length, take-length, take_of_le, false, ◌==◌, leb, ltb, ltb→lt,
  length-take, Bool-cases, inl, inr,
}
use fast_server.Fix.{FixEncoder, soh, equal_sign, index_of, resize_field, replace_field_value}

blit_behind :
    (pre xs ys : List ℕ) (i j : ℕ)
    → j ≡ length pre + i
    → blit (pre ++ xs) j ys ≡ pre ++ blit xs i ys
blit_behind [] xs ys i j e = ap (λ t. blit xs t ys) (omega arith)
blit_behind (p ∷ pre) xs ys i zero e = absurd (omega arith)
blit_behind (p ∷ pre) xs ys i (suc j) e = ap (λ t. p ∷ t) (blit_behind pre xs ys i j (omega arith))

-- What a move leaves: the front, the moved part, and the rest.
blit-split :
    (xs post : List ℕ) (n : ℕ)
    → n + length post ≤ length xs
    → blit xs n post ≡ take n xs ++ (post ++ drop (n + length post) xs)
blit-split xs post zero h =
    blit_front xs post (omega arith) ∙ ap (λ k. post ++ drop k xs) (omega arith)
blit-split [] post (suc n) h = absurd (omega arith)
blit-split (x ∷ xs) post (suc n) h =
    ap (λ t. x ∷ t) (blit-split xs post n (omega arith))
    ∙ ap (λ k. x ∷ take n xs ++ (post ++ drop k (x ∷ xs))) {x = suc (n + length post)} (omega arith)

drop_all : (xs : List ℕ) (n : ℕ) → length xs ≤ n → drop n xs ≡ []
drop_all [] zero h = refl
drop_all [] (suc n) h = refl
drop_all (x ∷ xs) zero h = absurd (omega arith)
drop_all (x ∷ xs) (suc n) h = drop_all xs n (omega arith)

take_behind :
    (pre xs : List ℕ) (n m : ℕ) → m ≡ length pre + n → take m (pre ++ xs) ≡ pre ++ take n xs
take_behind [] xs n m e = ap (λ t. take t xs) (omega arith)
take_behind (p ∷ pre) xs n zero e = absurd (omega arith)
take_behind (p ∷ pre) xs n (suc m) e = ap (λ t. p ∷ t) (take_behind pre xs n m (omega arith))

-- A new value over a front of its length.
blit_value :
    (front post new : List ℕ) → length new ≡ length front → blit (front ++ post) 0 new ≡ new ++ post
blit_value front post new e =
    blit_front (front ++ post) new (omega (arith, e, length-append front post))
    ∙ ap (λ t. new ++ t) (ap (λ k. drop k (front ++ post)) e ∙ drop-length front post)

pub index_of_here :
    (ch : ℕ) (xs ys : List ℕ) → All (λ x. x ≢ ch) xs → index_of ch (xs ++ ch ∷ ys) ≡ length xs
unfolding index_of
index_of_here ch [] ys h = ground arith
index_of_here ch (x ∷ xs) ys (n, h) = ground (arith, n, index_of_here ch xs ys h)

-- The bytes behind a field, as the code copies them.
tail_slice :
    (xs post : List ℕ) → slice (xs ++ post) (length xs) (length (xs ++ post) - length xs) ≡ post
tail_slice xs post =
    ap (take (length (xs ++ post) - length xs)) (drop-length xs post)
    ∙ take_of_le (length (xs ++ post) - length xs) post (omega (arith, length-append xs post))

-- Either way of resizing, and then the copy of the value.
resized :
    (pre old post new : List ℕ) (field_end : ℕ)
    → field_end ≡ length pre + length old
    → blit
        (resize_field field_end (length old) (length new) (pre ++ (old ++ post)))
        (length pre)
        new
      ≡ pre ++ (new ++ post)
unfolding resize_field
resized pre old post new fe e =
    let buf = pre ++ (old ++ post) in
    let n = length new in
    let sizes = length-append pre (old ++ post) in
    let sizes' = length-append old post in
    let moved : slice buf fe (length buf - fe) ≡ post =
      ap (λ b. slice b fe (length b - fe)) (sym (append_assoc pre old post))
      ∙ ap (λ i. slice ((pre ++ old) ++ post) i (length ((pre ++ old) ++ post) - i))
          {y = length (pre ++ old)} (omega (arith, e, length-append pre old))
      ∙ tail_slice (pre ++ old) post in
    let place : (front : List ℕ)
        → length new ≡ length front
        → blit (pre ++ (front ++ post)) (length pre) new ≡ pre ++ (new ++ post) =
      λ front same.
        blit_behind pre (front ++ post) new 0 (length pre) (omega arith)
        ∙ ap (λ t. pre ++ t) (blit_value front post new same) in
    elim (Bool-cases (length old == n)) [
      | inl q ↦ rw q (place old (ground (arith, q)))
      | inr q ↦ (elim (Bool-cases (ltb (length old) n)) [
        | inl l ↦
            let d = n - length old in
            let zeros : List ℕ = replicate d 0 in
            let wide = (old ++ post) ++ zeros in
            let less : length old < n = ltb→lt (length old) n l in
            let room : n + length post ≡ length wide = omega (
              arith,
              less,
              length-append (old ++ post) zeros,
              sizes',
              length-replicate {A = ℕ} d 0,
            ) in
            let grown : blit (buf ++ zeros) (fe + d) post ≡ pre ++ (take n wide ++ post) =
              ap (λ b. blit b (fe + d) post) (append_assoc pre (old ++ post) zeros)
              ∙ blit_behind pre wide post n (fe + d) (omega (arith, e, less))
              ∙ ap (λ t. pre ++ t)
                  (blit-split wide post n (omega (arith, room))
                    ∙ ap (λ t. take n wide ++ t)
                        (ap (λ t. post ++ t) (drop_all wide (n + length post) (omega (arith, room)))
                          ∙ append-nil post)) in
            rw (q, l)
              (ap (λ t. blit (blit (buf ++ zeros) (fe + d) t) (length pre) new) moved
                ∙ ap (λ b. blit b (length pre) new) grown
                ∙ place (take n wide) (omega (arith, room, length-take n wide)))
        | inr l ↦
            let d = length old - n in
            let less : n ≤ length old = ground (arith, l) in
            let whole = take n (old ++ post) ++ post in
            let cut : take (length buf - d) (blit buf (fe - d) post) ≡ pre ++ whole =
              ap (take (length buf - d))
                (blit_behind pre (old ++ post) post n (fe - d) (omega (arith, e, less)))
              ∙ take_behind pre (blit (old ++ post) n post) (n + length post) (length buf - d)
                  (omega (arith, sizes, sizes', less))
              ∙ ap (λ t. pre ++ t)
                  (ap (take (n + length post)) (
                      blit-split (old ++ post) post n (omega (arith, sizes', less))
                      ∙ sym (
                          append_assoc (take n (old ++ post)) post
                            (drop (n + length post) (old ++ post))))
                    ∙ ap (λ k. take k (whole ++ drop (n + length post) (old ++ post)))
                        {y = length whole}
                        (omega (
                          arith,
                          length-append (take n (old ++ post)) post,
                          length-take n (old ++ post),
                          sizes',
                          less,
                        ))
                    ∙ take-length whole (drop (n + length post) (old ++ post))) in
            rw (q, l)
              (ap (λ t. blit (take (length buf - d) (blit buf (fe - d) t)) (length pre) new) moved
                ∙ ap (λ b. blit b (length pre) new) cut
                ∙ place (take n (old ++ post))
                    (omega (arith, length-take n (old ++ post), sizes', less)))
      ])
    ]

spread :
    (pre tag rest : List ℕ)
    → ((pre ++ tag) ++ equal_sign ∷ []) ++ rest ≡ pre ++ (tag ++ equal_sign ∷ rest)
spread pre tag rest =
    append_assoc (pre ++ tag) (equal_sign ∷ []) rest ∙ append_assoc pre tag (equal_sign ∷ rest)

-- `replaceFieldValue` at a field whose tag has no equal sign and whose value has no separator puts
-- the new value in place of the old one, whether it is longer, shorter or as long, and changes
-- nothing else.
pub replace_field_value_lem :
    (pre tag old post new : List ℕ) (e : FixEncoder)
    → All (λ x. x ≢ equal_sign) tag
    → All (λ x. x ≢ soh) old
    → e.buffer ≡ pre ++ (tag ++ equal_sign ∷ (old ++ soh ∷ post))
    → replace_field_value (length pre) new e
      ≡ some (record e { buffer = pre ++ (tag ++ equal_sign ∷ (new ++ soh ∷ post)) })
unfolding replace_field_value
replace_field_value_lem pre tag old post new e no_equal no_soh form =
    let rest = old ++ soh ∷ post in
    let front = (pre ++ tag) ++ equal_sign ∷ [] in
    let equal_pos : length pre + index_of equal_sign (drop (length pre) e.buffer)
        ≡ length pre + length tag =
      ap (λ t. length pre + index_of equal_sign t)
        (ap (drop (length pre)) form ∙ drop-length pre (tag ++ equal_sign ∷ rest))
      ∙ ap (λ t. length pre + t) (index_of_here equal_sign tag rest no_equal) in
    let n = length new in
    let eqp = length pre + index_of equal_sign (drop (length pre) e.buffer) in
    let vp = eqp + 1 in
    let fe = vp + index_of soh (drop vp e.buffer) in
    let whole : e.buffer ≡ front ++ rest = form ∙ sym (spread pre tag rest) in
    let at_value : vp ≡ length front =
      omega
        (arith, equal_pos, length-append pre tag, length-append (pre ++ tag) (equal_sign ∷ [])) in
    let at_end : fe ≡ length front + length old =
      ap (λ i. i + index_of soh (drop i e.buffer)) at_value
      ∙ ap (λ t. length front + index_of soh t)
          (ap (drop (length front)) whole ∙ drop-length front rest)
      ∙ ap (λ t. length front + t) (index_of_here soh old post no_soh) in
    let size : length e.buffer ≡ length front + (length old + (1 + length post)) =
      omega (arith, ap length whole, length-append front rest, length-append old (soh ∷ post)) in
    let first : leb (length e.buffer) eqp ≡ false = ground (arith, size, at_value) in
    let second : leb (length e.buffer) fe ≡ false = ground (arith, size, at_end) in
    rw (first, second)
      (ap (λ b. some (record e { buffer = b }))
        (ap (λ v. blit (resize_field fe (fe - v) n e.buffer) v new) at_value
          ∙ ap (λ f. blit (resize_field f (f - length front) n e.buffer) (length front) new) at_end
          ∙ ap
              (λ o. blit (resize_field (length front + length old) o n e.buffer) (length front) new)
              {y = length old} (omega arith)
          ∙ ap
              (λ b.
                blit (resize_field (length front + length old) (length old) n b) (length front) new)
              whole
          ∙ resized front old (soh ∷ post) new (length front + length old) refl
          ∙ spread pre tag (new ++ soh ∷ post)))
