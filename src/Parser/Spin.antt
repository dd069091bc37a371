-- ===== src/Parser/Spin.antt =====
-- ihs/src/parser.cpp, the loop of the first `FixParser`: each round takes characters from the
-- buffer, or the length of a message wraps around to 0 and the loop stays where it is.
use fast_server.Prelude.{
  ℕ, zero, suc, ◌+◌, ◌-◌, ◌%◌, ◌^◌, ◌≤◌, ◌<◌, ◌≡◌, ◌⊎◌, inl, inr, List, [], ◌∷◌, ◌++◌, none, some,
  length, length-drop, drop-drop, drop, take, refl, ◌==◌, sym, ◌∙◌, subst, arith, Bool-cases,
  Option-cases, ap,
}
use fast_server.Fix.{index_of}
use fast_server.Parser.Stoi.{returns, Result-cases}
use fast_server.Parser.Stream
use fast_server.Parser.Stream.{StreamParser, Next, leaves, repeats}

-- What is left after a message of `n` characters; one of none is not delivered.
take_message-buffer :
    (n : ℕ) (rest : List ℕ) (p q : StreamParser)
    → Stream.take_message n rest p ≡ returns q
    → q.buffer ≡ drop n rest
unfolding Stream.take_message
take_message-buffer n rest p q e = elim (Result-cases (Stream.validate_checksum (take n rest))) [
  | inl (v, h) ↦ ground arith
  | inr (x, h) ↦ ground arith
]

take_message_zero :
    (rest : List ℕ) (p : StreamParser)
    → Stream.take_message 0 rest p ≡ returns (record p { buffer = rest })
unfolding Stream.take_message Stream.validate_checksum Stream.search
take_message_zero rest p = refl

-- What a message that is taken tells of its length.
after_length-taken :
    (start passed n total : ℕ) (rest : List ℕ) (p q : StreamParser)
    → total ≡ (start + passed + n + 7) % 2 ^ 64
    → Stream.after_length start (passed, n) rest p ≡ repeats q
    → (start + passed < length rest)
      × (total ≤ length rest)
      × (Stream.take_message total rest p ≡ returns q)
unfolding Stream.after_length
after_length-taken start passed n total rest p q t e =
    elim (Result-cases (Stream.take_message ((start + passed + n + 7) % 2 ^ 64) rest p)) [
      | inl (v, h) ↦ ground arith
      | inr (x, h) ↦ ground arith
    ]

after_length-of_taken :
    (start passed n total : ℕ) (rest : List ℕ) (p q : StreamParser)
    → total ≡ (start + passed + n + 7) % 2 ^ 64
    → start + passed < length rest
    → total ≤ length rest
    → Stream.take_message total rest p ≡ returns q
    → Stream.after_length start (passed, n) rest p ≡ repeats q
unfolding Stream.after_length
after_length-of_taken start passed n total rest p q t i j e = ground arith

-- A round on a message at the front shortens the buffer, or is to be repeated as it is.
after_length-shrinks :
    (start : ℕ) (r : ℕ × ℕ) (rest : List ℕ) (p q : StreamParser)
    → Stream.after_length start r rest p ≡ repeats q
    → let total = (start + r.0 + r.1 + 7) % 2 ^ 64 in
      (q.buffer ≡ drop total rest)
      × ((length q.buffer < length rest)
          ⊎ ((total ≡ 0) × (q.buffer ≡ rest) × (Stream.after_length start r rest q ≡ repeats q)))
after_length-shrinks start (passed, n) rest p q e =
    let total = (start + passed + n + 7) % 2 ^ 64 in
    let taken = after_length-taken start passed n total rest p q refl e in
    let left = take_message-buffer total rest p q taken.2 in
    (
      left,
      elim (Bool-cases (total == 0)) [
        | inr h ↦
            let some_taken : 0 < total = ground arith in
            inl (omega (arith, ap length left, length-drop total rest))
        | inl h ↦
            let none_taken : total ≡ 0 = ground arith in
            let same : q.buffer ≡ rest = left ∙ ap (λ n. drop n rest) none_taken in
            inr (
              none_taken,
              same,
              after_length-of_taken start passed n total rest q q refl taken.0 taken.1 (
                  ap (λ n. Stream.take_message n rest q) none_taken
                  ∙ take_message_zero rest q
                  ∙ ap (λ b. returns (record q { buffer = b })) (sym same)),
            )
      ],
    )

-- A message begins at the front of `rest`, and the number behind its first `9=` wraps its length
-- around to 0.
abbrev pub IsWrappingHere : List ℕ → Type 0
IsWrappingHere rest =
    (passed : ℕ) × (n : ℕ) × (Stream.search Stream.begin_text rest ≡ some 0)
    × (Stream.parse_length (drop (index_of 57 rest + 2) rest) 0 ≡ returns (passed, n))
    × ((index_of 57 rest + 2 + passed + n + 7) % 2 ^ 64 ≡ 0)

abbrev pub IsWrapping : List ℕ → Type 0
IsWrapping text = (place : ℕ) × IsWrappingHere (drop place text)

-- What a repeated round left: less of the buffer, or the same of it with a length that wraps.
abbrev Advances : (rest : List ℕ) (q : StreamParser) (again : Next) → Type 0
Advances rest q again =
    (j : ℕ) × (q.buffer ≡ drop j rest)
    × ((length q.buffer < length rest)
        ⊎ (IsWrappingHere rest × (q.buffer ≡ rest) × (again ≡ repeats q)))

at_begin-shrinks :
    (rest : List ℕ) (p q : StreamParser)
    → Stream.search Stream.begin_text rest ≡ some 0
    → Stream.at_begin rest p ≡ repeats q
    → Advances rest q (Stream.at_begin rest q)
unfolding Stream.at_begin
at_begin-shrinks rest p q front e =
    let start = index_of 57 rest + 2 in
    elim (Result-cases (Stream.parse_length (drop start rest) 0)) [
      | inr (x, h) ↦ ground arith
      | inl ((passed, n), h) ↦
          let taken : Stream.after_length start (passed, n) rest p ≡ repeats q = ground arith in
          let (left, turn) = after_length-shrinks start (passed, n) rest p q taken in
          (
            (start + passed + n + 7) % 2 ^ 64,
            left,
            elim turn [
              | inl less ↦ inl less
              | inr (wraps, same, again) ↦
                  inr ((passed, n, front, h, wraps), same, ground (arith, again))
            ],
          )
    ]

search-drop :
    (pattern text : List ℕ) (i : ℕ)
    → Stream.search pattern text ≡ some i
    → Stream.search pattern (drop i text) ≡ some 0
unfolding Stream.search
search-drop pattern [] i e = absurd cc
search-drop pattern (c ∷ text) zero e = e
search-drop pattern (c ∷ text) (suc i) e =
    search-drop pattern text i (elim (Option-cases (Stream.search pattern text)) [
      | inl h ↦ ground arith
      | inr (j, h) ↦ ground arith
    ])

process_round-shrinks :
    (p q : StreamParser)
    → Stream.process_round p ≡ repeats q
    → (j : ℕ) × (q.buffer ≡ drop j p.buffer)
      × ((length q.buffer < length p.buffer)
          ⊎ (IsWrapping p.buffer × (Stream.process_round q ≡ repeats q)))
unfolding Stream.process_round
process_round-shrinks p q e = elim (Option-cases (Stream.search Stream.begin_text p.buffer)) [
  | inl h ↦ ground arith
  | inr (place, h) ↦
      let begun : Stream.at_begin (drop place p.buffer) p ≡ repeats q = ground arith in
      let front = search-drop Stream.begin_text p.buffer place h in
      let (j, left, turn) = at_begin-shrinks (drop place p.buffer) p q front begun in
      (
        place + j,
        left ∙ drop-drop j place (place + j) p.buffer refl,
        elim turn [
          | inl less ↦ inl (omega (arith, length-drop place p.buffer))
          | inr (wraps, same, again) ↦
              let first : Stream.search Stream.begin_text q.buffer ≡ some 0 =
                ap (Stream.search Stream.begin_text) same ∙ front in
              inr ((place, wraps), ground (arith, first, again))
        ],
      )
]

spins :
    (fuel : ℕ) (p : StreamParser)
    → Stream.process_round p ≡ repeats p
    → Stream.process_buffer fuel p ≡ none
unfolding Stream.process_buffer
spins zero p e = refl
spins (suc fuel) p e = ground (arith, spins fuel p)

Next-cases :
    (n : Next) → ((left : Stream.Left) × (n ≡ leaves left)) ⊎ ((q : StreamParser) × (n ≡ repeats q))
Next-cases (leaves left) = inl (left, refl)
Next-cases (repeats q) = inr (q, refl)

never_before :
    (n : ℕ) (p q : StreamParser)
    → Stream.process_round p ≡ repeats q
    → Stream.process_buffer (n - 1) q ≡ none
    → Stream.process_buffer n p ≡ none
unfolding Stream.process_buffer
never_before zero p q e h = refl
never_before (suc n) p q e h = ground arith

wraps_before : (j : ℕ) (text : List ℕ) → IsWrapping (drop j text) → IsWrapping text
wraps_before j text (place, wraps) =
    (j + place, subst IsWrappingHere (drop-drop place j (j + place) text refl) wraps)

process_buffer-ends_or_spins :
    (fuel : ℕ) (p : StreamParser)
    → length p.buffer < fuel
    → ((left : Stream.Left) × (Stream.process_buffer fuel p ≡ some left))
      ⊎ (IsWrapping p.buffer × ((n : ℕ) → Stream.process_buffer n p ≡ none))
unfolding Stream.process_buffer
process_buffer-ends_or_spins zero p h = absurd (omega arith)
process_buffer-ends_or_spins (suc fuel) p h = elim (Next-cases (Stream.process_round p)) [
  | inl (left, e) ↦ inl (left, ground arith)
  | inr (q, e) ↦
      let (j, left, turn) = process_round-shrinks p q e in
      elim turn [
        | inl less ↦ elim (process_buffer-ends_or_spins fuel q (omega arith)) [
          | inl (at_end, r) ↦ inl (at_end, ground arith)
          | inr (wraps, never) ↦ inr (
            wraps_before j p.buffer (subst IsWrapping left wraps),
            λ n. never_before n p q e (never (n - 1)),
          )
        ]
        | inr (wraps, again) ↦ inr (wraps, λ n. never_before n p q e (spins (n - 1) q again))
      ]
]

-- `on_data` comes to its end within one round more than there are characters in its buffer. Or it
-- never ends, no number of rounds being enough, and then the characters in its buffer and the new
-- ones hold a `8=FIX` with a body length behind it that makes the message's length 0 modulo 2 ^ 64.
pub on_data-ends_or_spins :
    (bytes : List ℕ) (p : StreamParser)
    → ((left : Stream.Left) × (Stream.on_data (length (p.buffer ++ bytes) + 1) bytes p ≡ some left))
      ⊎ (IsWrapping (p.buffer ++ bytes) × ((n : ℕ) → Stream.on_data n bytes p ≡ none))
unfolding Stream.on_data
on_data-ends_or_spins bytes p =
    process_buffer-ends_or_spins (length (p.buffer ++ bytes) + 1)
      (record p { buffer = p.buffer ++ bytes }) (omega arith)
