-- ===== src/Buffer/Stream.antt =====
-- muduo/include/SimpleBuffer.hpp under any sequence of calls: a first-in first-out queue of bytes.
use fast_server.Prelude.{
  ℕ, ◌+◌, ◌^◌, ◌≤◌, ◌<◌, ◌≡◌, refl, ap, ◌∙◌, ◌⊎◌, List, [], ◌∷◌, ◌++◌, arith, length, drop,
}
use fast_server.Buffer.{SimpleBuffer, size, content, compact, grow, ensure_capacity, write, advance}
use fast_server.Buffer.Content.{IsValid, write_lem, advance_lem}

pub data Op : Type 0 where
  put : List ℕ → Op
  consume : ℕ → Op

unfoldable pub step : Op → SimpleBuffer → SimpleBuffer
step (put bytes) b = write bytes b
step (consume n) b = advance n b

unfoldable pub run : List Op → SimpleBuffer → SimpleBuffer
run [] b = b
run (o ∷ os) b = run os (step o b)

-- The same calls on the bytes alone.
abbrev pub run_bytes : List Op → List ℕ → List ℕ
run_bytes [] xs = xs
run_bytes (put bytes ∷ os) xs = run_bytes os (xs ++ bytes)
run_bytes (consume n ∷ os) xs = run_bytes os (drop n xs)

-- A call is within its bounds: a write keeps the positions below 2 ^ 64, and no more is consumed
-- than is there.
unfoldable pub Fits : Op → SimpleBuffer → Type 0
Fits (put bytes) b = b.write_pos + length bytes < 2 ^ 64
Fits (consume n) b = n ≤ size b

unfoldable pub AllFit : List Op → SimpleBuffer → Type 0
AllFit [] b = Unit {0}
AllFit (o ∷ os) b = Fits o b × AllFit os (step o b)

-- On a valid buffer any sequence of calls within their bounds keeps the buffer valid and leaves
-- in it the bytes that the same calls leave in a queue.
pub run_refines :
    (os : List Op) (b : SimpleBuffer)
    → IsValid b
    → AllFit os b
    → IsValid (run os b) × (content (run os b) ≡ run_bytes os (content b))
unfolding run step AllFit Fits
run_refines [] b v f = (v, refl)
run_refines (put bytes ∷ os) b v (h, f) =
    let (v', e) = write_lem bytes b v h in
    let (w, e') = run_refines os (write bytes b) v' f in (w, e' ∙ ap (run_bytes os) e)
run_refines (consume n ∷ os) b v (h, f) =
    let (v', e) = advance_lem n b v h in
    let (w, e') = run_refines os (advance n b) v' f in (w, e' ∙ ap (run_bytes os) e)

-- A write to a valid buffer allocates a new block only if the data and the new bytes together do
-- not fit the old one, and the new block then is at least twice as large, where neither the
-- write position and the length nor the doubled size reach 2 ^ 64.
pub write_growth :
    (bytes : List ℕ) (b : SimpleBuffer)
    → IsValid b
    → b.write_pos + length bytes < 2 ^ 64
    → b.buffer_size + b.buffer_size < 2 ^ 64
    → ((size b + length bytes ≤ b.buffer_size) × ((write bytes b).buffer_size ≡ b.buffer_size))
      ⊎ ((b.buffer_size < size b + length bytes)
          × (b.buffer_size + b.buffer_size ≤ (write bytes b).buffer_size))
unfolding write ensure_capacity compact grow
write_growth bytes b v h d = ground arith
