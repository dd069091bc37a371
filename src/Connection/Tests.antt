-- ===== src/Connection/Tests.antt =====
-- Runs of muduo/src/Connection.cpp against a kernel that takes four bytes at a time, and the theorem
-- at a conversation.
use fast_server.Prelude.{
  ℕ, ◌≡◌, refl, ap, arith, true, false, List, [], ◌∷◌, ◌++◌, some, none, min, length, leb,
  if◌then◌else◌,
}
use fast_server.Buffer.{create, content, write, ensure_capacity, compact, grow, advance}
use fast_server.Buffer.Content.{create-IsValid}
use fast_server.Connection.{
  WriteResult, wrote, would_block, errored, Connection, send, write_chunks, send_buffered_data,
}
use fast_server.Connection.Stream.{TakesNoMore}
use fast_server.Connection.Talk.{Call, say, flush, said, run, AllFit, run-said}

-- Two rounds of a flush take up to four bytes each, a third one would block.
abbrev kernel : ℕ → ℕ → List ℕ → WriteResult
kernel i k bytes = if leb k 1 then wrote (min 4 (length bytes)) else would_block

abbrev opened : Connection
opened = record {
  send_buffer = create 8;
  try_close = false;
  closed = false;
  reading = true;
  removed = false;
  queued = 0;
}

abbrev calls : List Call
calls = say (1 ∷ 2 ∷ 3 ∷ []) ∷ say (4 ∷ 5 ∷ 6 ∷ 7 ∷ 8 ∷ 9 ∷ 10 ∷ []) ∷ flush ∷ say (11 ∷ []) ∷ []

abbrev taken : WriteResult → ℕ
taken (wrote n) = n
taken would_block = 0
taken errored = 0

kernel_takes : (j : ℕ) → TakesNoMore (kernel j)
kernel_takes j k n bytes e = ground (arith, ap taken e)

calls_fit : AllFit kernel 0 calls opened
unfolding AllFit send create write ensure_capacity compact grow send_buffered_data write_chunks
    advance
calls_fit = (omega arith, (omega arith, (omega arith, tt)))

run-calls :
    (elim (run kernel 0 calls opened) [ none ↦ [] | some (out, c) ↦ out ])
    ≡ 1 ∷ 2 ∷ 3 ∷ 4 ∷ 5 ∷ 6 ∷ 7 ∷ 8 ∷ []
unfolding run send create write ensure_capacity compact grow send_buffered_data write_chunks advance
run-calls = refl

run-said_example :
    (out : List ℕ) × (c' : Connection) × (run kernel 0 calls opened ≡ some (out, c'))
    × (out ++ content c'.send_buffer ≡ content opened.send_buffer ++ said calls)
run-said_example =
    run-said kernel 0 calls opened kernel_takes (create-IsValid 8 (omega arith)) refl calls_fit
