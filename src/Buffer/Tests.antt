-- ===== src/Buffer/Tests.antt =====
-- Runs of the buffer of muduo/include/SimpleBuffer.hpp, and the theorems at concrete buffers.
use fast_server.Prelude.{ℕ, ◌+◌, ◌≤◌, ◌<◌, ◌≡◌, ◌⊎◌, refl, arith, List, [], ◌∷◌, length}
use fast_server.Buffer.{create, size, content, compact, grow, ensure_capacity, write, advance}
use fast_server.Buffer.Content.{IsValid, create-IsValid}
use fast_server.Buffer.Stream.{
  Op, put, consume, step, run, run_bytes, AllFit, Fits, run_refines, write_growth,
}

abbrev calls : List Op
calls = put (1 ∷ 2 ∷ 3 ∷ []) ∷ consume 2 ∷ put (4 ∷ 5 ∷ 6 ∷ 7 ∷ 8 ∷ []) ∷ consume 1 ∷ []

run-calls : content (run calls (create 4)) ≡ 4 ∷ 5 ∷ 6 ∷ 7 ∷ 8 ∷ []
unfolding run step create write ensure_capacity compact grow advance
run-calls = refl

calls_fit : AllFit calls (create 4)
unfolding AllFit Fits step create write ensure_capacity compact grow advance
calls_fit = (omega arith, (omega arith, (omega arith, (omega arith, tt))))

run_refines_example :
    IsValid (run calls (create 4))
    × (content (run calls (create 4)) ≡ run_bytes calls (content (create 4)))
run_refines_example = run_refines calls (create 4) (create-IsValid 4 (omega arith)) calls_fit

abbrev four_bytes : List ℕ
four_bytes = 1 ∷ 2 ∷ 3 ∷ 4 ∷ []

write_growth_example :
    ((size (create 3) + length four_bytes ≤ (create 3).buffer_size)
      × ((write four_bytes (create 3)).buffer_size ≡ (create 3).buffer_size))
    ⊎ (((create 3).buffer_size < size (create 3) + length four_bytes)
        × ((create 3).buffer_size + (create 3).buffer_size
            ≤ (write four_bytes (create 3)).buffer_size))
unfolding create
write_growth_example =
    write_growth four_bytes (create 3) (create-IsValid 3 (omega arith)) (omega arith) (omega arith)
