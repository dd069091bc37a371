-- ===== src/Cube/Tests.antt =====
-- Runs of the server of muduo/example/main.cpp, and the theorems at concrete requests.
use fast_server.Prelude.{ℕ, ◌-◌, ◌^◌, some, true, ◌+◌, ◌≡◌, refl, arith, List, [], ◌∷◌, ◌++◌, inl}
use fast_server.Buffer.{SimpleBuffer, advance, compact, create, content, ensure_capacity, write}
use fast_server.Buffer.Content.{IsValid, create-IsValid, write_lem}
use fast_server.Cube.{Decoded, decode, to_size, done, fault, serve, on_message}
use fast_server.Cube.Frames.{request}
use fast_server.Cube.Messages.{replies, on_message-stream}
use fast_server.Cube.Short.{serve-short}

abbrev body : List ℕ
body = 1 ∷ 2 ∷ 3 ∷ 4 ∷ 5 ∷ 6 ∷ 7 ∷ 8 ∷ []

abbrev idle : SimpleBuffer
idle = create 64

abbrev clock : ℕ → ℕ
clock k = 1000 + k

idle-IsValid : IsValid idle
idle-IsValid = create-IsValid 64 (omega arith)

-- Two requests and the first three bytes of a third.
abbrev received : List ℕ
received = request body ++ request body ++ 2 ∷ 13 ∷ 0 ∷ []

on_message-stream_example :
    (b' : SimpleBuffer) × (on_message clock received idle
      ≡ done (replies clock 0 (body ∷ body ∷ [])) b')
    × IsValid b'
    × (content b' ≡ 2 ∷ 13 ∷ 0 ∷ [])
unfolding create
on_message-stream_example =
    on_message-stream clock (body ∷ body ∷ []) (2 ∷ 13 ∷ 0 ∷ []) received idle idle-IsValid
      (omega arith) ((omega arith, omega arith), ((omega arith, omega arith), tt))
      (inl (omega arith)) refl

abbrev one_request : SimpleBuffer
one_request = write (request body) idle

one_request-IsValid : IsValid one_request
unfolding create
one_request-IsValid = (write_lem (request body) idle idle-IsValid (omega arith)).0

one_request-content : content one_request ≡ request body ++ []
unfolding create write ensure_capacity
one_request-content = refl

-- A request whose length field is 3.
abbrev short_request : SimpleBuffer
short_request = write (2 ∷ 3 ∷ 0 ∷ 0 ∷ 0 ∷ []) idle

short_request-IsValid : IsValid short_request
unfolding create
short_request-IsValid = (write_lem (2 ∷ 3 ∷ 0 ∷ 0 ∷ 0 ∷ []) idle idle-IsValid (omega arith)).0

abbrev accepted : Decoded
accepted = record { body_len = 2 ^ 32 - 2; valid = true; buffer = advance 5 short_request }

serve-short_example :
    (decode short_request ≡ some accepted)
    × (to_size accepted.body_len ≡ 2 ^ 64 - 2)
    × (serve clock 3 0 short_request ≡ fault)
unfolding create write ensure_capacity advance compact
serve-short_example =
    serve-short clock 2 0 short_request short_request-IsValid (omega arith) (omega arith) refl
      (omega arith) (omega arith)
