-- ===== src/Codec/Protocol.antt =====
-- muduo/protocol.hpp: `encoder` and `decoder` of the echo programs. `encoder` writes over the
-- caller's output block; `decoder` reads the input and writes through three out parameters. A read
-- or write outside a block is `none`.
use fast_server.Prelude.{
  ℕ, zero, suc, ◌+◌, ◌%◌, Bool, not, ◌||◌, List, [], ◌∷◌, Option, none, some, ltb, if◌then◌else◌,
  length, get_elem?, get_or, set, blit,
}
use fast_server.Codec.{add_32, shift, unshift, le_bytes, le_value}

-- A write at an index of a block.
abbrev pub store : List ℕ → ℕ → ℕ → Option (List ℕ)
store xs i v = if ltb i (length xs) then some (set xs i v) else none

-- `for (i = 0; i < data_len; ++i) output[5 + i] = data[i] + …`, from `i` on
unfoldable pub write_body : ℕ → List ℕ → List ℕ → Option (List ℕ)
write_body i [] output = some output
write_body i (d ∷ ds) output = elim (store output (add_32 5 i) (shift i d)) [
  | none ↦ none
  | some output' ↦ write_body (i + 1) ds output'
]

-- `encoder(type, data, data_len, output, out_size)`, with `data` the list of its `data_len` bytes
-- and `present` for `output` not null. The result is the returned length and the output block.
unfoldable pub encoder : ℕ → List ℕ → Bool → List ℕ → ℕ → Option (ℕ × List ℕ)
encoder type bytes present output out_size =
    let total = add_32 5 (length bytes) in
    if ltb out_size total || not present
    then some (0, output)
    else elim (write_body 0 bytes (blit (set output 0 (type % 256)) 1 (le_bytes (length bytes)))) [
      | none ↦ none
      | some output' ↦ some (total, output')
    ]

-- What `out_type`, `out_data` and `out_len` point to.
pub record Targets : Type 0 where
  pub out_type : ℕ
  pub out_data : List ℕ
  pub out_len : ℕ

-- `for (i = 0; i < *out_len; ++i)`, with `n` rounds left from `i` on
unfoldable pub read_body : List ℕ → ℕ → ℕ → List ℕ → Option (List ℕ)
read_body input i zero out = some out
read_body input i (suc n) out = elim (get_elem? input (add_32 5 i)) [
  | none ↦ none
  | some byte ↦ elim (store out i (unshift i byte)) [
    | none ↦ none
    | some out' ↦ read_body input (i + 1) n out'
  ]
]

-- `decoder(input, in_size, out_type, out_data, out_len)`, with `input` the list of its `in_size`
-- bytes and `present` for four pointers that are not null.
unfoldable pub decoder : List ℕ → Bool → Targets → Option Targets
decoder input present t =
    if ltb (length input) 5 || not present
    then some t
    else let len = le_value input 1 in
      let t' = record t { out_type = get_or input 0 0; out_len = len } in
      if ltb (length input) (add_32 5 len)
      then some t'
      else elim (read_body input 0 len t.out_data) [
        | none ↦ none
        | some d ↦ some (record t' { out_data = d })
      ]
