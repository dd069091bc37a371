-- ===== src/Codec/Overread.antt =====
-- muduo/protocol.hpp: when `decoder` stays inside its blocks, and the length field that lets it
-- read past the input, since `5 + *out_len` is a 32-bit sum.
use fast_server.Prelude.{
  ℕ, zero, suc, ◌+◌, ◌-◌, ◌^◌, ◌≤◌, ◌<◌, ◌≡◌, refl, ◌≢◌, true, List, [], ◌∷◌, none, arith, length,
  get_elem?, set, length-set, Option-cases, inl, inr,
}
use fast_server.Codec.{add_32, unshift, le_value}
use fast_server.Codec.Protocol.{Targets, read_body, decoder}

get_elem?-none : {A : Type 0} (xs : List A) (i : ℕ) → length xs ≤ i → get_elem? xs i ≡ none
get_elem?-none [] i h = refl
get_elem?-none (x ∷ xs) zero h = absurd (omega arith)
get_elem?-none (x ∷ xs) (suc i) h = get_elem?-none xs i (omega arith)

get_elem?-ne-none : {A : Type 0} (xs : List A) (i : ℕ) → i < length xs → get_elem? xs i ≢ none
get_elem?-ne-none [] i h = absurd (omega arith)
get_elem?-ne-none (x ∷ xs) zero h = λ e. cc
get_elem?-ne-none (x ∷ xs) (suc i) h = get_elem?-ne-none xs i (omega arith)

read_body-none :
    (n i k : ℕ) (input out : List ℕ)
    → length input ≤ 5 + i + k
    → k < n
    → 5 + i + k < 2 ^ 32
    → read_body input i n out ≡ none
unfolding read_body
read_body-none zero i k input out h l s = absurd (omega arith)
read_body-none (suc n) i k input out h l s = elim (Option-cases (get_elem? input (add_32 5 i))) [
  | inl e ↦ ground arith
  | inr (v, e) ↦ ground (
    arith,
    get_elem?-none input (add_32 5 i),
    read_body-none n (i + 1) (k - 1) input (set out i (unshift i v)),
  )
]

read_body-ne-none :
    (n i : ℕ) (input out : List ℕ)
    → 5 + i + n ≤ length input
    → i + n ≤ length out
    → 5 + i + n < 2 ^ 32
    → read_body input i n out ≢ none
unfolding read_body
read_body-ne-none zero i input out h r s = λ e. cc
read_body-ne-none (suc n) i input out h r s = elim (Option-cases (get_elem? input (add_32 5 i))) [
  | inl e ↦ ground (arith, get_elem?-ne-none input (add_32 5 i))
  | inr (v, e) ↦ ground (
    arith,
    length-set out i (unshift i v),
    read_body-ne-none n (i + 1) input (set out i (unshift i v)),
  )
]

-- With a length field below 2 ^ 32 - 5 and a data block of that length, `decoder` stays inside its
-- blocks whatever the other bytes of the input are.
decoder-ne-none :
    (input : List ℕ) (t : Targets)
    → 5 + le_value input 1 < 2 ^ 32
    → le_value input 1 ≤ length t.out_data
    → decoder input true t ≢ none
unfolding decoder
decoder-ne-none input t s room =
    ground (arith, read_body-ne-none (le_value input 1) 0 input t.out_data)

-- With a length field of 2 ^ 32 - 5 or more in an input of fewer bytes the check of the length
-- passes, and `decoder` reads or writes outside its blocks.
pub decoder_overread :
    (input : List ℕ) (t : Targets)
    → 5 ≤ length input
    → length input < 2 ^ 32 - 5
    → 2 ^ 32 - 5 ≤ le_value input 1
    → le_value input 1 < 2 ^ 32
    → decoder input true t ≡ none
unfolding decoder
decoder_overread input t long short big w =
    ground (arith, read_body-none (le_value input 1) 0 (length input - 5) input t.out_data)
