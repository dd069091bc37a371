-- ===== src/Buffer/Content.antt =====
-- muduo/include/SimpleBuffer.hpp against the queue of bytes that the buffer holds.
use fast_server.Prelude.{
  ℕ, ◌+◌, ◌-◌, ◌^◌, ◌≤◌, ◌<◌, ◌≡◌, refl, sym, ap, ap₂, ◌∙◌, ◌/◌, Bool-cases, leb, leb→le, ==_iff,
  inl, inr, List, ◌++◌, arith, length, take, drop, slice, blit, replicate, length-blit,
  length-slice, length-replicate, slice-blit, slice-blit_front, drop-take, drop-drop, ltb, add_size,
  sub_size,
}
use fast_server.Buffer.{
  SimpleBuffer, create, size, no_data, content, compact, grow, ensure_capacity, write, advance,
}

-- The block has the size that the buffer notes, and the positions lie in order inside it.
pub record IsValid (b : SimpleBuffer) : Type 0 where
  pub block : length b.buffer ≡ b.buffer_size
  pub ordered : b.read_pos ≤ b.write_pos
  pub inside : b.write_pos ≤ b.buffer_size
  pub small : b.buffer_size < 2 ^ 64

pub create-IsValid : (n : ℕ) → n < 2 ^ 64 → IsValid (create n)
unfolding create
create-IsValid n h = record {
  block = length-replicate n 0;
  ordered = omega arith;
  inside = omega arith;
  small = h;
}

pub size-eq-sub : {b : SimpleBuffer} → IsValid b → size b ≡ b.write_pos - b.read_pos
size-eq-sub v = omega arith

pub length-content : {b : SimpleBuffer} → IsValid b → length (content b) ≡ size b
length-content {b} v = length-slice b.buffer b.read_pos (size b) (omega arith)

-- What a step may do to the block: keep it valid, with the same bytes in it.
pub record Keeps (b b' : SimpleBuffer) : Type 0 where
  pub valid : IsValid b'
  pub same : content b' ≡ content b
  pub sized : size b' ≡ size b

moved :
    (b : SimpleBuffer) (xs : List ℕ) (n : ℕ)
    → IsValid b
    → length xs ≡ n
    → size b ≤ n
    → n < 2 ^ 64
    → Keeps b (record {
      buffer = blit xs 0 (content b);
      buffer_size = n;
      read_pos = 0;
      write_pos = size b;
    })
moved b xs n v e le small = record {
  valid = record {
    block = length-blit xs 0 (content b) ∙ e;
    ordered = omega arith;
    inside = le;
    small = small;
  };
  same =
      slice-blit_front xs (content b) _ (omega (arith, length-content v))
        (omega (arith, length-content v));
  sized = omega arith;
}

compact-Keeps : (b : SimpleBuffer) → IsValid b → Keeps b (compact b)
unfolding compact
compact-Keeps b v = elim (Bool-cases (ltb 0 b.read_pos)) [
  | inl e ↦ rw e (moved b b.buffer b.buffer_size v v.block (omega arith) v.small)
  | inr e ↦ rw e (record { valid = v; same = refl; sized = refl })
]

grow-Keeps :
    (len : ℕ) (b : SimpleBuffer) → IsValid b → b.write_pos + len < 2 ^ 64 → Keeps b (grow len b)
unfolding grow
grow-Keeps len b v h =
    moved b (replicate _ 0) _ v (length-replicate _ 0) (omega arith) (omega arith)

grow_room :
    (len : ℕ) (b : SimpleBuffer)
    → IsValid b
    → b.write_pos + len < 2 ^ 64
    → (grow len b).write_pos + len ≤ (grow len b).buffer_size
unfolding grow
grow_room len b v h = omega arith

compact_room :
    (len : ℕ) (b : SimpleBuffer)
    → IsValid b
    → len ≤ add_size b.read_pos (sub_size b.buffer_size b.write_pos)
    → (compact b).write_pos + len ≤ (compact b).buffer_size
unfolding compact
compact_room len b v h = ground arith

unchanged : (b : SimpleBuffer) → IsValid b → Keeps b b
unchanged b v = record { valid = v; same = refl; sized = refl }

-- `ensureCapacity` keeps the bytes and leaves room for `len` more.
pub ensure_capacity-Keeps :
    (len : ℕ) (b : SimpleBuffer)
    → IsValid b
    → b.write_pos + len < 2 ^ 64
    → Keeps b (ensure_capacity len b)
      × ((ensure_capacity len b).write_pos + len ≤ (ensure_capacity len b).buffer_size)
unfolding ensure_capacity
ensure_capacity-Keeps len b v h = elim (Bool-cases (leb len available)) [
  | inl e ↦ rw e (unchanged b v, omega (arith, leb→le len available e))
  | inr e ↦ elim (Bool-cases (leb len (add_size b.read_pos available))) [
    | inl f ↦ rw (e, f) (compact-Keeps b v, compact_room len b v (leb→le len _ f))
    | inr f ↦ rw (e, f) (grow-Keeps len b v h, grow_room len b v h)
  ]
]
  where
    available : ℕ
    available = sub_size b.buffer_size b.write_pos

appended :
    (bytes : List ℕ) (b : SimpleBuffer)
    → IsValid b
    → b.write_pos + length bytes ≤ b.buffer_size
    → let b' = record b {
      buffer = blit b.buffer b.write_pos bytes;
      write_pos = add_size b.write_pos (length bytes);
    } in
      IsValid b' × (content b' ≡ content b ++ bytes)
appended bytes b v room = (
  record {
    block = length-blit b.buffer b.write_pos bytes ∙ v.block;
    ordered = omega arith;
    inside = omega arith;
    small = v.small;
  },
  ap₂ (λ w n. slice (blit b.buffer w bytes) b.read_pos n) {x = b.write_pos}
        {y = b.read_pos + (b.write_pos - b.read_pos)} (omega arith) (omega arith)
      ∙ slice-blit b.buffer bytes b.read_pos (b.write_pos - b.read_pos) (omega arith)
      ∙ ap (λ n. slice b.buffer b.read_pos n ++ bytes) {x = b.write_pos - b.read_pos} (omega arith),
)

-- `write` appends its bytes to the content and keeps the buffer valid, whichever of the three ways
-- room is made, as long as the write position and the length do not add up to 2 ^ 64.
pub write_lem :
    (bytes : List ℕ) (b : SimpleBuffer)
    → IsValid b
    → b.write_pos + length bytes < 2 ^ 64
    → IsValid (write bytes b) × (content (write bytes b) ≡ content b ++ bytes)
unfolding write
write_lem bytes b v h =
    let (k, room) = ensure_capacity-Keeps (length bytes) b v h in
    let (v', e) = appended bytes _ k.valid room in (v', e ∙ ap (λ xs. xs ++ bytes) k.same)

advanced :
    (len : ℕ) (b : SimpleBuffer)
    → IsValid b
    → len ≤ size b
    → IsValid (record b { read_pos = add_size b.read_pos len })
      × (content (record b { read_pos = add_size b.read_pos len }) ≡ drop len (content b))
advanced len b v h = (
  record { block = v.block; ordered = omega arith; inside = v.inside; small = v.small },
  sym (
      drop-take len (size b) (size (record b { read_pos = add_size b.read_pos len }))
        (drop b.read_pos b.buffer) (omega arith)
      ∙ ap (take _) (drop-drop len b.read_pos (add_size b.read_pos len) b.buffer (omega arith))),
)

reset :
    (b : SimpleBuffer)
    → IsValid b
    → b.write_pos ≡ b.read_pos
    → Keeps b (record b { read_pos = 0; write_pos = 0 })
reset b v e = record {
  valid = record { block = v.block; ordered = omega arith; inside = omega arith; small = v.small };
  same = ap (λ n. slice b.buffer b.read_pos n) {x = 0} {y = size b} (omega arith);
  sized = omega arith;
}

-- `advance` drops that many bytes from the front of the content and keeps the buffer valid,
-- whether it resets, compacts or only moves the read position.
pub advance_lem :
    (len : ℕ) (b : SimpleBuffer)
    → IsValid b
    → len ≤ size b
    → IsValid (advance len b) × (content (advance len b) ≡ drop len (content b))
unfolding advance
advance_lem len b v h =
    let (v', e) = advanced len b v h in
    elim (Bool-cases (no_data b')) [
      | inl p ↦ let k = reset b' v' ((==_iff _ _).0 p) in rw p (k.valid, k.same ∙ e)
      | inr p ↦ elim (Bool-cases (ltb (b'.buffer_size / 2) b'.read_pos)) [
        | inl q ↦ let k = compact-Keeps b' v' in rw (p, q) (k.valid, k.same ∙ e)
        | inr q ↦ rw (p, q) (v', e)
      ]
    ]
  where
    b' : SimpleBuffer
    b' = record b { read_pos = add_size b.read_pos len }
