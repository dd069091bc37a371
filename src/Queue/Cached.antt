-- ===== src/Queue/Cached.antt =====
-- ihs/include/kk.hpp: the `SPSCQueue` with masked indices whose producer keeps a copy of `head_`,
-- which may be old, and reads `head_` again only where the copy says that the queue is full. As one
-- caller uses it.
use Prim.Native.Nat.{bit_and}
use fast_server.Prelude.{
  ℕ, ◌+◌, ◌-◌, ◌<◌, ◌^◌, ◌≡◌, refl, sym, ap, ap₂, ◌∙◌, subst, Bool, true, false, List, [], ◌∷◌,
  Option, none, some, arith, get_or, set, leb, ◌==◌, if◌then◌else◌, add_size, sub_size,
}
use fast_server.Queue.Spec.{Op, push, pop, Reply, succeeded}
use fast_server.Queue.Spec
use fast_server.Queue.Modulo.{Ring, modulo_refines_queue}
use fast_server.Queue.Modulo
use fast_server.Queue.Masked.{masked, enqueue_modulo, dequeue_modulo}
use fast_server.Queue.Masked

pub record Cached (A : Type 0) : Type 0 where
  pub ring : Ring A
  pub cached_head : ℕ

module _ {A : Type 0} (d : A) (capacity : ℕ) where
  -- The construction in place and the store of `tail_`.
  abbrev pub place : A → ℕ → Cached A → Cached A
  place item next_tail c =
      let r = c.ring in
      record c { ring = record r { buffer = set r.buffer r.tail item; tail = next_tail } }

  unfoldable pub enqueue : A → Cached A → Bool × Cached A
  enqueue item c =
      let next_tail = bit_and (add_size c.ring.tail 1) (capacity - 1) in
      let c' = record c { cached_head = c.ring.head } in
      if next_tail == c.cached_head
      then if next_tail == c'.cached_head then (false, c') else (true, place item next_tail c')
      else (true, place item next_tail c)

  unfoldable pub dequeue : Cached A → Option A × Cached A
  dequeue c =
      let r = c.ring in
      if r.head == r.tail then (none, c) else (
        some (get_or r.buffer r.head d),
        record c { ring = record r { head = bit_and (add_size r.head 1) (capacity - 1) } },
      )

  unfoldable pub size : Cached A → ℕ
  size c =
      let r = c.ring in
      if leb r.head r.tail
      then sub_size r.tail r.head
      else add_size (sub_size capacity r.head) r.tail

  unfoldable pub run : Cached A → List (Op A) → List (Reply A)
  run c [] = []
  run c (push x ∷ os) = let (ok, c') = enqueue x c in (ok, none) ∷ run c' os
  run c (pop ∷ os) = let (out, c') = dequeue c in (succeeded out, out) ∷ run c' os

  abbrev pub distance : ℕ → ℕ → ℕ
  distance a b = if leb a b then b - a else capacity - a + b

  -- The slots from the old head to the head and the elements do not overlap.
  pub record IsCached (c : Cached A) : Type 0 where
    pub ring : Modulo.IsValid d capacity c.ring
    pub cached_in : c.cached_head < capacity
    pub behind : distance c.cached_head c.ring.head + distance c.ring.head c.ring.tail < capacity

  module _ (k : ℕ) (e : capacity ≡ 2 ^ k) where
    push_ring :
        (x : A) (c : Cached A)
        → IsCached c
        → ((enqueue x c).0, (enqueue x c).1.ring) ≡ Modulo.try_push d capacity x c.ring
    unfolding enqueue Modulo.try_push
    push_ring x c v =
        let r = c.ring in
        let fact = Modulo.next_index d capacity r.tail v.ring.tail_in v.ring.small in
        let mask = masked d capacity k (add_size r.tail 1) e in
        ground (arith, fact, mask, v.ring.head_in, v.ring.tail_in, v.cached_in, v.behind)

    pop_ring :
        (c : Cached A) → ((dequeue c).0, (dequeue c).1.ring) ≡ Modulo.try_pop d capacity c.ring
    unfolding dequeue Masked.dequeue
    pop_ring c = ground (arith, dequeue_modulo d capacity k c.ring e)

    enqueue-IsCached : (x : A) (c : Cached A) → IsCached c → IsCached (enqueue x c).1
    unfolding enqueue
    enqueue-IsCached x c v =
        let r = c.ring in
        let fact = Modulo.next_index d capacity r.tail v.ring.tail_in v.ring.small in
        let mask = masked d capacity k (add_size r.tail 1) e in
        record {
          ring =
              subst (λ p. Modulo.IsValid d capacity p.1) (sym (push_ring x c v))
                (Modulo.try_push_refines d capacity x r v.ring).0;
          cached_in = ground (arith, v.ring.head_in, v.cached_in);
          behind =
              ground (arith, fact, mask, v.ring.head_in, v.ring.tail_in, v.cached_in, v.behind);
        }

    dequeue-IsCached : (c : Cached A) → IsCached c → IsCached (dequeue c).1
    unfolding dequeue
    dequeue-IsCached c v =
        let r = c.ring in
        let fact = Modulo.next_index d capacity r.head v.ring.head_in v.ring.small in
        let mask = masked d capacity k (add_size r.head 1) e in
        record {
          ring =
              subst (λ p. Modulo.IsValid d capacity p.1) (sym (pop_ring c))
                (Modulo.try_pop_refines d capacity r v.ring).0;
          cached_in = ground (arith, v.cached_in);
          behind =
              ground (arith, fact, mask, v.ring.head_in, v.ring.tail_in, v.cached_in, v.behind);
        }

    cached_run :
        (c : Cached A) (os : List (Op A)) → IsCached c → run c os ≡ Modulo.run d capacity c.ring os
    unfolding run Modulo.run
    cached_run c [] v = refl
    cached_run c (push x ∷ os) v =
        ap₂ (λ ok rest. (ok, none) ∷ rest) (ap (λ p. p.0) (push_ring x c v))
          (cached_run (enqueue x c).1 os (enqueue-IsCached x c v)
            ∙ ap (λ p. Modulo.run d capacity p.1 os) (push_ring x c v))
    cached_run c (pop ∷ os) v =
        ap₂ (λ out rest. (succeeded out, out) ∷ rest) (ap (λ p. p.0) (pop_ring c))
          (cached_run (dequeue c).1 os (dequeue-IsCached c v)
            ∙ ap (λ p. Modulo.run d capacity p.1 os) (pop_ring c))

    -- With a capacity of `2 ^ k` any calls of `enqueue` and `dequeue` on a valid ring, whose old head
    -- lies behind the head and in front of no element, return what a first-in first-out queue of
    -- its elements returns that is full at one element less than the capacity.
    cached_refines_queue :
        (c : Cached A) (os : List (Op A))
        → IsCached c
        → run c os ≡ Spec.run (capacity - 1) (Modulo.contents d capacity c.ring) os
    cached_refines_queue c os v =
        cached_run c os v ∙ modulo_refines_queue d capacity c.ring os v.ring
