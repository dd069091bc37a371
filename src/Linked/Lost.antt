-- ===== src/Linked/Lost.antt =====
-- ihs/include/kk.hpp: two producers in the second `MPSCQueue` at once.
use fast_server.Prelude.{ℕ, ◌≡◌, ◌≢◌, true, false, List, [], ◌∷◌, ◌++◌, refl, ap, ◌∙◌, arith, ◌==◌}
use fast_server.Producers.{put}
use fast_server.Linked
use fast_server.Linked.{
  MpscQueue, Enqueuer, Dequeuer, Threads, Turn, idle, resting, calls_enqueue, enqueues,
  enqueue_returned, called, at_tail, at_next, with_room, written, again,
}

abbrev before : {A : Type 0} → MpscQueue A → Threads A
before q = record { queue = q; enqueuers = λ i. idle; dequeuer = resting }

module _ {A : Type 0} where
  take_turns-append :
      (xs ys : List (Turn A)) (s : Threads A)
      → Linked.take_turns (xs ++ ys) s ≡ Linked.take_turns ys (Linked.take_turns xs s)
  unfolding Linked.take_turns
  take_turns-append [] ys s = refl
  take_turns-append (x ∷ xs) ys s = take_turns-append xs ys (Linked.take_turn x s)

  -- A thread calls `enqueue`, finds room and comes to the write of its item.
  abbrev finding : ℕ → A → List (Turn A)
  finding i x = calls_enqueue i x ∷ enqueues i ∷ enqueues i ∷ enqueues i ∷ []

  abbrev found : ℕ → A → MpscQueue A → (ℕ → Enqueuer A) → ℕ → Enqueuer A
  found i x q f =
      put (put (put (put f i (called x)) i (at_tail x q.tail)) i (at_next x q.tail (q.next q.tail)))
        i (with_room x q.tail (q.next q.tail))

  finds_first :
      (q : MpscQueue A) (x : A)
      → q.next q.tail ≢ q.head
      → Linked.take_turns (finding 0 x) (before q)
        ≡ record { queue = q; enqueuers = found 0 x q (λ i. idle); dequeuer = resting }
  unfolding Linked.take_turns Linked.take_turn Linked.begin_enqueue Linked.enqueue_step put
  finds_first q x room =
      let open_room : (q.next q.tail == q.head) ≡ false = ground arith in rw open_room refl

  finds_second :
      (q : MpscQueue A) (x y : A)
      → q.next q.tail ≢ q.head
      → Linked.take_turns
          (finding 1 y)
          (record { queue = q; enqueuers = found 0 x q (λ i. idle); dequeuer = resting })
        ≡ record {
          queue = q;
          enqueuers = found 1 y q (found 0 x q (λ i. idle));
          dequeuer = resting;
        }
  unfolding Linked.take_turns Linked.take_turn Linked.begin_enqueue Linked.enqueue_step put
  finds_second q x y room =
      let open_room : (q.next q.tail == q.head) ≡ false = ground arith in rw open_room refl

  abbrev overwritten : MpscQueue A → A → A → MpscQueue A
  overwritten q x y = record q { node_data = put (put q.node_data q.tail x) q.tail y }

  abbrev both_written : MpscQueue A → A → A → ℕ → Enqueuer A
  both_written q x y =
      put (put (found 1 y q (found 0 x q (λ i. idle))) 0 (written x q.tail (q.next q.tail))) 1
        (written y q.tail (q.next q.tail))

  both_write :
      (q : MpscQueue A) (x y : A)
      → Linked.take_turns (enqueues 0 ∷ enqueues 1 ∷ []) (record {
        queue = q;
        enqueuers = found 1 y q (found 0 x q (λ i. idle));
        dequeuer = resting;
      })
        ≡ record { queue = overwritten q x y; enqueuers = both_written q x y; dequeuer = resting }
  unfolding Linked.take_turns Linked.take_turn Linked.enqueue_step put
  both_write q x y = refl

  first_returns :
      (q : MpscQueue A) (x y : A)
      → Linked.take_turns
          (enqueues 0 ∷ [])
          (record { queue = overwritten q x y; enqueuers = both_written q x y; dequeuer = resting })
        ≡ record {
          queue = record (overwritten q x y) { tail = q.next q.tail };
          enqueuers = put (both_written q x y) 0 (enqueue_returned true);
          dequeuer = resting;
        }
  unfolding Linked.take_turns Linked.take_turn Linked.enqueue_step put
  first_returns q x y = let same : (q.tail == q.tail) ≡ true = ground arith in rw same refl

  second_retries :
      (q : MpscQueue A) (x y : A)
      → q.next q.tail ≢ q.tail
      → Linked.take_turns (enqueues 1 ∷ enqueues 1 ∷ []) (record {
        queue = record (overwritten q x y) { tail = q.next q.tail };
        enqueuers = put (both_written q x y) 0 (enqueue_returned true);
        dequeuer = resting;
      })
        ≡ record {
          queue = record (overwritten q x y) { tail = q.next q.tail };
          enqueuers =
              put
                (put
                  (put (both_written q x y) 0 (enqueue_returned true))
                  1
                  (again y (q.next q.tail)))
                1
                (written y (q.next q.tail) (q.next (q.next q.tail)));
          dequeuer = resting;
        }
  unfolding Linked.take_turns Linked.take_turn Linked.enqueue_step put
  second_retries q x y more =
      let other : (q.next q.tail == q.tail) ≡ false = ground arith in rw other refl

  abbrev lost : MpscQueue A → A → A → Threads A
  lost q x y = record {
    queue = record (overwritten q x y) { tail = q.next (q.next q.tail) };
    enqueuers =
        put
          (put
            (put (put (both_written q x y) 0 (enqueue_returned true)) 1 (again y (q.next q.tail))) 1
            (written y (q.next q.tail) (q.next (q.next q.tail))))
          1 (enqueue_returned true);
    dequeuer = resting;
  }

  second_returns :
      (q : MpscQueue A) (x y : A)
      → Linked.take_turns (enqueues 1 ∷ []) (record {
        queue = record (overwritten q x y) { tail = q.next q.tail };
        enqueuers =
            put
              (put (put (both_written q x y) 0 (enqueue_returned true)) 1 (again y (q.next q.tail)))
              1
              (written y (q.next q.tail) (q.next (q.next q.tail)));
        dequeuer = resting;
      })
        ≡ lost q x y
  unfolding Linked.take_turns Linked.take_turn Linked.enqueue_step put
  second_returns q x y =
      let same : (q.next q.tail == q.next q.tail) ≡ true = ground arith in rw same refl

  -- Both producers find the same last node and write their items into it, the second one later; then
  -- both exchanges succeed, the second one's at its second try.
  abbrev pub race : A → A → List (Turn A)
  race x y =
      finding 0 x
      ++ (finding 1 y
          ++ ((enqueues 0 ∷ enqueues 1 ∷ [])
              ++ ((enqueues 0 ∷ []) ++ ((enqueues 1 ∷ enqueues 1 ∷ []) ++ (enqueues 1 ∷ [])))))

  and_then :
      (xs ys : List (Turn A)) (s t u : Threads A)
      → Linked.take_turns xs s ≡ t
      → Linked.take_turns ys t ≡ u
      → Linked.take_turns (xs ++ ys) s ≡ u
  and_then xs ys s t u e f = take_turns-append xs ys s ∙ ap (Linked.take_turns ys) e ∙ f

  race-lost :
      (q : MpscQueue A) (x y : A)
      → q.next q.tail ≢ q.head
      → q.next q.tail ≢ q.tail
      → Linked.take_turns (race x y) (before q) ≡ lost q x y
  race-lost q x y room more = and_then (finding 0 x) _ (before q) _ _ (finds_first q x room) (
      and_then (finding 1 y) _ _ _ _ (finds_second q x y room) (
        and_then (enqueues 0 ∷ enqueues 1 ∷ []) _ _ _ _ (both_write q x y) (
          and_then (enqueues 0 ∷ []) _ _ _ _ (first_returns q x y) (
            and_then (enqueues 1 ∷ enqueues 1 ∷ []) _ _ _ _ (second_retries q x y more)
              (second_returns q x y)))))

-- Where the queue has room for an item and its last node does not follow itself, two producers that
-- take their steps in a certain order both get `true` from `enqueue` and the tail moves on by two
-- nodes, yet the first of the two holds the second producer's item and no other node is written: the
-- first producer's item is lost.
pub enqueue_lost :
    {A : Type 0} (q : MpscQueue A) (x y : A)
    → q.next q.tail ≢ q.head
    → q.next q.tail ≢ q.tail
    → let s =
        Linked.take_turns
          (race x y)
          (record { queue = q; enqueuers = λ i. idle; dequeuer = resting }) in
      (s.enqueuers 0 ≡ enqueue_returned true)
      × (s.enqueuers 1 ≡ enqueue_returned true)
      × (s.queue.tail ≡ q.next (q.next q.tail))
      × (s.queue.node_data q.tail ≡ y)
      × ((i : ℕ) → i ≢ q.tail → s.queue.node_data i ≡ q.node_data i)
unfolding put
enqueue_lost q x y room more =
    let end = race-lost q x y room more in
    (
      ap (λ s. s.enqueuers 0) end,
      ap (λ s. s.enqueuers 1) end,
      ap (λ s. s.queue.tail) end,
      ap (λ s. s.queue.node_data q.tail) end ∙ ground arith,
      λ i away. ap (λ s. s.queue.node_data i) end ∙ ground arith,
    )
