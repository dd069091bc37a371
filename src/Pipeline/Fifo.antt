-- ===== src/Pipeline/Fifo.antt =====
-- ihs/src/system.cpp: whole schedules with one parser.
use native.Mathlib.Nat.{mod-eq_of_lt}
use fast_server.Prelude.{
  ℕ, zero, suc, ◌+◌, ◌-◌, ◌*◌, ◌%◌, ◌≤◌, ◌<◌, ◌≡◌, refl, sym, subst, List, [], ◌∷◌, ◌++◌, arith,
  All, replicate,
}
use fast_server.Pipeline.{
  Popping, polling, comparing, reading, storing, System, new_system, Action, receives, parses,
  parser_act, system_step, run_system,
}
use fast_server.Pipeline.Window.{first_items, IsFilled, ReceiverKnows, ParserKnows, Counts, IsSafe}
use fast_server.Pipeline.Single.{left, receiver_act-IsSafe, parser_act-IsSafe}

-- A step of the receiver or of the first parser.
unfoldable pub IsFirst : Action → Type 0
IsFirst receives = Unit
IsFirst (parses i) = i ≡ 0

nothing_left :
    (slots p q : ℕ) (s : System) (w : Popping)
    → Counts slots p q s
    → ParserKnows slots p q s.ring w
    → left w (p - q) ≤ 0
    → q ≡ p
unfolding Counts ParserKnows left
nothing_left slots p q s polling (a, b, c, d, f) k l = omega arith
nothing_left slots p q s (comparing h) (a, b, c, d, f) k l = omega arith
nothing_left slots p q s (reading h) (a, b, c, d, f) (x, y, z) l = omega arith
nothing_left slots p q s (storing h i) (a, b, c, d, f) (x, y, z, u) l = omega arith

module _ (slots : ℕ) (moved : List ℕ → List ℕ) where
  system_step-IsSafe :
      (a : Action) (p q : ℕ) (s : System)
      → IsFirst a
      → IsSafe slots p q s
      → (n : ℕ) × (m : ℕ) × IsSafe slots n m (system_step slots moved a s)
  unfolding IsFirst system_step IsSafe
  system_step-IsSafe receives p q s h (c, r, k) =
      let next = receiver_act-IsSafe slots moved p q s.receiver s refl c r k in (next.0, q, next.1)
  system_step-IsSafe (parses i) p q s h (c, r, k) =
      let next = parser_act-IsSafe slots moved p q (s.parsers 0) s c r k in
      (
        p,
        next.0,
        subst (λ j. IsSafe slots p next.0 (parser_act slots moved j (s.parsers j) s)) (sym h)
            next.1,
      )

  run_system-IsSafe :
      (schedule : List Action) (p q : ℕ) (s : System)
      → All IsFirst schedule
      → IsSafe slots p q s
      → (n : ℕ) × (m : ℕ) × IsSafe slots n m (run_system slots moved schedule s)
  unfolding run_system
  run_system-IsSafe [] p q s h k = (p, q, k)
  run_system-IsSafe (a ∷ schedule) p q s (h, more) k =
      let next = system_step-IsSafe a p q s h k in
      run_system-IsSafe schedule next.0 next.1 (system_step slots moved a s) more next.2

  new_system-IsSafe : 0 < slots → IsSafe slots 0 0 new_system
  unfolding IsSafe Counts ReceiverKnows ParserKnows IsFilled new_system first_items
  new_system-IsSafe h = (
    (sym (mod-eq_of_lt h), sym (mod-eq_of_lt h), omega arith, omega arith, refl),
    omega arith,
    λ k a b. absurd (omega arith),
  )

  -- With one parser, and a queue of at least one slot, the data that was parsed is, after any schedule
  -- of the two threads, what the receiver made first, in its order: nothing is lost, repeated or
  -- changed, and the queue holds fewer items than it has slots.
  pub run_system_fifo :
      (schedule : List Action)
      → 0 < slots
      → All IsFirst schedule
      → (p : ℕ) × (q : ℕ) × ((run_system slots moved schedule new_system).parsed ≡ first_items q)
        × ((run_system slots moved schedule new_system).head ≡ q % slots)
        × ((run_system slots moved schedule new_system).tail ≡ p % slots)
        × (q ≤ p)
        × (p < q + slots)
  unfolding IsSafe Counts
  run_system_fifo schedule h k =
      let (p, q, ((a, b, c, d, e), r, w)) =
        run_system-IsSafe schedule 0 0 new_system k (new_system-IsSafe h) in
      (p, q, e, a, b, c, d)

  -- The parser alone.
  drains :
      (fuel p q : ℕ) (s : System)
      → IsSafe slots p q s
      → left (s.parsers 0) (p - q) ≤ fuel
      → IsSafe slots p p (run_system slots moved (replicate fuel (parses 0)) s)
  unfolding run_system system_step IsSafe
  drains zero p q s (c, r, k) l =
      subst (λ n. IsSafe slots p n s) (nothing_left slots p q s (s.parsers 0) c k l) (c, r, k)
  drains (suc fuel) p q s (c, r, k) l =
      let next = parser_act-IsSafe slots moved p q (s.parsers 0) s c r k in
      drains fuel p next.0 (parser_act slots moved 0 (s.parsers 0) s) next.1 (omega (arith, next.2))

  left-le : (p q : ℕ) (s : System) (w : Popping) → Counts slots p q s → left w (p - q) ≤ 4 * slots
  unfolding Counts left
  left-le p q s polling (a, b, c, d, f) = omega arith
  left-le p q s (comparing h) (a, b, c, d, f) = omega arith
  left-le p q s (reading h) (a, b, c, d, f) = omega arith
  left-le p q s (storing h i) (a, b, c, d, f) = omega arith

  run_system-append :
      (schedule more : List Action) (s : System)
      → run_system slots moved (schedule ++ more) s
        ≡ run_system slots moved more (run_system slots moved schedule s)
  unfolding run_system
  run_system-append [] more s = refl
  run_system-append (a ∷ schedule) more s =
      run_system-append schedule more (system_step slots moved a s)

  -- With one parser, and a queue of at least one slot: four steps of the parser for each slot, after
  -- any schedule of the two threads, empty the queue, and then all that the receiver has pushed was
  -- parsed.
  pub run_system_drains :
      (schedule : List Action)
      → 0 < slots
      → All IsFirst schedule
      → (p : ℕ) × ((run_system slots moved schedule new_system).tail ≡ p % slots)
        × ((run_system slots moved (schedule ++ replicate (4 * slots) (parses 0)) new_system).head
            ≡ p % slots)
        × ((run_system slots moved (schedule ++ replicate (4 * slots) (parses 0)) new_system).tail
            ≡ p % slots)
        × ((run_system slots moved (schedule ++ replicate (4 * slots) (parses 0)) new_system).parsed
            ≡ first_items p)
  unfolding IsSafe Counts
  run_system_drains schedule h k =
      let (p, q, safe) = run_system-IsSafe schedule 0 0 new_system k (new_system-IsSafe h) in
      let s = run_system slots moved schedule new_system in
      let e = sym (run_system-append schedule (replicate (4 * slots) (parses 0)) new_system) in
      let end =
        subst (IsSafe slots p p) e
          (drains (4 * slots) p q s safe (left-le p q s (s.parsers 0) safe.0)) in
      (p, safe.0.1, end.0.0, end.0.1, end.0.4)
