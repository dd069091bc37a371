-- ===== src/Acceptor/Turns.antt =====
-- muduo/src/MainReactor.cpp: which connections are handed over, and to which sub reactors.
use fast_server.Prelude.{
  ℕ, zero, suc, ◌+◌, ◌%◌, ◌^◌, ◌<◌, ◌≡◌, ◌≢◌, refl, sym, ap, subst, ◌∙◌, arith, List, [], ◌∷◌, ◌++◌,
  append_assoc, append-nil, All, length, length-append, map, Option, none, some,
}
use fast_server.Acceptor
use fast_server.Acceptor.Sublists.{IsSublist, IsSublist-without, IsSublist-append}
use fast_server.Acceptor.{MainReactor, Acceptance, accepts, refuses, aborts}

abbrev pub concat : List (List ℕ × Acceptance) → List ℕ
concat [] = []
concat ((fds, answer) ∷ rounds) = fds ++ concat rounds

abbrev pub accepted_in : Acceptance → ℕ
accepted_in accepts = 1
accepted_in refuses = 0
accepted_in aborts = 0

abbrev pub aborted_in : Acceptance → ℕ
aborted_in accepts = 0
aborted_in refuses = 0
aborted_in aborts = 1

-- The numbers of the rounds in which `accept` takes a connection, and in which one is gone.
abbrev pub count_accepted : List (List ℕ × Acceptance) → ℕ
count_accepted [] = 0
count_accepted ((fds, answer) ∷ rounds) = accepted_in answer + count_accepted rounds

abbrev pub count_aborted : List (List ℕ × Acceptance) → ℕ
count_aborted [] = 0
count_aborted ((fds, answer) ∷ rounds) = aborted_in answer + count_aborted rounds

-- The sub reactors in turn, from the `k`-th turn on.
abbrev pub turns : ℕ → ℕ → ℕ → List ℕ
turns sub_reactors k zero = []
turns sub_reactors k (suc n) = k % sub_reactors ∷ turns sub_reactors (suc k) n

abbrev pub IsSome : List ℕ × Acceptance → Type 0
IsSome (fds, answer) = fds ≢ []

map-append : (f : ℕ × ℕ → ℕ) (xs ys : List (ℕ × ℕ)) → map f (xs ++ ys) ≡ map f xs ++ map f ys
map-append f [] ys = refl
map-append f (x ∷ xs) ys = ap (λ t. f x ∷ t) (map-append f xs ys)

abbrev pub descriptors : List (ℕ × ℕ) → List ℕ
descriptors handed = map (λ (h : ℕ × ℕ). h.1) handed

abbrev pub receivers : List (ℕ × ℕ) → List ℕ
receivers handed = map (λ (h : ℕ × ℕ). h.0) handed

size_of_idx-small : (i : ℕ) → i < 2 ^ 31 → Acceptor.size_of_idx i ≡ i
unfolding Acceptor.size_of_idx
size_of_idx-small i h = ground arith

-- The connections that are known to a reactor, those handed over first.
abbrev known : MainReactor → List ℕ
known r = descriptors r.handed ++ r.waiting

-- What a round does to a reactor.
record IsRound (n : ℕ) (fds : List ℕ) (answer : Acceptance) (r s : MainReactor) : Type 0 where
  orders : (zs : List ℕ) → IsSublist (known r ++ fds) zs → IsSublist (known s) zs
  counts : length (known s) + aborted_in answer ≡ length (known r ++ fds)
  receives : receivers s.handed ≡ receivers r.handed ++ turns n r.next_sub_idx (accepted_in answer)
  counted : s.next_sub_idx ≡ r.next_sub_idx + accepted_in answer

length-without : (xs : List ℕ) (y : ℕ) (ys : List ℕ) → length (xs ++ ys) + 1 ≡ length (xs ++ y ∷ ys)
length-without [] y ys = omega arith
length-without (x ∷ xs) y ys = omega (arith, length-without xs y ys)

accept_first-IsRound :
    (n fd : ℕ) (rest : List ℕ) (answer : Acceptance) (r : MainReactor)
    → 0 < n
    → r.next_sub_idx < 2 ^ 31
    → r.waiting ≡ fd ∷ rest
    → (s : MainReactor) × (Acceptor.accept_first n answer (fd ∷ rest) r ≡ some s)
      × IsRound n [] answer r s
unfolding Acceptor.accept_first
accept_first-IsRound n fd rest refuses r h b w = (
  r,
  refl,
  record {
    orders = λ zs. subst (λ t. IsSublist t zs) (append-nil (known r));
    counts = omega (arith, ap length (append-nil (known r)));
    receives = sym (append-nil (receivers r.handed));
    counted = omega arith;
  },
)
accept_first-IsRound n fd rest aborts r h b w = (
  record r { waiting = rest },
  refl,
  record {
    orders = λ zs k. IsSublist-without (descriptors r.handed) fd rest zs (
        subst (λ t. IsSublist t zs) (append-nil (known r) ∙ ap (λ t. descriptors r.handed ++ t) w)
          k);
    counts =
        length-without (descriptors r.handed) fd rest
        ∙ sym (ap length (append-nil (known r) ∙ ap (λ t. descriptors r.handed ++ t) w));
    receives = sym (append-nil (receivers r.handed));
    counted = omega arith;
  },
)
accept_first-IsRound n fd rest accepts r h b w =
    let turn = Acceptor.size_of_idx r.next_sub_idx % n in
    let s : MainReactor = record {
      waiting = rest;
      next_sub_idx = (r.next_sub_idx + 1) % 2 ^ 32;
      handed = r.handed ++ (turn, fd) ∷ [];
    } in
    let same : known r ++ [] ≡ known s =
      append-nil (known r)
      ∙ ap (λ t. descriptors r.handed ++ t) w
      ∙ sym (append_assoc (descriptors r.handed) (fd ∷ []) rest)
      ∙ ap (λ t. t ++ rest) (sym (map-append (λ h. h.1) r.handed ((turn, fd) ∷ []))) in
    (
      s,
      ground (arith, h),
      record {
        orders = λ zs. subst (λ t. IsSublist t zs) same;
        counts = omega (arith, ap length same);
        receives =
            map-append (λ h. h.0) r.handed ((turn, fd) ∷ [])
            ∙ ap (λ i. receivers r.handed ++ i % n ∷ []) (size_of_idx-small r.next_sub_idx b);
        counted = omega arith;
      },
    )

first_waits :
    (xs : List ℕ) (y : ℕ) (ys : List ℕ) → (z : ℕ) × (zs : List ℕ) × (xs ++ y ∷ ys ≡ z ∷ zs)
first_waits [] y ys = (y, ys, refl)
first_waits (x ∷ xs) y ys = (x, xs ++ y ∷ ys, refl)

loop_round-IsRound :
    (n : ℕ) (fds : List ℕ) (answer : Acceptance) (r : MainReactor)
    → 0 < n
    → fds ≢ []
    → r.next_sub_idx < 2 ^ 31
    → (s : MainReactor) × (Acceptor.loop_round n (fds, answer) r ≡ some s)
      × IsRound n fds answer r s
unfolding Acceptor.loop_round Acceptor.handle_accept
loop_round-IsRound n [] answer r h k b = absurd (k refl)
loop_round-IsRound n (fd ∷ fds) answer r h k b =
    let r' = record r { waiting = r.waiting ++ fd ∷ fds } in
    let (z, zs, w) = first_waits r.waiting fd fds in
    let (s, ran, one) = accept_first-IsRound n z zs answer r' h b w in
    let same : known r ++ fd ∷ fds ≡ known r' ++ [] =
      append_assoc (descriptors r.handed) r.waiting (fd ∷ fds) ∙ sym (append-nil (known r')) in
    (
      s,
      ap (λ t. Acceptor.accept_first n answer t r') w ∙ ran,
      record {
        orders = λ ys k. one.orders ys (subst (λ t. IsSublist t ys) same k);
        counts = one.counts ∙ sym (ap length same);
        receives = one.receives;
        counted = one.counted;
      },
    )

turns-append : (n k i j m t : ℕ) → m ≡ k + i → t ≡ i + j → turns n k i ++ turns n m j ≡ turns n k t
turns-append n k zero j m t e f =
    ap (λ i. turns n i j) {y = k} (omega (arith, e)) ∙ ap (turns n k) {x = j} (omega (arith, f))
turns-append n k (suc i) j m zero e f = absurd (omega (arith, f))
turns-append n k (suc i) j m (suc t) e f =
    ap (λ r. k % n ∷ r) (turns-append n (suc k) i j m t (omega (arith, e)) (omega (arith, f)))

loop-IsRound :
    (n : ℕ) (rounds : List (List ℕ × Acceptance)) (r : MainReactor)
    → 0 < n
    → All IsSome rounds
    → r.next_sub_idx + count_accepted rounds < 2 ^ 31
    → (s : MainReactor) × (Acceptor.loop n rounds r ≡ some s)
      × ((zs : List ℕ) → IsSublist (known r) zs → IsSublist (known s) (zs ++ concat rounds))
      × (length (known s) + count_aborted rounds ≡ length (known r) + length (concat rounds))
      × (receivers s.handed ≡ receivers r.handed ++ turns n r.next_sub_idx (count_accepted rounds))
unfolding Acceptor.loop
loop-IsRound n [] r h a b = (
  r,
  refl,
  (λ zs k. subst (IsSublist (known r)) (sym (append-nil zs)) k),
  omega arith,
  sym (append-nil (receivers r.handed)),
)
loop-IsRound n ((fds, answer) ∷ rounds) r h (k, a) b =
    let (m, ran, one) = loop_round-IsRound n fds answer r h k (omega arith) in
    let (s, went, orders, counts, receives) =
      loop-IsRound n rounds m h a (omega (arith, one.counted)) in
    let follow : Option MainReactor → Option MainReactor =
      λ o. elim o [ none ↦ none | some t ↦ Acceptor.loop n rounds t ] in
    (
      s,
      ap follow ran ∙ went,
      (λ zs q.
          subst (IsSublist (known s)) (append_assoc zs fds (concat rounds))
            (orders (zs ++ fds) (one.orders (zs ++ fds) (IsSublist-append (known r) zs fds q)))),
      omega (
        arith,
        counts,
        one.counts,
        length-append (known r) fds,
        length-append fds (concat rounds),
      ),
      receives
          ∙ ap (λ t. t ++ turns n m.next_sub_idx (count_accepted rounds)) one.receives
          ∙ append_assoc (receivers r.handed) (turns n r.next_sub_idx (accepted_in answer))
              (turns n m.next_sub_idx (count_accepted rounds))
          ∙ ap (λ t. receivers r.handed ++ t)
              (turns-append n r.next_sub_idx (accepted_in answer) (count_accepted rounds)
                m.next_sub_idx (accepted_in answer + count_accepted rounds) one.counted refl),
    )

-- With at least one sub reactor, from a state in which no connection waits and `next_sub_idx_` is any
-- number for which it stays below 2 ^ 31, over rounds of the loop in each of which connections arrive
-- and `accept` takes the first one, leaves it, or loses it: as many connections are handed over as
-- `accept` took, to the sub reactors in turn. Those handed over and then those that still wait are
-- in the order in which they came, and only those that `accept` lost are missing.
pub loop-turns :
    (sub_reactors first : ℕ) (rounds : List (List ℕ × Acceptance))
    → 0 < sub_reactors
    → All IsSome rounds
    → first + count_accepted rounds < 2 ^ 31
    → (s : MainReactor) × (Acceptor.loop sub_reactors rounds
          (record { waiting = []; next_sub_idx = first; handed = [] })
        ≡ some s)
      × (receivers s.handed ≡ turns sub_reactors first (count_accepted rounds))
      × IsSublist (descriptors s.handed ++ s.waiting) (concat rounds)
      × (length (descriptors s.handed ++ s.waiting) + count_aborted rounds ≡ length (concat rounds))
unfolding IsSublist
loop-turns sub_reactors first rounds h a b =
    let start : MainReactor = record { waiting = []; next_sub_idx = first; handed = [] } in
    let (s, ran, orders, counts, receives) = loop-IsRound sub_reactors rounds start h a b in
    (s, ran, receives, orders [] tt, omega (arith, counts))
