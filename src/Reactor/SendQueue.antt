-- ===== src/Reactor/SendQueue.antt =====
-- muduo/src/SubReactor.cpp: `processSendQueue` hands each queued connection's bytes to the kernel.
use fast_server.Prelude.{
  ℕ, ◌+◌, ◌≡◌, ◌≢◌, refl, sym, ap, ◌∙◌, subst, List, [], ◌∷◌, ◌++◌, append_assoc, Option, none,
  some, arith, ◌==◌, if◌then◌else◌, Bool-cases, Option-cases, some-injective, inl, inr, reverse,
}
use fast_server.Buffer.{content}
use fast_server.Buffer.Content.{IsValid}
use fast_server.Connection.{WriteResult, Connection}
use fast_server.Connection.Stream.{TakesNoMore, send_buffered_data_lem}
use fast_server.Reactor.{
  Entry, SubReactor, Written, find, assign, handle_write, write_all, process_send_queue,
}

find-assign_self :
    (fd : ℕ) (c : Option Connection) (es : List Entry) → find fd (assign fd c es) ≡ some c
unfolding find assign
find-assign_self fd c [] = ground arith
find-assign_self fd c (e ∷ es) = ground (arith, find-assign_self fd c es)

find-assign_ne :
    (fd g : ℕ) (c : Option Connection) (es : List Entry)
    → fd ≢ g
    → find g (assign fd c es) ≡ find g es
unfolding find assign
find-assign_ne fd g c [] h = ground (arith, h)
find-assign_ne fd g c (e ∷ es) h = ground (arith, h, find-assign_ne fd g c es h)

abbrev bytes_of : Option (Option Connection) → List ℕ
bytes_of none = []
bytes_of (some none) = []
bytes_of (some (some c)) = content c.send_buffer

-- The bytes that wait for a descriptor's socket.
abbrev pub pending : ℕ → SubReactor → List ℕ
pending fd s = bytes_of (find fd s.connection_map)

-- What the writes handed to a descriptor's socket.
abbrev pub taken : ℕ → List Written → List ℕ
taken fd [] = []
taken fd (w ∷ ws) = if w.fd == fd then w.bytes ++ taken fd ws else taken fd ws

-- No entry is a null pointer, and every buffer is valid.
pub record IsLive (s : SubReactor) : Type 0 where
  pub present : (fd : ℕ) → find fd s.connection_map ≢ some none
  pub valid :
      (fd : ℕ) (c : Connection) → find fd s.connection_map ≡ some (some c) → IsValid c.send_buffer

-- An update keeps the other descriptors' bytes, and a valid buffer keeps the map live.
assign-IsLive :
    (fd : ℕ) (c : Connection) (s : SubReactor)
    → IsLive s
    → IsValid c.send_buffer
    → IsLive (record s { connection_map = assign fd (some c) s.connection_map })
assign-IsLive fd c s v good =
    let es = s.connection_map in
    let self = find-assign_self fd (some c) es in
    record {
      present = λ g p. elim (Bool-cases (fd == g)) [
        | inl q ↦
            let same : some (some c) ≡ some none =
              sym self ∙ ap (λ t. find t (assign fd (some c) es)) (ground (arith, q)) ∙ p in
            ground (arith, same)
        | inr q ↦ v.present g (sym (find-assign_ne fd g (some c) es (ground (arith, q))) ∙ p)
      ];
      valid = λ g d p. elim (Bool-cases (fd == g)) [
        | inl q ↦
            let same : some (some c) ≡ some (some d) =
              sym self ∙ ap (λ t. find t (assign fd (some c) es)) (ground (arith, q)) ∙ p in
            subst (λ x. IsValid x.send_buffer)
              (some-injective c d (some-injective (some c) (some d) same)) good
        | inr q ↦ v.valid g d (sym (find-assign_ne fd g (some c) es (ground (arith, q))) ∙ p)
      ];
    }

record Handled (fd : ℕ) (s : SubReactor) (out : List ℕ) (s' : SubReactor) : Type 0 where
  live : IsLive s'
  own : out ++ pending fd s' ≡ pending fd s
  others : (g : ℕ) → fd ≢ g → pending g s' ≡ pending g s

handle_write_lem :
    (kernel : ℕ → List ℕ → WriteResult) (fd : ℕ) (s : SubReactor)
    → TakesNoMore kernel
    → IsLive s
    → (out : List ℕ) × (s' : SubReactor) × (handle_write kernel fd s ≡ some (out, s'))
      × Handled fd s out s'
unfolding handle_write
handle_write_lem kernel fd s t v = elim (Option-cases (find fd s.connection_map)) [
  | inl e ↦
      rw (e, handle_write) ([], s, refl, record { live = v; own = refl; others = λ g h. refl })
  | inr (none, e) ↦ absurd (v.present fd e)
  | inr (some c, e) ↦
      let (out, c', ran, valid, stays, same) =
        send_buffered_data_lem kernel 0 c t (v.valid fd c e) in
      let es = s.connection_map in
      let s' : SubReactor = record s { connection_map = assign fd (some c') es } in
      let handled : Handled fd s out s' = record {
        live = assign-IsLive fd c' s v valid;
        own =
            ap (λ o. out ++ bytes_of o) (find-assign_self fd (some c') es)
            ∙ stays
            ∙ sym (ap bytes_of e);
        others = λ g h. ap bytes_of (find-assign_ne fd g (some c') es h);
      } in
      rw (e, ran, handle_write) (out, s', refl, handled)
]

module _ (kernel : ℕ → ℕ → ℕ → List ℕ → WriteResult) where
  write_all_lem :
      (i : ℕ) (fds : List ℕ) (s : SubReactor)
      → ((j fd : ℕ) → TakesNoMore (kernel j fd))
      → IsLive s
      → (outs : List Written) × (s' : SubReactor) × (write_all kernel i fds s ≡ some (outs, s'))
        × IsLive s'
        × ((fd : ℕ) → taken fd outs ++ pending fd s' ≡ pending fd s)
  unfolding write_all
  write_all_lem i [] s t v = ([], s, refl, v, λ fd. refl)
  write_all_lem i (fd ∷ fds) s t v =
      let (out, s', ran, h) = handle_write_lem (kernel i fd) fd s (t i fd) v in
      let (outs, s'', ran', v'', each) = write_all_lem (i + 1) fds s' t h.live in
      rw (write_all, ran, ran')
        (
          record { fd = fd; bytes = out } ∷ outs,
          s'',
          refl,
          v'',
          λ g. elim (Bool-cases (fd == g)) [
            | inl q ↦
                let own : out ++ pending g s' ≡ pending g s =
                  subst (λ f. out ++ pending f s' ≡ pending f s) (ground (arith, q)) h.own in
                rw q (
                  append_assoc out (taken g outs) (pending g s'')
                  ∙ ap (λ xs. out ++ xs) (each g)
                  ∙ own)
            | inr q ↦ rw q (each g ∙ h.others g (ground (arith, q)))
          ],
        )

  -- On a map without null pointers whose buffers are valid, and where `write` takes no more than
  -- it is given, `processSendQueue` ends, and leaves such a map. For every descriptor, queued or
  -- not, what its socket got followed by what still waits for it is what waited before, in order,
  -- however often it was queued and however little the kernel takes.
  pub process_send_queue_lem :
      (s : SubReactor)
      → ((j fd : ℕ) → TakesNoMore (kernel j fd))
      → IsLive s
      → (outs : List Written) × (s' : SubReactor) × (process_send_queue kernel s ≡ some (outs, s'))
        × IsLive s'
        × ((fd : ℕ) → taken fd outs ++ pending fd s' ≡ pending fd s)
  unfolding process_send_queue
  process_send_queue_lem s t v =
      let s' : SubReactor = record s { send_queue = [] } in
      write_all_lem 0 (reverse s.send_queue) s' t (record { present = v.present; valid = v.valid })
