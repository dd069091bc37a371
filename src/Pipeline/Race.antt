-- ===== src/Pipeline/Race.antt =====
-- ihs/src/system.cpp: the queue is made for one thread that pops, and four threads of the parser pool do.
use fast_server.Prelude.{
  ℕ, ◌+◌, ◌%◌, ◌≡◌, ◌≢◌, refl, sym, ap, ◌∙◌, List, [], ◌∷◌, ◌++◌, arith, if◌then◌else◌, ◌==◌,
  append_assoc,
}
use fast_server.Producers.Slots.{put_self, put_ne}
use fast_server.Pipeline.{
  Popping, polling, comparing, reading, storing, System, Action, parses, parser_act, system_step,
  run_system,
}

-- Two parsers of which one is overtaken by the other between its test and its reading.
abbrev pub overtaking : ℕ → ℕ → List Action
overtaking i j =
    parses i ∷ parses i ∷ parses j ∷ parses j ∷ parses j ∷ parses j ∷ parses i ∷ parses i ∷ []

module _ (slots : ℕ) (moved : List ℕ → List ℕ) where
  system_step-phase :
      (i : ℕ) (w : Popping) (s : System)
      → s.parsers i ≡ w
      → system_step slots moved (parses i) s ≡ parser_act slots moved i w s
  unfolding system_step
  system_step-phase i w s e = ap (λ v. parser_act slots moved i v s) e

  -- Where two parsers begin to pop from a queue with an item, there is an order of their steps in which
  -- both pop it: the second one gets what the move left of it, and the head moves on by one only.
  pub overtaking_lem :
      (i j : ℕ) (s : System)
      → i ≢ j
      → s.parsers i ≡ polling
      → s.parsers j ≡ polling
      → s.head ≢ s.tail
      → ((run_system slots moved (overtaking i j) s).parsed
          ≡ s.parsed ++ s.ring s.head ∷ moved (s.ring s.head) ∷ [])
        × ((run_system slots moved (overtaking i j) s).head ≡ (s.head + 1) % slots)
  unfolding run_system parser_act
  overtaking_lem i j s n a b h =
      let act = parser_act slots moved in
      let x = s.ring s.head in
      let s1 = act i polling s in
      let s2 = act i (comparing s.head) s1 in
      let s3 = act j polling s2 in
      let s4 = act j (comparing s.head) s3 in
      let s5 = act j (reading s.head) s4 in
      let s6 = act j (storing s.head x) s5 in
      let s7 = act i (reading s.head) s6 in
      let tested : (if s.head == s.tail then polling else reading s.head) ≡ reading s.head =
        ground (arith, h) in
      let e1 = system_step-phase i polling s a in
      let e2 =
        system_step-phase i (comparing s.head) s1
          (put_self s.parsers i i (comparing s.head) refl) in
      let m : j ≢ i = λ e. n (sym e) in
      let e3 =
        system_step-phase j polling s2 (put_ne s1.parsers i j _ m ∙ put_ne s.parsers i j _ m ∙ b) in
      let e4 =
        system_step-phase j (comparing s.head) s3
          (put_self s2.parsers j j (comparing s.head) refl) in
      let e5 = system_step-phase j (reading s.head) s4 (put_self s3.parsers j j _ refl ∙ tested) in
      let e6 =
        system_step-phase j (storing s.head x) s5
          (put_self s4.parsers j j (storing s.head x) refl) in
      let still : s6.parsers i ≡ reading s.head =
        put_ne s5.parsers j i polling n
        ∙ put_ne s4.parsers j i _ n
        ∙ put_ne s3.parsers j i _ n
        ∙ put_ne s2.parsers j i _ n
        ∙ put_self s1.parsers i i _ refl
        ∙ tested in
      let e7 = system_step-phase i (reading s.head) s6 still in
      let y = s6.ring s.head in
      let e8 =
        system_step-phase i (storing s.head y) s7
          (put_self s6.parsers i i (storing s.head y) refl) in
      let go = run_system slots moved in
      let ends =
        ap (go (parses i ∷ parses j ∷ parses j ∷ parses j ∷ parses j ∷ parses i ∷ parses i ∷ [])) e1
        ∙ ap (go (parses j ∷ parses j ∷ parses j ∷ parses j ∷ parses i ∷ parses i ∷ [])) e2
        ∙ ap (go (parses j ∷ parses j ∷ parses j ∷ parses i ∷ parses i ∷ [])) e3
        ∙ ap (go (parses j ∷ parses j ∷ parses i ∷ parses i ∷ [])) e4
        ∙ ap (go (parses j ∷ parses i ∷ parses i ∷ [])) e5
        ∙ ap (go (parses i ∷ parses i ∷ [])) e6
        ∙ ap (go (parses i ∷ [])) e7
        ∙ e8 in
      (
        ap (λ t. t.parsed) ends
            ∙ append_assoc s.parsed (x ∷ []) (y ∷ [])
            ∙ ap (λ z. s.parsed ++ x ∷ z ∷ []) (put_self s.ring s.head s.head (moved x) refl),
        ap (λ t. t.head) ends,
      )
