-- ===== src/Session/Silent.antt =====
-- ihs/src/fix42.cpp: `receiveLoop` ends a message at each separator of a field. What it takes for a
-- message has one field, and `validateMessage` asks for eight.
use fast_server.Prelude.{
  ℕ, false, List, [], ◌∷◌, ◌++◌, ◌≡◌, ◌≢◌, ◌⊎◌, inl, inr, refl, ap, sym, ◌∙◌, subst, append-nil,
  Bool-cases, All, arith, append_assoc, ltb, length, take, drop, suc, ◌==◌,
}
use fast_server.Fix.{soh, equal_sign, index_of}
use fast_server.Parser.{ℤ, pos, negsuc, same_int, find, stoi, Result-cases}
use fast_server.Session.Wire.{
  Message, has_tag, has_all, put_field, store_text, read_fields, deserialize, validate_message,
}
use fast_server.Session.{Environment, FixSession}
use fast_server.Session.Receive.{receive_message, receive_messages, receive}

-- At most one field.
IsShort : List (ℤ × List ℕ) → Type 0
IsShort fields = (fields ≡ []) ⊎ ((f : ℤ × List ℕ) × (fields ≡ f ∷ []))

store_text-IsShort : (text : List ℕ) → IsShort (store_text text [])
unfolding IsShort store_text put_field
store_text-IsShort text =
    let eq_pos = index_of equal_sign text in
    elim (Bool-cases (ltb eq_pos (length text))) [
      | inr e ↦ inl (rw e refl)
      | inl e ↦ elim (Result-cases (stoi (take eq_pos text))) [
        | inr (x, d) ↦ inl (rw (e, d) refl)
        | inl (t, d) ↦ inr ((t, drop (suc eq_pos) text), rw (e, d) refl)
      ]
    ]

read_fields-piece :
    (text more : List ℕ)
    → All (λ c. c ≢ soh) more
    → read_fields text (more ++ soh ∷ []) [] ≡ store_text (text ++ more) []
unfolding read_fields
read_fields-piece text [] h = ap (λ t. store_text t []) (sym (append-nil text))
read_fields-piece text (c ∷ more) (n, h) =
    let rest =
      read_fields-piece (text ++ c ∷ []) more h
      ∙ ap (λ t. store_text t []) (append_assoc text (c ∷ []) more) in
    ground (arith, n, rest)

validate_message-IsShort :
    (sender target : List ℕ) (msg : Message)
    → IsShort msg.fields
    → validate_message sender target msg ≡ false
unfolding IsShort validate_message has_all has_tag find same_int
validate_message-IsShort sender target msg (inl e) = rw e refl
validate_message-IsShort sender target msg (inr ((pos n, v), e)) = rw e (ground arith)
validate_message-IsShort sender target msg (inr ((negsuc n, v), e)) = rw e refl

module _ {Price : Type 0} (env : Environment Price) where
  receive_message-piece :
      (text : List ℕ) (s : FixSession Price)
      → All (λ c. c ≢ soh) text
      → receive_message env (text ++ soh ∷ []) s ≡ s
  unfolding receive_message deserialize
  receive_message-piece text s h =
      let short =
        validate_message-IsShort env.sender_comp_id env.target_comp_id
          (deserialize (text ++ soh ∷ [])).1
          (subst IsShort (sym (read_fields-piece [] text h)) (store_text-IsShort text)) in
      ground (arith, short)

  All-snoc :
      (text : List ℕ) (c : ℕ)
      → All (λ c. c ≢ soh) text
      → c ≢ soh
      → All (λ c. c ≢ soh) (text ++ c ∷ [])
  All-snoc [] c h n = (n, tt)
  All-snoc (d ∷ text) c (m, h) n = (m, All-snoc text c h n)

  -- Nothing but the characters that are kept changes.
  receive_messages_silent :
      (text bytes : List ℕ) (s : FixSession Price)
      → All (λ c. c ≢ soh) text
      → receive_messages env text bytes s
        ≡ record s { partial_msg = (receive_messages env text bytes s).partial_msg }
  unfolding receive_messages
  receive_messages_silent text [] s h = refl
  receive_messages_silent text (c ∷ bytes) s h = elim (Bool-cases (c == soh)) [
    | inl e ↦ ground (arith, receive_message-piece text s h, receive_messages_silent [] bytes s tt)
    | inr e ↦
        ground (
          arith,
          receive_messages_silent (text ++ c ∷ []) bytes s (All-snoc text c h (ground arith)),
        )
  ]

  -- Whatever bytes the receiving thread gets, and in whatever state, it processes no message: of the
  -- session nothing changes but the characters that it keeps for the next call.
  pub receive_silent :
      (bytes : List ℕ) (s : FixSession Price)
      → receive env bytes s ≡ record s { partial_msg = (receive env bytes s).partial_msg }
  unfolding receive
  receive_silent bytes s = ground (arith, receive_messages_silent [] (s.partial_msg ++ bytes) s tt)
