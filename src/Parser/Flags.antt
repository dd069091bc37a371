-- ===== src/Parser/Flags.antt =====
-- The loop over the fields in `parseMessage` of ihs/src/parser.cpp: what its flags stand for.
use fast_server.Prelude.{
  ℕ, ◌≡◌, ◌≢◌, ap, subst, true, false, List, refl, ◌∙◌, arith, Bool-cases, inl, inr,
}
use fast_server.Parser
use fast_server.Parser.Fields.{same_int-eq, find-assign_self, find-assign_ne}

has_field-add_self :
    (tag : Parser.ℤ) (value : List ℕ) (msg : Parser.FixMessage)
    → Parser.has_field tag (Parser.add_field tag value msg) ≡ true
unfolding Parser.has_field Parser.add_field
has_field-add_self tag value msg = ground (arith, find-assign_self tag value msg.fields)

has_field-add :
    (tag other : Parser.ℤ) (value : List ℕ) (msg : Parser.FixMessage)
    → Parser.has_field other msg ≡ true
    → Parser.has_field other (Parser.add_field tag value msg) ≡ true
unfolding Parser.has_field Parser.add_field
has_field-add tag other value msg h = ground (
  arith,
  find-assign_self tag value msg.fields,
  same_int-eq tag other,
  find-assign_ne tag other value msg.fields,
)

get_field-add_self :
    (tag : Parser.ℤ) (value : List ℕ) (msg : Parser.FixMessage)
    → Parser.get_field tag (Parser.add_field tag value msg) ≡ value
unfolding Parser.get_field Parser.add_field
get_field-add_self tag value msg = ground (arith, find-assign_self tag value msg.fields)

get_field-add_ne :
    (tag other : Parser.ℤ) (value : List ℕ) (msg : Parser.FixMessage)
    → Parser.same_int tag other ≡ false
    → Parser.get_field other (Parser.add_field tag value msg) ≡ Parser.get_field other msg
unfolding Parser.get_field Parser.add_field
get_field-add_ne tag other value msg h = ground (arith, find-assign_ne tag other value msg.fields)

-- Each flag stands for a field that the message has; the length is the value of field 9.
pub record IsTracked (h : Parser.Header) : Type 0 where
  pub begins : h.has_begin_string ≡ true → Parser.has_field Parser.begin_string h.msg ≡ true
  pub typed : h.has_msg_type ≡ true → Parser.has_field Parser.message_type h.msg ≡ true
  pub counted :
      h.has_body_length ≡ true
      → Parser.stoi (Parser.get_field Parser.body_length h.msg) ≡ Parser.returns h.length_value

pub no_header-IsTracked : IsTracked Parser.no_header
no_header-IsTracked = record { begins = λ e. cc; typed = λ e. cc; counted = λ e. cc }

-- A field of another kind than the length keeps the flags true.
pub insert_field-IsTracked :
    (f : Parser.Field) (h : Parser.Header)
    → Parser.same_int f.tag Parser.body_length ≡ false
    → IsTracked h
    → IsTracked (Parser.insert_field f h)
unfolding Parser.insert_field
insert_field-IsTracked f h n t = record {
  begins = λ e. has_field-add f.tag Parser.begin_string f.value h.msg (t.begins e);
  typed = λ e. has_field-add f.tag Parser.message_type f.value h.msg (t.typed e);
  counted =
      λ e. ap Parser.stoi (get_field-add_ne f.tag Parser.body_length f.value h.msg n) ∙ t.counted e;
}

pub has_field-insert :
    (f : Parser.Field) (h : Parser.Header) (tag : Parser.ℤ)
    → Parser.same_int f.tag tag ≡ true
    → Parser.has_field tag (Parser.insert_field f h).msg ≡ true
unfolding Parser.insert_field
has_field-insert f h tag e =
    subst (λ t. Parser.has_field t (Parser.add_field f.tag f.value h.msg) ≡ true)
      (same_int-eq f.tag tag e) (has_field-add_self f.tag f.value h.msg)

get_field-insert :
    (f : Parser.Field) (h : Parser.Header) (tag : Parser.ℤ)
    → Parser.same_int f.tag tag ≡ true
    → Parser.get_field tag (Parser.insert_field f h).msg ≡ f.value
unfolding Parser.insert_field
get_field-insert f h tag e =
    subst (λ t. Parser.get_field t (Parser.add_field f.tag f.value h.msg) ≡ f.value)
      (same_int-eq f.tag tag e) (get_field-add_self f.tag f.value h.msg)

-- One tag is not two of the header's.
pub other_tag :
    (f : Parser.Field) (m n : ℕ)
    → Parser.same_int f.tag (Parser.pos m) ≡ true
    → m ≢ n
    → Parser.same_int f.tag (Parser.pos n) ≡ false
unfolding Parser.same_int
other_tag f m n e d =
    elim f.tag
        as (λ t.
          Parser.same_int t (Parser.pos m) ≡ true → Parser.same_int t (Parser.pos n) ≡ false) [
            | Parser.pos k ↦ λ e. ground arith
            | Parser.negsuc k ↦ λ e. refl
          ]
      e

pub note_field-IsTracked :
    (f : Parser.Field) (h h2 : Parser.Header)
    → Parser.note_field f (Parser.insert_field f h) ≡ Parser.returns h2
    → IsTracked h
    → IsTracked h2
unfolding Parser.note_field Parser.insert_field
note_field-IsTracked f h h2 e t = elim (Bool-cases (Parser.same_int f.tag Parser.begin_string)) [
  | inl b ↦
      let i = insert_field-IsTracked f h (other_tag f 8 9 b (omega arith)) t in
      let q : record (Parser.insert_field f h) { has_begin_string = true } ≡ h2 = ground arith in
      subst IsTracked q (record {
        begins = λ x. has_field-insert f h Parser.begin_string b;
        typed = i.typed;
        counted = i.counted;
      })
  | inr b ↦ elim (Bool-cases (Parser.same_int f.tag Parser.body_length)) [
    | inl l ↦ elim (Parser.Result-cases (Parser.stoi f.value)) [
      | inl (n, s) ↦
          let q : record (Parser.insert_field f h) { has_body_length = true; length_value = n }
              ≡ h2 =
            ground arith in
          subst IsTracked q (record {
            begins = λ x. has_field-add f.tag Parser.begin_string f.value h.msg (t.begins x);
            typed = λ x. has_field-add f.tag Parser.message_type f.value h.msg (t.typed x);
            counted = λ x. ap Parser.stoi (get_field-insert f h Parser.body_length l) ∙ s;
          })
      | inr (x, s) ↦ absurd (ground arith)
    ]
    | inr l ↦
        let i = insert_field-IsTracked f h l t in
        elim (Bool-cases (Parser.same_int f.tag Parser.message_type)) [
          | inl m ↦
              let q : record (Parser.insert_field f h) { has_msg_type = true } ≡ h2 =
                ground arith in
              subst IsTracked q (record {
                begins = i.begins;
                typed = λ x. has_field-insert f h Parser.message_type m;
                counted = i.counted;
              })
          | inr m ↦ let q : Parser.insert_field f h ≡ h2 = ground arith in subst IsTracked q i
        ]
  ]
]
