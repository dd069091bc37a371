-- ===== src/Parser/Message.antt =====
-- ihs/src/parser.cpp: `FixMessage`, the map from a tag to the text of its value.
use fast_server.Prelude.{Bool, true, false, ℕ, List, [], ◌∷◌, Option, none, some, if◌then◌else◌}
use fast_server.Parser.Stoi.{ℤ, same_int}

pub record FixMessage : Type 0 where
  pub fields : List (ℤ × List ℕ)

-- A map keeps one value of a tag.
unfoldable pub assign : ℤ → List ℕ → List (ℤ × List ℕ) → List (ℤ × List ℕ)
assign tag value [] = (tag, value) ∷ []
assign tag value ((t, v) ∷ fields) =
    let more = assign tag value fields in
    if same_int t tag then (t, value) ∷ fields else (t, v) ∷ more

unfoldable pub find : ℤ → List (ℤ × List ℕ) → Option (List ℕ)
find tag [] = none
find tag ((t, v) ∷ fields) = let more = find tag fields in if same_int t tag then some v else more

unfoldable pub add_field : ℤ → List ℕ → FixMessage → FixMessage
add_field tag value msg = record { fields = assign tag value msg.fields }

unfoldable pub get_field : ℤ → FixMessage → List ℕ
get_field tag msg = elim (find tag msg.fields) [ none ↦ [] | some value ↦ value ]

unfoldable pub has_field : ℤ → FixMessage → Bool
has_field tag msg = elim (find tag msg.fields) [ none ↦ false | some value ↦ true ]
