-- ===== src/Parser/Fields.antt =====
-- The map of a `FixMessage` of ihs/src/parser.cpp: what a stored field leaves to be read.
use fast_server.Prelude.{ℕ, ◌≡◌, true, false, List, [], ◌∷◌, some, ap, arith}
use fast_server.Parser

pub same_int-eq : (a b : Parser.ℤ) → Parser.same_int a b ≡ true → a ≡ b
unfolding Parser.same_int
same_int-eq (Parser.pos m) (Parser.pos n) e = ap Parser.pos (ground arith)
same_int-eq (Parser.negsuc m) (Parser.negsuc n) e = ap Parser.negsuc (ground arith)
same_int-eq (Parser.pos m) (Parser.negsuc n) e = cc
same_int-eq (Parser.negsuc m) (Parser.pos n) e = cc

same_int_refl : (a : Parser.ℤ) → Parser.same_int a a ≡ true
unfolding Parser.same_int
same_int_refl (Parser.pos m) = ground arith
same_int_refl (Parser.negsuc m) = ground arith

pub find-assign_self :
    (tag : Parser.ℤ) (value : List ℕ) (fields : List (Parser.ℤ × List ℕ))
    → Parser.find tag (Parser.assign tag value fields) ≡ some value
unfolding Parser.find Parser.assign
find-assign_self tag value [] = ground (arith, same_int_refl tag)
find-assign_self tag value ((t, v) ∷ fields) = ground (arith, find-assign_self tag value fields)

-- A field that is stored leaves the others as they are.
pub find-assign_ne :
    (tag other : Parser.ℤ) (value : List ℕ) (fields : List (Parser.ℤ × List ℕ))
    → Parser.same_int tag other ≡ false
    → Parser.find other (Parser.assign tag value fields) ≡ Parser.find other fields
unfolding Parser.find Parser.assign
find-assign_ne tag other value [] h = ground arith
find-assign_ne tag other value ((t, v) ∷ fields) h =
    ground (arith, find-assign_ne tag other value fields, same_int-eq t tag)
