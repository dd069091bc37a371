-- ===== src/Acceptor/Sublists.antt =====
-- Lists of the connections of muduo/src/MainReactor.cpp with some left out.
use fast_server.Prelude.{ℕ, ◌≡◌, ◌⊎◌, inl, inr, refl, List, [], ◌∷◌, ◌++◌}

-- The first list is the second with some elements left out.
unfoldable pub IsSublist : List ℕ → List ℕ → Type 0
IsSublist [] ys = Unit
IsSublist (x ∷ xs) [] = ⊥
IsSublist (x ∷ xs) (y ∷ ys) = ((x ≡ y) × IsSublist xs ys) ⊎ IsSublist (x ∷ xs) ys

IsSublist-weaken : (y : ℕ) (xs ys : List ℕ) → IsSublist xs ys → IsSublist xs (y ∷ ys)
unfolding IsSublist
IsSublist-weaken y [] ys h = tt
IsSublist-weaken y (x ∷ xs) ys h = inr h

IsSublist-tail : (x : ℕ) (xs ys : List ℕ) → IsSublist (x ∷ xs) ys → IsSublist xs ys
unfolding IsSublist
IsSublist-tail x xs [] h = absurd h
IsSublist-tail x xs (y ∷ ys) (inl (e, h)) = IsSublist-weaken y xs ys h
IsSublist-tail x xs (y ∷ ys) (inr h) = IsSublist-weaken y xs ys (IsSublist-tail x xs ys h)

pub IsSublist-without :
    (xs : List ℕ) (y : ℕ) (ys zs : List ℕ) → IsSublist (xs ++ y ∷ ys) zs → IsSublist (xs ++ ys) zs
unfolding IsSublist
IsSublist-without [] y ys zs h = IsSublist-tail y ys zs h
IsSublist-without (x ∷ xs) y ys [] h = absurd h
IsSublist-without (x ∷ xs) y ys (z ∷ zs) (inl (e, h)) = inl (e, IsSublist-without xs y ys zs h)
IsSublist-without (x ∷ xs) y ys (z ∷ zs) (inr h) = inr (IsSublist-without (x ∷ xs) y ys zs h)

append-IsSublist : (ys zs : List ℕ) → IsSublist zs (ys ++ zs)
unfolding IsSublist
append-IsSublist [] [] = tt
append-IsSublist [] (z ∷ zs) = inl (refl, append-IsSublist [] zs)
append-IsSublist (y ∷ ys) zs = IsSublist-weaken y zs (ys ++ zs) (append-IsSublist ys zs)

pub IsSublist-append : (xs ys zs : List ℕ) → IsSublist xs ys → IsSublist (xs ++ zs) (ys ++ zs)
unfolding IsSublist
IsSublist-append [] ys zs h = append-IsSublist ys zs
IsSublist-append (x ∷ xs) [] zs h = absurd h
IsSublist-append (x ∷ xs) (y ∷ ys) zs (inl (e, h)) = inl (e, IsSublist-append xs ys zs h)
IsSublist-append (x ∷ xs) (y ∷ ys) zs (inr h) = inr (IsSublist-append (x ∷ xs) ys zs h)
