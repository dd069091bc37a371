-- ===== src/Queue/Items.antt =====
-- The elements of a ring of `slots` slots, by the counter of the first and their number: counter `c`
-- stands for slot `c % slots`.
use native.Mathlib.Nat.{mod-add-mod, mod-eq_of_lt, mod-eq-sub-mod, mod-lt}
use native.Mathlib.Decide.{dec_lt}
use fast_server.Prelude.{
  ℕ, zero, suc, ◌+◌, ◌-◌, ◌%◌, ◌≤◌, ◌<◌, ◌≡◌, ◌≢◌, refl, sym, ap, ap₂, ◌∙◌, List, [], ◌∷◌, ◌++◌,
  arith, length, get_or, set, get_or-set_self, get_or-set_ne,
}

-- Fewer than `slots` slots on is another slot.
pub other_slot : (slots c k : ℕ) → 0 < k → k < slots → (c + k) % slots ≢ c % slots
other_slot slots c k pos less e = elim (dec_lt (c % slots + k) slots) [
  | yes below ↦ omega (arith, mod-eq_of_lt below, mod-add-mod c slots k)
  | no above ↦ omega (
    arith,
    mod-eq-sub-mod {n = c % slots + k} {m = slots} (omega arith),
    mod-eq_of_lt {n = c % slots + k - slots} {m = slots} (omega arith),
    mod-add-mod c slots k,
  )
]

module _ {A : Type 0} (d : A) where
  abbrev pub items : List A → ℕ → ℕ → ℕ → List A
  items buf slots c zero = []
  items buf slots c (suc n) = get_or buf (c % slots) d ∷ items buf slots (c + 1) n

  pub length-items : (buf : List A) (slots c n : ℕ) → length (items buf slots c n) ≡ n
  length-items buf slots c zero = refl
  length-items buf slots c (suc n) = ap suc (length-items buf slots (c + 1) n)

  -- Counters that stand for one slot show the same elements.
  pub items-slot :
      (buf : List A) (slots n c c' : ℕ)
      → c % slots ≡ c' % slots
      → items buf slots c n ≡ items buf slots c' n
  items-slot buf slots zero c c' e = refl
  items-slot buf slots (suc n) c c' e =
      ap₂ (λ i xs. get_or buf i d ∷ xs) e
        (items-slot buf slots n (c + 1) (c' + 1)
          (sym (mod-add-mod c slots 1) ∙ ap (λ t. (t + 1) % slots) e ∙ mod-add-mod c' slots 1))

  -- The first element, where there is one.
  pub items_first :
      (buf : List A) (slots c n : ℕ)
      → 0 < n
      → items buf slots c n ≡ get_or buf (c % slots) d ∷ items buf slots (c + 1) (n - 1)
  items_first buf slots c zero h = absurd (omega arith)
  items_first buf slots c (suc n) h =
      ap (λ k. get_or buf (c % slots) d ∷ items buf slots (c + 1) k) (omega arith)

  -- A write to the slot behind the last element adds that element and keeps the others.
  pub items-set :
      (buf : List A) (slots n c j : ℕ) (x : A)
      → slots ≤ length buf
      → n < slots
      → j ≡ (c + n) % slots
      → items (set buf j x) slots c (suc n) ≡ items buf slots c n ++ x ∷ []
  items-set buf slots zero c j x room less e =
      ap (λ y. y ∷ [])
        (ap (λ i. get_or (set buf j x) i d) (sym at)
          ∙ get_or-set_self buf j x d (omega (arith, mod-lt c {m = slots} less)))
    where
      at : j ≡ c % slots
      at = e ∙ ap (λ t. t % slots) (omega arith)
  items-set buf slots (suc n) c j x room less e =
      ap₂ ◌∷◌
        (get_or-set_ne buf j (c % slots) x d
          (λ same. other_slot slots c (suc n) (omega arith) less (sym e ∙ same)))
        (items-set buf slots n (c + 1) j x room (omega arith)
          (e ∙ ap (λ t. t % slots) (omega arith)))

  -- A write to a slot that no element has changes none.
  pub items-set_outside :
      (buf : List A) (slots n c j : ℕ) (x : A)
      → ((i : ℕ) → i < n → j ≢ (c + i) % slots)
      → items (set buf j x) slots c n ≡ items buf slots c n
  items-set_outside buf slots zero c j x h = refl
  items-set_outside buf slots (suc n) c j x h =
      ap₂ ◌∷◌
        (get_or-set_ne buf j (c % slots) x d
          (λ e. h 0 (omega arith) (e ∙ ap (λ t. t % slots) (omega arith))))
        (items-set_outside buf slots n (c + 1) j x
          (λ i k e. h (i + 1) (omega arith) (e ∙ ap (λ t. t % slots) (omega arith))))
