-- ===== src/Channel/Pick.antt =====
-- What a choice among waiting goroutines takes out of the list.
use monitoring_tool.Prelude.{
  ℕ, zero, suc, ◌+◌, ◌≡◌, refl, ◌⊎◌, inl, inr, Bool, List, [], ◌∷◌, Option, none, some, arith,
  length, count_by, ◌++◌,
}
use monitoring_tool.Channel.{pick}

module _ {T : Type 0} where
  -- What `pick` may answer: nothing, or one item out of the list.
  abbrev pub Picks : List T → Option (T × List T) → Type 0
  Picks xs r =
      (r ≡ none)
      ⊎ ((x : T) × (rest : List T) × (r ≡ some (x, rest))
          × (length xs ≡ length rest + 1)
          × ((p : T → Bool) → count_by p xs ≡ count_by p rest + count_by p (x ∷ [])))

  pub pick-Picks : (i : ℕ) (xs : List T) → Picks xs (pick i xs)
  pick-Picks i [] = inl refl
  pick-Picks zero (y ∷ ys) = inr (y, ys, refl, omega arith, λ p. omega arith)
  pick-Picks (suc i) (y ∷ ys) = elim (pick-Picks i ys) [
    | inl e ↦ inl (ground arith)
    | inr (x, rest, e, l, c) ↦ inr (x, y ∷ rest, ground arith, omega arith, λ p. omega (arith, c p))
  ]

  pub pick_count :
      (i : ℕ) (xs : List T) (x : T) (rest : List T)
      → pick i xs ≡ some (x, rest)
      → (p : T → Bool) → count_by p xs ≡ count_by p rest + count_by p (x ∷ [])
  pick_count i xs x rest e p = elim (pick-Picks i xs) [
    | inl nobody ↦ cc
    | inr (y, others, got, _, same) ↦ ground (arith, same p)
  ]

  pub pick_last : (xs : List T) (y : T) → pick (length xs) (xs ++ y ∷ []) ≡ some (y, xs)
  pick_last [] y = refl
  pick_last (x ∷ xs) y = rw (pick_last xs y) refl
