-- ===== src/Tasks/Hands.antt =====
-- The list of the tasks at work: one of them takes a step, comes or goes.
use monitoring_tool.Prelude.{
  ℕ, zero, suc, ◌+◌, ◌≡◌, refl, ap, List, [], ◌∷◌, ◌++◌, some, Option-cases, length, inl, inr, map,
  arith,
}
use monitoring_tool.Channel.{pick}
use monitoring_tool.Tasks.System.{item, put_at}

abbrev pub first_of : {A B : Type 0} → A × B → A
first_of (a, b) = a

module _ {A : Type 0} where
  unfoldable pub sum_by : (A → ℕ) → List A → ℕ
  sum_by f [] = 0
  sum_by f (x ∷ xs) = f x + sum_by f xs

  pub sum_by-snoc : (f : A → ℕ) (xs : List A) (y : A) → sum_by f (xs ++ y ∷ []) ≡ sum_by f xs + f y
  unfolding sum_by
  sum_by-snoc f [] y = omega arith
  sum_by-snoc f (x ∷ xs) y = omega (arith, sum_by-snoc f xs y)

  pub sum_by-put_at :
      (f : A → ℕ) (i : ℕ) (y : A) (xs : List A) {x : A}
      → item i xs ≡ some x
      → sum_by f (put_at i y xs) + f x ≡ sum_by f xs + f y
  unfolding sum_by
  sum_by-put_at f i y [] e = cc
  sum_by-put_at f zero y (x ∷ xs) e = ground arith
  sum_by-put_at f (suc i) y (x ∷ xs) e = ground (arith, sum_by-put_at f i y xs e)

  pub sum_by-pick :
      (f : A → ℕ) (i : ℕ) (xs : List A) {x : A} {rest : List A}
      → pick i xs ≡ some (x, rest)
      → sum_by f xs ≡ f x + sum_by f rest
  unfolding sum_by
  sum_by-pick f i [] e = cc
  sum_by-pick f zero (x ∷ xs) e = ground arith
  sum_by-pick f (suc i) (x ∷ xs) e = elim (Option-cases (pick i xs)) [
    | inl nobody ↦ ground (arith, e, nobody)
    | inr ((z, zs), got) ↦ ground (arith, e, got, sum_by-pick f i xs got)
  ]

  pub item-put_at :
      (i : ℕ) (y : A) (xs : List A) {x : A} → item i xs ≡ some x → item i (put_at i y xs) ≡ some y
  item-put_at i y [] e = cc
  item-put_at zero y (x ∷ xs) e = refl
  item-put_at (suc i) y (x ∷ xs) e = item-put_at i y xs e

  pub put_at-put_at : (i : ℕ) (y z : A) (xs : List A) → put_at i z (put_at i y xs) ≡ put_at i z xs
  put_at-put_at i y z [] = refl
  put_at-put_at zero y z (x ∷ xs) = refl
  put_at-put_at (suc i) y z (x ∷ xs) = ap (λ l. x ∷ l) (put_at-put_at i y z xs)

  pub put_at-item : (i : ℕ) (xs : List A) {x : A} → item i xs ≡ some x → put_at i x xs ≡ xs
  put_at-item i [] e = cc
  put_at-item zero (x ∷ xs) e = ground arith
  put_at-item (suc i) (x ∷ xs) e = ap (λ l. x ∷ l) (put_at-item i xs e)

  pub pick-item :
      (i : ℕ) (xs : List A) {x : A} {rest : List A}
      → pick i xs ≡ some (x, rest)
      → item i xs ≡ some x
  pick-item i [] e = cc
  pick-item zero (x ∷ xs) e = ground (arith, e)
  pick-item (suc i) (x ∷ xs) e = elim (Option-cases (pick i xs)) [
    | inl nobody ↦ ground (arith, e, nobody)
    | inr ((z, zs), got) ↦ ground (arith, e, got, pick-item i xs got)
  ]

  pub pick-put_at :
      (i : ℕ) (y : A) (xs : List A) {x : A} {rest : List A}
      → pick i xs ≡ some (x, rest)
      → pick i (put_at i y xs) ≡ some (y, rest)
  pick-put_at i y [] e = cc
  pick-put_at zero y (x ∷ xs) e = ground (arith, e)
  pick-put_at (suc i) y (x ∷ xs) e = elim (Option-cases (pick i xs)) [
    | inl nobody ↦ ground (arith, e, nobody)
    | inr ((z, zs), got) ↦ ground (arith, e, got, pick-put_at i y xs got)
  ]

  pub item-length :
      (i : ℕ) (xs : List A) {x : A} → item i xs ≡ some x → (n : ℕ) × (length xs ≡ suc n)
  item-length i [] e = cc
  item-length zero (x ∷ xs) e = (length xs, omega arith)
  item-length (suc i) (x ∷ xs) e = (length xs, omega arith)

module _ {A B : Type 0} where
  pub map-put_at :
      (f : A → B) (i : ℕ) (y : A) (xs : List A) {x : A}
      → item i xs ≡ some x
      → f y ≡ f x
      → map f (put_at i y xs) ≡ map f xs
  map-put_at f i y [] e h = cc
  map-put_at f zero y (x ∷ xs) e h = ground (arith, e, h)
  map-put_at f (suc i) y (x ∷ xs) e h = ap (λ l. f x ∷ l) (map-put_at f i y xs e h)

  pub pick-map :
      (f : A → B) (i : ℕ) (xs : List A) {x : A} {rest : List A}
      → pick i xs ≡ some (x, rest)
      → pick i (map f xs) ≡ some (f x, map f rest)
  pick-map f i [] e = cc
  pick-map f zero (x ∷ xs) e = ground arith
  pick-map f (suc i) (x ∷ xs) e = elim (Option-cases (pick i xs)) [
    | inl nobody ↦ ground (arith, e, nobody)
    | inr ((z, zs), got) ↦ ground (arith, e, got, pick-map f i xs got)
  ]

  pub length-map : (f : A → B) (xs : List A) → length (map f xs) ≡ length xs
  length-map f [] = refl
  length-map f (x ∷ xs) = omega (arith, length-map f xs)
