-- ===== src/Examples/Scripts.antt =====
-- A run of a system at a list of actions: the state it ends in, when each action is enabled in turn.
use monitoring_tool.Prelude.{
  ◌≡◌, ◌∙◌, ap, sym, List, [], ◌∷◌, Option, none, some, Option-cases, inl, inr, some_same, arith,
}
use mathlib.Core.Path.{subst}

module _ {S A : Type 0} (step : S → A → Option S) where
  unfoldable pub run : S → List A → Option S
  run s [] = some s
  run s (a ∷ rest) = elim (step s a) [ none ↦ none | some t ↦ run t rest ]

  -- What each enabled action keeps holds at the end of a script, if it holds at its start.
  pub run-keeps :
      (R : S → Type 0)
      → ((m : S) (a : A) (t : S) → R m → step m a ≡ some t → R t)
      → (m : S) (actions : List A) {t : S} → R m
      → run m actions ≡ some t
      → R t
  unfolding run
  run-keeps R keeps m [] r e = subst R (some_same e) r
  run-keeps R keeps m (a ∷ rest) r e = elim (Option-cases (step m a)) [
    | inl stuck ↦ ground (arith, e, stuck)
    | inr (t, on) ↦
        run-keeps R keeps t rest (keeps m a t r on)
          (sym (ap (λ o. elim o [ none ↦ none | some t ↦ run t rest ]) on) ∙ e)
  ]
