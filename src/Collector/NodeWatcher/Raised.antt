-- ===== src/Collector/NodeWatcher/Raised.antt =====
-- Which alerts a node raises.
use monitoring_tool.Prelude.{
  ℕ, suc, ◌≡◌, refl, sym, ap, ◌∙◌, inl, inr, Option-cases, ◌↔◌, ◌≢◌, List, [], ◌∷◌, ◌++◌, Option,
  none, some, arith, length, All, append-nil, append-cons, length-append,
}
use monitoring_tool.Platform.{
  Platform, condition_true, node_ready, node_memory_pressure, node_disk_pressure, node_pid_pressure,
}
use monitoring_tool.Models.{Alert, Stamp}
use monitoring_tool.Collector.Objects.{Node, NodeCondition}
use monitoring_tool.Collector.Builder.{AlertType, build_node_alert}
use monitoring_tool.Collector.Severities.{IsCounted, build_node_alert-IsCounted}
use monitoring_tool.Collector.NodeWatcher.Rules.{called_for, raised_by, rules}
use monitoring_tool.Platform.{NodeConditionType, ConditionStatus}
use monitoring_tool.Collector.NodeWatcher.{
  alert_for, append_alert, check_conditions, evaluate_node_conditions,
}

-- A condition in good order: a Ready condition that is true, a pressure condition that is not.
abbrev pub IsFine : NodeCondition → Type 0
IsFine c =
    (c.kind ≡ node_ready → c.status ≡ condition_true)
    × (c.kind ≡ node_memory_pressure → c.status ≢ condition_true)
    × (c.kind ≡ node_disk_pressure → c.status ≢ condition_true)
    × (c.kind ≡ node_pid_pressure → c.status ≢ condition_true)

abbrev calls : Option AlertType → List AlertType → List AlertType
calls none ts = ts
calls (some t) ts = t ∷ ts

-- The `switch` raises what the rules do.
alert_for-rules :
    (kind : NodeConditionType) (st : ConditionStatus) (ts : List AlertType)
    → calls (alert_for kind st) ts ≡ raised_by rules kind st ++ ts
alert_for-rules kind st ts = ground arith

alert_for-IsFine : (c : NodeCondition) → (alert_for c.kind c.status ≡ none) ↔ IsFine c
alert_for-IsFine c =
    (λ e. (ground arith, ground arith, ground arith, ground arith), λ f. ground arith)

called_for-IsFine : (cs : List NodeCondition) → (called_for cs ≡ []) ↔ All IsFine cs
unfolding called_for
called_for-IsFine [] = (λ _. tt, λ _. refl)
called_for-IsFine (c ∷ rest) = (
  λ e. elim (Option-cases (alert_for c.kind c.status)) [
    | inl fine ↦ (
      (alert_for-IsFine c).0 fine,
      (called_for-IsFine rest).0 (
          ap (λ o. calls o (called_for rest)) (sym fine)
          ∙ alert_for-rules c.kind c.status (called_for rest)
          ∙ e),
    )
    | inr (t, raised) ↦
        absurd (ground (arith, e, raised, alert_for-rules c.kind c.status (called_for rest)))
  ],
  λ f. ground (
    arith,
    alert_for-rules c.kind c.status (called_for rest),
    (alert_for-IsFine c).1 f.0,
    (called_for-IsFine rest).1 f.1,
  ),
)

module _ (p : Platform) (stamps : ℕ → Stamp) (node : Node) where
  -- The alerts of these types for the node, the first of them with stamp n.
  unfoldable pub build_from : ℕ → List AlertType → List (Alert p.Float p.Json)
  build_from n [] = []
  build_from n (t ∷ ts) =
      build_node_alert p node t (p.of_int32 1) (stamps n) ∷ build_from (suc n) ts

  append_alert-build_from :
      (o : Option AlertType) (ts : List AlertType) (alerts : List (Alert p.Float p.Json))
      → append_alert p stamps node o alerts
          ++ build_from (length (append_alert p stamps node o alerts)) ts
        ≡ alerts ++ build_from (length alerts) (calls o ts)
  unfolding build_from
  append_alert-build_from none ts alerts = refl
  append_alert-build_from (some t) ts alerts =
      let new = build_node_alert p node t (p.of_int32 1) (stamps (length alerts)) in
      let size : length (alerts ++ new ∷ []) ≡ suc (length alerts) =
        omega (arith, length-append alerts (new ∷ [])) in
      ap (λ n. (alerts ++ new ∷ []) ++ build_from n ts) size
      ∙ append-cons alerts new (build_from (suc (length alerts)) ts)

  build_from-All : (n : ℕ) (ts : List AlertType) → All IsCounted (build_from n ts)
  unfolding build_from
  build_from-All n [] = tt
  build_from-All n (t ∷ ts) = (build_node_alert-IsCounted p node t _ _, build_from-All (suc n) ts)

  build_from-nil : (n : ℕ) (ts : List AlertType) → (build_from n ts ≡ []) ↔ (ts ≡ [])
  unfolding build_from
  build_from-nil n [] = (λ _. refl, λ _. refl)
  build_from-nil n (t ∷ ts) = (λ e. cc, λ e. cc)

  check_conditions_lem :
      (cs : List NodeCondition) (alerts : List (Alert p.Float p.Json))
      → check_conditions p stamps node cs alerts
        ≡ alerts ++ build_from (length alerts) (called_for cs)
  unfolding check_conditions called_for build_from
  check_conditions_lem [] alerts = sym (append-nil alerts)
  check_conditions_lem (c ∷ cs) alerts =
      check_conditions_lem cs (append_alert p stamps node (alert_for c.kind c.status) alerts)
      ∙ append_alert-build_from (alert_for c.kind c.status) (called_for cs) alerts
      ∙ ap (λ ts. alerts ++ build_from (length alerts) ts)
          (alert_for-rules c.kind c.status (called_for cs))

  -- A node raises exactly the alerts that its conditions call for by the table of rules (a node that
  -- is not ready, and each of the three pressures, with the alert type of its own), in their order,
  -- each under a stamp of its own; all of them fire with a severity that the service counts; and there is none
  -- exactly when every condition is in good order.
  pub evaluate_node_conditions_lem :
      (evaluate_node_conditions p stamps node ≡ build_from 0 (called_for node.conditions))
      × All IsCounted (evaluate_node_conditions p stamps node)
      × ((evaluate_node_conditions p stamps node ≡ []) ↔ All IsFine node.conditions)
  unfolding evaluate_node_conditions
  evaluate_node_conditions_lem =
      let e = check_conditions_lem node.conditions [] in
      (
        e,
        rw e (build_from-All 0 (called_for node.conditions)),
        (
          λ q.
              (called_for-IsFine node.conditions).0
                ((build_from-nil 0 (called_for node.conditions)).0 (sym e ∙ q)),
          λ f.
              e
              ∙ (build_from-nil 0 (called_for node.conditions)).1
                  ((called_for-IsFine node.conditions).1 f),
        ),
      )
