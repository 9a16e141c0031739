-- ===== src/Tasks/Others.antt =====
-- What the other goroutines of the process leave alone: the running tasks, what is on the bus.
use monitoring_tool.Prelude.{
  ℕ, ◌≡◌, refl, ◌∙◌, ap, Bool, false, List, Option, none, some, then_some, else_some, some_same,
  if_some, if◌then◌else◌, Option-cases, inl, inr, sym, arith,
}
use monitoring_tool.Channel.{pick}
use mathlib.Core.Path.{subst}
use monitoring_tool.Pool.{submit_check, submit_send}
use monitoring_tool.Pool.System as Workers
use monitoring_tool.Processor.Bus
use monitoring_tool.App.System.{
  App, Job, Who, Position, at_context, at_check, at_send, Main, serving, cancelling, metrics_stop,
  metrics_wait, pods_stop, pods_wait, nodes_stop, nodes_wait, pool_stop, pool_signal, pool_wait,
  bus_stop, bus_wait, client_stop, database_close, exited, worker, pod_act, node_act, metrics_act,
  bus_act, see_context, see_stopped, send, see_client_cancel, main_next, Action, owner, same_who,
  with_pods-some, with_nodes-some, with_metrics-some, with_bus-some, any_panicked,
}
use monitoring_tool.App.Step.{
  step, act, answer, move, main_act, context_seen, stopped_seen, sends_job, sent, checks, is_exited,
  cancels, goes_on, was_accepted,
}
use monitoring_tool.Tasks.System.{is_of_tasks}
use monitoring_tool.Tasks.Untouched.{
  Untouched, same_bus, acts_on_bus, answer_same, move_same, answer-Untouched, move-Untouched,
  pool-Untouched, runs_on, of_workers, publication,
}

module _ {P N A O : Type 0} where
  context_seen-Untouched :
      (s : App P N A O) (who : Who) (o : Option (Job P N)) (at : Position) {t : App P N A O}
      → context_seen s who o at ≡ some t
      → Untouched s t
  context_seen-Untouched s who (some j) at_context e = elim (if_some s.pool.cancelled _ e) [
    | inl (c, f) ↦ answer-Untouched s who false f
    | inr (c, f) ↦ subst (Untouched s) f (move-Untouched s who at_check)
  ]
  context_seen-Untouched s who (some j) at_check e = cc
  context_seen-Untouched s who (some j) at_send e = cc
  context_seen-Untouched s who none at e = cc

  stopped_seen-Untouched :
      (s : App P N A O) (who : Who) (o : Option (Job P N)) (at : Position) {t : App P N A O}
      → stopped_seen s who o at ≡ some t
      → Untouched s t
  stopped_seen-Untouched s who (some j) at_check e =
      elim (Option-cases (submit_check s.pool.pool)) [
        | inl free ↦
            pool-Untouched s (move s who at_send) (Workers.submit_begin j) refl
              (move_same s who at_send).1 (ap (checks s who j) (sym free) ∙ e)
        | inr (x, refused) ↦ answer-Untouched s who false (ap (checks s who j) (sym refused) ∙ e)
      ]
  stopped_seen-Untouched s who (some j) at_context e = cc
  stopped_seen-Untouched s who (some j) at_send e = cc
  stopped_seen-Untouched s who none at e = cc

  sends_job-Untouched :
      (s : App P N A O) (who : Who) (i : ℕ) (o : Option (Job P N × List (Job P N)))
      {t : App P N A O}
      → sends_job s who i o ≡ some t
      → Untouched s t
  sends_job-Untouched s who i none e = cc
  sends_job-Untouched s who i (some (j, rest)) e =
      let (w, f) = then_some (same_who (owner j) who) _ e in
      elim (Option-cases (Workers.step s.pool (Workers.submit_end i))) [
        | inl stuck ↦ ground (arith, f, stuck)
        | inr (p, on) ↦
            let g =
              sym (
                ap
                  (λ o. elim o [
                    | none ↦ none
                    | some p ↦
                        answer (record s { pool = p }) who
                          (was_accepted (submit_send s.pool.pool j))
                  ])
                  on)
              ∙ f in
            let (k, b) = answer_same (record s { pool = p }) who _ g in
            same_bus (ap (λ p. p.running) k ∙ runs_on s.pool (Workers.submit_end i) refl on) b
      ]

  sent-Untouched :
      (s : App P N A O) (who : Who) (i : ℕ) (at : Position) {t : App P N A O}
      → sent s who i at ≡ some t
      → Untouched s t
  sent-Untouched s who i at_send e = sends_job-Untouched s who i (pick i s.pool.checked) e
  sent-Untouched s who i at_context e = cc
  sent-Untouched s who i at_check e = cc

  cancels-Untouched : (s : App P N A O) → Untouched s (cancels s)
  cancels-Untouched s = record {
    tasks = refl;
    accepted = refl;
    bus = λ os inv. record {
      fixed = inv.fixed;
      sized = inv.sized;
      open_chan = inv.open_chan;
      bounded = inv.bounded;
      fifo = inv.fifo;
      complete = inv.complete;
      panic_needs_stop = inv.panic_needs_stop;
    };
  }

  goes_on-Untouched :
      (s : App P N A O) (done : Bool) (m : Main) {t : App P N A O}
      → goes_on s done m ≡ some t
      → Untouched s t
  goes_on-Untouched s done m e =
      let (_, f) = then_some done _ e in subst (Untouched s) (some_same f) (same_bus refl refl)

  main_act-Untouched :
      (s : App P N A O) (m : Main) {t : App P N A O} → main_act s m ≡ some t → Untouched s t
  main_act-Untouched s serving e = subst (Untouched s) (some_same e) (same_bus refl refl)
  main_act-Untouched s cancelling e = subst (Untouched s) (some_same e) (cancels-Untouched s)
  main_act-Untouched s metrics_stop e =
      let (w, on, eq) = with_metrics-some (record s { main = metrics_wait }) _ e in
      subst (Untouched s) eq (same_bus refl refl)
  main_act-Untouched s metrics_wait e = goes_on-Untouched s _ pods_stop e
  main_act-Untouched s pods_stop e =
      let (w, on, eq) = with_pods-some (record s { main = pods_wait }) _ e in
      subst (Untouched s) eq (same_bus refl refl)
  main_act-Untouched s pods_wait e = goes_on-Untouched s _ nodes_stop e
  main_act-Untouched s nodes_stop e =
      let (w, on, eq) = with_nodes-some (record s { main = nodes_wait }) _ e in
      subst (Untouched s) eq (same_bus refl refl)
  main_act-Untouched s nodes_wait e = goes_on-Untouched s _ pool_stop e
  main_act-Untouched s pool_stop e =
      pool-Untouched s (record s { main = if s.pool.pool.stopped then bus_stop else pool_signal })
        Workers.stop_begin refl refl e
  main_act-Untouched s pool_signal e =
      pool-Untouched s (record s { main = pool_wait }) Workers.stop_signal refl refl e
  main_act-Untouched s pool_wait e =
      pool-Untouched s (record s { main = bus_stop }) Workers.stop_finish refl refl e
  main_act-Untouched s bus_stop e =
      let (b, on, eq) = with_bus-some (record s { main = bus_wait }) _ e in
      subst (Untouched s) eq (acts_on_bus Bus.stop refl on refl)
  main_act-Untouched s bus_wait e = goes_on-Untouched s _ client_stop e
  main_act-Untouched s client_stop e = subst (Untouched s) (some_same e) (same_bus refl refl)
  main_act-Untouched s database_close e = subst (Untouched s) (some_same e) (same_bus refl refl)
  main_act-Untouched s exited e = cc

  act-Untouched :
      (s : App P N A O) (a : Action P N A) {t : App P N A O}
      → is_of_tasks a ≡ false
      → act s a ≡ some t
      → Untouched s t
  act-Untouched s (worker a) h e = pool-Untouched s s a (of_workers A a h) refl (then_some _ _ e).1
  act-Untouched s (pod_act a) h e =
      let (w, on, eq) = with_pods-some s _ (then_some _ _ e).1 in
      subst (Untouched s) eq (same_bus refl refl)
  act-Untouched s (node_act a) h e =
      let (w, on, eq) = with_nodes-some s _ (then_some _ _ e).1 in
      subst (Untouched s) eq (same_bus refl refl)
  act-Untouched s (metrics_act a) h e =
      let (w, on, eq) = with_metrics-some s _ (then_some _ _ e).1 in
      subst (Untouched s) eq (same_bus refl refl)
  act-Untouched s (bus_act a) h e =
      let (b, on, eq) = with_bus-some s _ (then_some _ _ (then_some _ _ e).1).1 in
      subst (Untouched s) eq (acts_on_bus a (publication P N a h) on refl)
  act-Untouched s (see_context who) h e = context_seen-Untouched s who _ _ e
  act-Untouched s (see_stopped who) h e = stopped_seen-Untouched s who _ _ e
  act-Untouched s (send who i) h e = sent-Untouched s who i _ e
  act-Untouched s see_client_cancel h e =
      subst (Untouched s) (some_same (then_some _ _ e).1) (same_bus refl refl)
  act-Untouched s main_next h e = main_act-Untouched s s.main e

  -- An action that is not a statement of a task leaves the tasks and what the bus took untouched.
  pub step-Untouched :
      (s : App P N A O) (a : Action P N A) {t : App P N A O}
      → is_of_tasks a ≡ false
      → step s a ≡ some t
      → Untouched s t
  unfolding step
  step-Untouched s a h e =
      let (_, f) = else_some (any_panicked s) _ e in
      let (_, g) = else_some (is_exited s.main) _ f in act-Untouched s a h g
