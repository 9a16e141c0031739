-- ===== src/Tasks/Effect.antt =====
-- A task from the queue of the pool to its end, while the other tasks stand still.
use monitoring_tool.Prelude.{
  ℕ, ◌<◌, ◌≡◌, refl, ◌∙◌, ap, sym, false, true, List, [], ◌∷◌, ◌++◌, some, length,
}
use monitoring_tool.Channel.{Channel, received, receive, pick}
use monitoring_tool.Platform.{Platform}
use monitoring_tool.Models.{Alert}
use monitoring_tool.Repository.{AlertRepo, RepoLaws}
use monitoring_tool.Collector.Objects.{Pod, Node}
use monitoring_tool.Collector.Metrics.{int64_pos}
use monitoring_tool.Collector.MetricsWatcher.{Thresholds}
use monitoring_tool.App.System.{Job, worker}
use monitoring_tool.App.Step as Process
use monitoring_tool.App.Step.{is_exited}
use monitoring_tool.Pool.System as Workers
use monitoring_tool.Tasks.System.{
  creating, Hand, System, task_begins, step, Reach, Reach-trans, here, next, on_take,
}
use monitoring_tool.Channel.Pick.{pick_last}
use monitoring_tool.Tasks.Statements.{take_on, take_task-running}
use monitoring_tool.Tasks.Accounting.{From, Reach-FlowInv}
use monitoring_tool.Tasks.Alone.{shared, task_runs}
use monitoring_tool.Tasks.Evaluate.{Observed, Task, evaluate, run_task, Timed-task}

module _ {F J S P N O W : Type 0} (repo : AlertRepo F J S)
    (evaluate : Job P N → W → List (Alert F J)) {alerts : S → List (Alert F J)}
    (laws : RepoLaws repo alerts) (os : List O) (interval : ℕ) (first : S) where
  begins_on :
      {s : System F J S P N O} (w : W) (job : Job P N) (rest : List (Job P N))
      → int64_pos interval ≡ true
      → From repo evaluate laws os interval first s
      → is_exited s.app.main ≡ false
      → 0 < s.app.pool.idle
      → s.app.pool.pool.task_queue.buffer ≡ job ∷ rest
      → (t : System F J S P N O) × (step repo evaluate s (task_begins w) ≡ some t)
        × (t.hands ≡ s.hands ++ (record { job = job; doing = creating (evaluate job w) }) ∷ [])
        × (shared t ≡ shared s)
        × (t.app.main ≡ s.app.main)
  unfolding step
  begins_on {s} w job rest h r m free waits =
      let inv = Reach-FlowInv repo evaluate laws os interval first h r in
      let ch : Channel (Job P N) = record s.app.pool.pool.task_queue { buffer = rest } in
      let got : receive s.app.pool.pool.task_queue ≡ received job ch = rw waits refl in
      let (u, on, same, left) = take_on s.app inv.process m free got in
      let (_, bus) = take_task-running s.app got on in
      let hand : Hand (Job P N) (Alert F J) = record {
        job = job;
        doing = creating (evaluate job w);
      } in
      let t : System F J S P N O = record s { app = u; hands = s.hands ++ hand ∷ [] } in
      (
        t,
        ap (λ q. on_take repo evaluate s w q (Process.step s.app (worker Workers.take_task))) got
            ∙ ap (on_take repo evaluate s w (received job ch)) on,
        refl,
        ap (λ b. record { store = s.store; bus = b.bus }) bus,
        same,
      )

module _ (p : Platform) {S O : Type 0} (repo : AlertRepo p.Float p.Json S)
    (thresholds : Thresholds p.Float) (restart_threshold : ℕ)
    {alerts : S → List (Alert p.Float p.Json)} (laws : RepoLaws repo alerts) (os : List O)
    (interval : ℕ) (first : S) where
  abbrev content : Task → Observed p → List (Alert p.Float p.Json)
  content = evaluate p thresholds restart_threshold

  -- In any state that the process comes to before `main` returns, with a free worker and a task at the head of
  -- the queue: the worker can take it and run it to its end while the others stand still, and
  -- then the store and the bus are what the closure of the watcher makes of them, `processEvent` of the pod or the node
  -- or a check of the metrics, whatever it reads and at any times of publication; and the tasks at work are those that were.
  pub task_effect :
      {s : System p.Float p.Json S Pod Node O} (r : Observed p) (job : Task) (waits : List Task)
      (event_at : Alert p.Float p.Json → ℕ) (check_at : ℕ → ℕ)
      → int64_pos interval ≡ true
      → From repo content laws os interval first s
      → is_exited s.app.main ≡ false
      → 0 < s.app.pool.idle
      → s.app.pool.pool.task_queue.buffer ≡ job ∷ waits
      → (t : System p.Float p.Json S Pod Node O) × Reach repo content s t
        × (t.hands ≡ s.hands)
        × (shared t
            ≡ run_task p thresholds restart_threshold repo event_at check_at job r (shared s))
  task_effect {s} r job waits event_at check_at h run m free queued =
      let (t, on, hands, sh, same) =
        begins_on repo content laws os interval first r job waits h run m free queued in
      let (batch, alerts_of, does) =
        Timed-task p thresholds restart_threshold repo event_at check_at job r (shared t) in
      let (u, ran, left, last) =
        task_runs repo content laws os interval first (length s.hands) job batch s.hands h
          (next (task_begins r) run on) (ap is_exited same ∙ m)
          (ap (pick (length s.hands)) hands
            ∙ pick_last s.hands _
            ∙ ap (λ as'. some (record { job = job; doing = creating as' }, s.hands))
                (sym alerts_of)) in
      (
        u,
        Reach-trans repo content (next (task_begins r) here on) ran,
        left,
        last ∙ does ∙ ap (run_task p thresholds restart_threshold repo event_at check_at job r) sh,
      )
