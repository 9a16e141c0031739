-- ===== src/Tasks/Alone.antt =====
-- A task that runs while the others stand still, next to the loop of `processEvent`.
use monitoring_tool.Prelude.{
  ℕ, ◌≡◌, refl, ◌∙◌, ap, sym, true, false, String, List, [], ◌∷◌, Option, none, some, map, length,
  if_then,
}
use monitoring_tool.Channel.{pick, try_send}
use monitoring_tool.Models.{Alert}
use monitoring_tool.Repository.{AlertRepo, RepoLaws}
use monitoring_tool.Processor.Bus.{publish}
use monitoring_tool.Processor.StateManager.{Shared, event_at, process_alert, process_all}
use monitoring_tool.Processor.StateManager as Manager
use monitoring_tool.Collector.Metrics.{int64_pos}
use monitoring_tool.App.System.{Job}
use monitoring_tool.App.Step.{is_exited}
use monitoring_tool.App.Shutdown.{calm}
use monitoring_tool.Tasks.System.{
  creating, publishing, Hand, System, creates, publishes, task_ends, item, put_at, step, Reach,
  Reach-trans, here, next, on_create, created_by, published_by, on_publish, ended_by, is_alive,
  with_app, now_doing, dropped_by,
}
use monitoring_tool.Tasks.Hands.{
  first_of, item-put_at, put_at-put_at, put_at-item, pick-item, pick-put_at, pick-map, item-length,
  length-map,
}
use monitoring_tool.Tasks.Statements.{publishes_on, finish_on}
use monitoring_tool.Tasks.Flow.{FlowInv}
use monitoring_tool.Tasks.Following.{step-FlowInv}
use monitoring_tool.Tasks.Accounting.{From, Reach-FlowInv}

module _ {F J S P N O : Type 0} where
  -- The store and the bus of the state manager.
  abbrev pub shared : System F J S P N O → Shared F J S O
  shared s = record { store = s.store; bus = s.app.bus.bus }

module _ {F J S P N O W : Type 0} (repo : AlertRepo F J S)
    (evaluate : Job P N → W → List (Alert F J)) {alerts : S → List (Alert F J)}
    (laws : RepoLaws repo alerts) (os : List O) (first : S) where
  abbrev Inv : System F J S P N O → Type 0
  Inv s = FlowInv alerts os first s

  -- A run of the i-th task alone: it has these alerts left, and the store and the bus are `sh`.
  abbrev Becomes : System F J S P N O → ℕ → Job P N → List (Alert F J) → Shared F J S O → Type 0
  Becomes s i job rest sh =
      (t : System F J S P N O) × Reach repo evaluate s t
      × Inv t
      × (t.app.main ≡ s.app.main)
      × (t.hands ≡ put_at i (record { job = job; doing = creating rest }) s.hands)
      × (shared t ≡ sh)

  alive :
      (s : System F J S P N O)
      → Inv s
      → is_exited s.app.main ≡ false
      → is_alive repo evaluate s ≡ true
  alive s inv m = rw (calm s.app inv.process) (rw m refl)

  creates_on :
      (s : System F J S P N O) (i : ℕ) (job : Job P N) (a : Alert F J) (rest : List (Alert F J))
      → Inv s
      → is_exited s.app.main ≡ false
      → item i s.hands ≡ some (record { job = job; doing = creating (a ∷ rest) })
      → step repo evaluate s (creates i)
        ≡ some (on_create repo evaluate s i job a rest (repo.create s.store a))
  unfolding step
  creates_on s i job a rest inv m at =
      if_then (is_alive repo evaluate s) _ _ (alive s inv m) ∙ ap (created_by repo evaluate s i) at

  -- The publication of an alert that has been created.
  publishes_then :
      (s : System F J S P N O) (i now : ℕ) (job : Job P N) (a : Alert F J) (rest : List (Alert F J))
      → Inv s
      → is_exited s.app.main ≡ false
      → item i s.hands ≡ some (record { job = job; doing = publishing a rest })
      → Becomes s i job rest
          (record { store = s.store; bus = publish s.app.bus.bus (event_at a now) })
  unfolding step
  publishes_then s i now job a rest inv m at =
      let (n, len) = item-length i s.hands at in
      let (u, on, bus, same) =
        publishes_on s.app (event_at a now) n inv.process m
          (ap length (sym inv.tasks) ∙ length-map (λ h. h.job) s.hands ∙ len) in
      let t : System F J S P N O = record (now_doing repo evaluate s i job (creating rest)) {
        app = u;
        dropped =
            dropped_by s.dropped (event_at a now)
              (try_send s.app.bus.bus.event_chan (event_at a now));
      } in
      let went : step repo evaluate s (publishes i now) ≡ some t =
        ap (published_by repo evaluate s i now) at
        ∙ ap (on_publish repo evaluate s i job (event_at a now) rest) on in
      (
        t,
        next (publishes i now) here went,
        step-FlowInv repo evaluate laws os first s (publishes i now) inv went,
        same,
        refl,
        ap (λ b. record { store = s.store; bus = b }) bus,
      )

  -- One alert, with either answer of the store.
  one_alert :
      (s : System F J S P N O) (i now : ℕ) (job : Job P N) (a : Alert F J) (rest : List (Alert F J))
      (r : S × Option String)
      → Inv s
      → is_exited s.app.main ≡ false
      → item i s.hands ≡ some (record { job = job; doing = creating (a ∷ rest) })
      → repo.create s.store a ≡ r
      → Becomes s i job rest (Manager.after_create repo (shared s) a now r).0
  one_alert s i now job a rest (st, none) inv m at answered =
      let t = on_create repo evaluate s i job a rest (st, none) in
      let went : step repo evaluate s (creates i) ≡ some t =
        creates_on s i job a rest inv m at
        ∙ ap (λ r. some (on_create repo evaluate s i job a rest r)) answered in
      let still = step-FlowInv repo evaluate laws os first s (creates i) inv went in
      let (u, run, good, same, hands, sh) =
        publishes_then t i now job a rest still m (item-put_at i _ s.hands at) in
      (
        u,
        Reach-trans repo evaluate (next (creates i) here went) run,
        good,
        same,
        hands ∙ put_at-put_at i _ _ s.hands,
        sh,
      )
  one_alert s i now job a rest (st, some e) inv m at answered =
      let t = on_create repo evaluate s i job a rest (st, some e) in
      let went : step repo evaluate s (creates i) ≡ some t =
        creates_on s i job a rest inv m at
        ∙ ap (λ r. some (on_create repo evaluate s i job a rest r)) answered in
      (
        t,
        next (creates i) here went,
        step-FlowInv repo evaluate laws os first s (creates i) inv went,
        refl,
        refl,
        refl,
      )

  all_alerts :
      (s : System F J S P N O) (i : ℕ) (job : Job P N) (batch : List (Alert F J × ℕ))
      → Inv s
      → is_exited s.app.main ≡ false
      → item i s.hands ≡ some (record { job = job; doing = creating (map first_of batch) })
      → Becomes s i job [] (process_all repo (shared s) batch).0
  unfolding process_all process_alert
  all_alerts s i job [] inv m at = (s, here, inv, refl, sym (put_at-item i s.hands at), refl)
  all_alerts s i job ((a, now) ∷ rest) inv m at =
      let (t, run, good, same, hands, sh) =
        one_alert s i now job a (map first_of rest) (repo.create s.store a) inv m at refl in
      let (u, on, fine, still, left, last) =
        all_alerts t i job rest good (ap is_exited same ∙ m)
          (ap (item i) hands ∙ item-put_at i _ s.hands at) in
      (
        u,
        Reach-trans repo evaluate run on,
        fine,
        still ∙ same,
        left ∙ ap (put_at i _) hands ∙ put_at-put_at i _ _ s.hands,
        last ∙ ap (λ sh. (process_all repo sh rest).0) sh,
      )

  -- And then the end of the task.
  ends_then :
      (s : System F J S P N O) (i : ℕ) (job : Job P N) (others : List (Hand (Job P N) (Alert F J)))
      → Inv s
      → is_exited s.app.main ≡ false
      → pick i s.hands ≡ some (record { job = job; doing = creating [] }, others)
      → (t : System F J S P N O) × Reach repo evaluate s t
        × (t.hands ≡ others)
        × (shared t ≡ shared s)
  unfolding step
  ends_then s i job others inv m at =
      let (u, on, bus, _, _) =
        finish_on s.app i inv.process m
          (ap (pick i) (sym inv.tasks) ∙ pick-map (λ h. h.job) i s.hands at) in
      let t : System F J S P N O = record s { hands = others; app = u } in
      let went : step repo evaluate s (task_ends i) ≡ some t =
        ap (ended_by repo evaluate s i) at
        ∙ ap (with_app repo evaluate (record s { hands = others })) on in
      (t, next (task_ends i) here went, refl, ap (λ b. record { store = s.store; bus = b.bus }) bus)

module _ {F J S P N O W : Type 0} (repo : AlertRepo F J S)
    (evaluate : Job P N → W → List (Alert F J)) {alerts : S → List (Alert F J)}
    (laws : RepoLaws repo alerts) (os : List O) (interval : ℕ) (first : S) where
  -- In any state that the process comes to before `main` returns, a task that has its alerts before
  -- it, run with the others standing still: it comes to its end and leaves the other tasks as they
  -- were, and the store and the bus are what the loop of `processEvent` makes of them, at any times
  -- of publication.
  pub task_runs :
      {s : System F J S P N O} (i : ℕ) (job : Job P N) (batch : List (Alert F J × ℕ))
      (others : List (Hand (Job P N) (Alert F J)))
      → int64_pos interval ≡ true
      → From repo evaluate laws os interval first s
      → is_exited s.app.main ≡ false
      → pick i s.hands ≡ some (record { job = job; doing = creating (map first_of batch) }, others)
      → (t : System F J S P N O) × Reach repo evaluate s t
        × (t.hands ≡ others)
        × (shared t ≡ (process_all repo (shared s) batch).0)
  task_runs {s} i job batch others h r m at =
      let inv = Reach-FlowInv repo evaluate laws os interval first h r in
      let (t, run, good, same, hands, sh) =
        all_alerts repo evaluate laws os first s i job batch inv m (pick-item i s.hands at) in
      let (u, on, left, last) =
        ends_then repo evaluate laws os first t i job others good (ap is_exited same ∙ m)
          (ap (pick i) hands ∙ pick-put_at i _ s.hands at) in
      (u, Reach-trans repo evaluate run on, left, last ∙ sh)
