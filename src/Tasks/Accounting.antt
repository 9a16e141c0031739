-- ===== src/Tasks/Accounting.antt =====
-- The process with its tasks from its start: where every alert is, at any moment and at the end.
use monitoring_tool.Prelude.{
  ◌+◌, ℕ, ◌<◌, ◌≡◌, refl, ◌∙◌, ap, Bool, true, List, [], ◌∷◌, map, arith, count_by, count_by-append,
}
use monitoring_tool.Models.{Alert}
use monitoring_tool.Repository.{AlertRepo, RepoLaws}
use monitoring_tool.Processor.Bus
use monitoring_tool.Processor.Bus.{new_event_bus}
use monitoring_tool.Processor.Delivery.{start-BusInv}
use monitoring_tool.Collector.Metrics.{int64_pos}
use monitoring_tool.Pool.System as Workers
use monitoring_tool.App.System as Parts
use monitoring_tool.App.System.{App, Job, worker, bus_act, rank}
use monitoring_tool.App.Shutdown.{booted, start-AppInv, stopped_in_order}
use monitoring_tool.Tasks.System.{Hand, System, start, Reach, here, next}
use monitoring_tool.Tasks.Hands.{sum_by}
use monitoring_tool.Tasks.Flow.{FlowInv, of_alert, in_hand}
use monitoring_tool.Tasks.Following.{step-FlowInv}
use monitoring_tool.Tasks.Refinement.{app-Reach}

module _ {F J S P N O : Type 0} (alerts : S → List (Alert F J)) (os : List O) where
  -- The process as `init` leaves it, with this content of the store.
  start-FlowInv :
      (interval : ℕ) (first : S)
      → int64_pos interval ≡ true
      → FlowInv alerts os first (start {P = P} {N = N} (booted os interval) first)
  unfolding Parts.start Bus.start Workers.start sum_by
  start-FlowInv interval first h = record {
    process = start-AppInv os interval h;
    bus = start-BusInv os;
    tasks = refl;
    stored = λ p. omega arith;
    went = λ p. refl;
  }

no_hands : {T A : Type 0} (hs : List (Hand T A)) → map (λ h. h.job) hs ≡ [] → hs ≡ []
no_hands [] h = refl
no_hands (x ∷ hs) h = cc

module _ {F J S P N O W : Type 0} (repo : AlertRepo F J S)
    (evaluate : Job P N → W → List (Alert F J)) {alerts : S → List (Alert F J)}
    (laws : RepoLaws repo alerts) (os : List O) (interval : ℕ) (first : S) where
  -- From this state of the store to `s`.
  abbrev pub From : System F J S P N O → Type 0
  From s = Reach repo evaluate (start (booted os interval) first) s

  pub Reach-FlowInv :
      {s : System F J S P N O} → int64_pos interval ≡ true → From s → FlowInv alerts os first s
  Reach-FlowInv h here = start-FlowInv alerts os interval first h
  Reach-FlowInv h (next {t = m} a r e) =
      step-FlowInv repo evaluate laws os first m a (Reach-FlowInv h r) e

  -- In any run of the process with its tasks, from a positive interval and any content of a store
  -- that keeps its promises, and whatever the tasks evaluate to: at every moment the store holds,
  -- of the alerts that pass any test, those it held at the start, those whose events went to the
  -- observers, those whose events wait on the bus, those whose events were dropped because the bus
  -- was full, and those that a task has created and not yet published. So the bus has taken an alert
  -- at most as often as the run has stored it.
  pub accounted :
      {s : System F J S P N O}
      → int64_pos interval ≡ true
      → From s
      → (p : Alert F J → Bool)
      → count_by p (alerts s.store)
        ≡ count_by p (alerts first)
          + count_by (of_alert p) s.app.bus.dispatched
          + count_by (of_alert p) s.app.bus.bus.event_chan.buffer
          + count_by (of_alert p) s.dropped
          + sum_by (in_hand p) s.hands
  accounted {s} h r p =
      let inv = Reach-FlowInv h r in
      omega (
        arith,
        inv.stored p,
        inv.went p,
        ap (count_by (of_alert p)) inv.bus.fifo,
        count_by-append (of_alert p) s.app.bus.dispatched s.app.bus.bus.event_chan.buffer,
      )

  -- Once `main` is past the pool's `Stop` no task is at work: each alert that was created during the run
  -- has been published, so it has gone to the observers, or waits on the bus, or was dropped.
  pub settled :
      {s : System F J S P N O}
      → int64_pos interval ≡ true
      → From s
      → 10 < rank s.app.main
      → (s.hands ≡ [])
        × ((p : Alert F J → Bool)
            → count_by p (alerts s.store)
              ≡ count_by p (alerts first)
                + count_by (of_alert p) s.app.bus.dispatched
                + count_by (of_alert p) s.app.bus.bus.event_chan.buffer
                + count_by (of_alert p) s.dropped)
  unfolding sum_by
  settled {s} h r late =
      let (_, idle, _, _, _, _) = stopped_in_order os interval h (app-Reach repo evaluate r) late in
      let none_left = no_hands s.hands ((Reach-FlowInv h r).tasks ∙ idle) in
      (none_left, λ p. omega (arith, accounted h r p, ap (sum_by (in_hand p)) none_left))
