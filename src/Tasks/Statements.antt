-- ===== src/Tasks/Statements.antt =====
-- What the statements of a task do to the pool and to the bus.
use monitoring_tool.Prelude.{
  ◌+◌, ℕ, ◌≡◌, ◌∙◌, ap, sym, Bool, true, false, List, [], ◌∷◌, ◌++◌, some, then_some, else_some,
  arith, count_by, count_by-append,
}
use monitoring_tool.Channel.{Channel, received, receive, pick, try_send}
use monitoring_tool.Pool.System as Workers
use monitoring_tool.Processor.Bus
use monitoring_tool.Processor.Bus.{AlertEvent}
use monitoring_tool.App.System.{
  App, Job, Action, worker, bus_act, with_pool-some, with_bus-some, any_panicked,
}
use monitoring_tool.App.Step.{step, act, is_exited}
use monitoring_tool.Tasks.System.{dropped_by}
use monitoring_tool.App.Answering.{acts}
use monitoring_tool.App.Invariant.{AppInv}
use monitoring_tool.App.System.{with_bus, with_pool, may_publish}
use monitoring_tool.Processor.Bus.{publish}
use monitoring_tool.Prelude.{refl, enabled, length, suc, if_then, lt→ltb, ◌<◌}

module _ {T : Type 0} where
  takes :
      (s : Workers.System T) {j : T} {ch : Channel T} {t : Workers.System T}
      → receive s.pool.task_queue ≡ received j ch
      → Workers.step s Workers.take_task ≡ some t
      → t.running ≡ s.running ++ j ∷ []
  unfolding Workers.step
  takes s r e = ground (arith, r, e)

  finish_lem :
      (s : Workers.System T) (i : ℕ) {j : T} {rest : List T} {t : Workers.System T}
      → pick i s.running ≡ some (j, rest)
      → Workers.step s (Workers.finish_task i) ≡ some t
      → t.running ≡ rest
  unfolding Workers.step
  finish_lem s i r e = ground (arith, r, e)

module _ {A O : Type 0} where
  publishes :
      (s : Bus.System A O) (x : AlertEvent A) (dropped : List (AlertEvent A))
      (p : AlertEvent A → Bool) {t : Bus.System A O}
      → s.bus.event_chan.closed ≡ false
      → Bus.step s (Bus.publishes x) ≡ some t
      → count_by p t.accepted + count_by p (dropped_by dropped x (try_send s.bus.event_chan x))
        ≡ count_by p s.accepted + count_by p dropped + count_by p (x ∷ [])
  unfolding Bus.step
  publishes s x dropped p c e =
      ground
        (arith, c, e, count_by-append p s.accepted (x ∷ []), count_by-append p dropped (x ∷ []))

module _ {P N A O : Type 0} where
  acted :
      (s : App P N A O) (a : Action P N A) {t : App P N A O} → step s a ≡ some t → act s a ≡ some t
  unfolding step
  acted s a e = let (_, f) = else_some (any_panicked s) _ e in (else_some (is_exited s.main) _ f).1

  pub take_task-running :
      (s : App P N A O) {j : Job P N} {ch : Channel (Job P N)} {t : App P N A O}
      → receive s.pool.pool.task_queue ≡ received j ch
      → step s (worker Workers.take_task) ≡ some t
      → (t.pool.running ≡ s.pool.running ++ j ∷ []) × (t.bus ≡ s.bus)
  take_task-running s r e =
      let (p, on, eq) = with_pool-some s _ (then_some true _ (acted s _ e)).1 in
      (ap (λ t. t.pool.running) (sym eq) ∙ takes s.pool r on, ap (λ t. t.bus) (sym eq))

  pub finish_task-running :
      (s : App P N A O) (i : ℕ) {j : Job P N} {rest : List (Job P N)} {t : App P N A O}
      → pick i s.pool.running ≡ some (j, rest)
      → step s (worker (Workers.finish_task i)) ≡ some t
      → (t.pool.running ≡ rest) × (t.bus ≡ s.bus)
  finish_task-running s i r e =
      let (p, on, eq) = with_pool-some s _ (then_some true _ (acted s _ e)).1 in
      (ap (λ t. t.pool.running) (sym eq) ∙ finish_lem s.pool i r on, ap (λ t. t.bus) (sym eq))

  pub publishes-bus :
      (s : App P N A O) (x : AlertEvent A) {t : App P N A O}
      → step s (bus_act (Bus.publishes x)) ≡ some t
      → (t.pool ≡ s.pool) × (Bus.step s.bus (Bus.publishes x) ≡ some t.bus)
  publishes-bus s x e =
      let (b, on, eq) = with_bus-some s _ (then_some _ _ (then_some true _ (acted s _ e)).1).1 in
      (ap (λ t. t.pool) (sym eq), on ∙ ap (λ t. some t.bus) eq)

  pub publishes-counted :
      (s : App P N A O) (x : AlertEvent A) (dropped : List (AlertEvent A)) (p : AlertEvent A → Bool)
      {t : App P N A O}
      → s.bus.bus.event_chan.closed ≡ false
      → step s (bus_act (Bus.publishes x)) ≡ some t
      → count_by p t.bus.accepted
          + count_by p (dropped_by dropped x (try_send s.bus.bus.event_chan x))
        ≡ count_by p s.bus.accepted + count_by p dropped + count_by p (x ∷ [])
  publishes-counted s x dropped p c e = publishes s.bus x dropped p c (publishes-bus s x e).1

module _ {A O : Type 0} where
  published :
      (s : Bus.System A O) (x : AlertEvent A)
      → s.panicked ≡ false
      → s.bus.event_chan.closed ≡ false
      → (t : Bus.System A O) × (Bus.step s (Bus.publishes x) ≡ some t) × (t.bus ≡ publish s.bus x)
  unfolding Bus.step publish
  published s x calm c =
      let (t, on) = enabled (Bus.step s (Bus.publishes x)) (λ stuck. ground arith) in
      (t, on, ground (arith, c, on, calm))

module _ {T : Type 0} where
  finished :
      (s : Workers.System T) (i : ℕ) {j : T} {rest : List T}
      → s.panicked ≡ false
      → pick i s.running ≡ some (j, rest)
      → (t : Workers.System T) × (Workers.step s (Workers.finish_task i) ≡ some t)
        × (t.running ≡ rest)
        × (t.finished ≡ s.finished ++ j ∷ [])
  unfolding Workers.step
  finished s i calm got =
      let (t, on) =
        enabled (Workers.step s (Workers.finish_task i))
          (λ stuck. ground (arith, stuck, calm, got)) in
      (t, on, ground (arith, on, got, calm), ground (arith, on, got, calm))

module _ {P N A O : Type 0} where
  -- A task of the pool can publish, and can end, until `main` returns.
  pub publishes_on :
      (s : App P N A O) (x : AlertEvent A) (n : ℕ)
      → AppInv s
      → is_exited s.main ≡ false
      → length s.pool.running ≡ suc n
      → (t : App P N A O) × (step s (bus_act (Bus.publishes x)) ≡ some t)
        × (t.bus.bus ≡ publish s.bus.bus x)
        × (t.main ≡ s.main)
  publishes_on s x n inv m at =
      let (b, on, same) = published s.bus x inv.calm_bus inv.bus_open in
      (
        record s { bus = b },
        acts s (bus_act (Bus.publishes x)) inv m (
            if_then (may_publish s (Bus.publishes x)) _ _ (lt→ltb 0 _ (omega (arith, at)))
            ∙ ap (with_bus s) on),
        same,
        refl,
      )

  pub finish_on :
      (s : App P N A O) (i : ℕ) {j : Job P N} {rest : List (Job P N)}
      → AppInv s
      → is_exited s.main ≡ false
      → pick i s.pool.running ≡ some (j, rest)
      → (t : App P N A O) × (step s (worker (Workers.finish_task i)) ≡ some t)
        × (t.bus ≡ s.bus)
        × (t.main ≡ s.main)
        × (t.pool.finished ≡ s.pool.finished ++ j ∷ [])
  finish_on s i inv m at =
      let (p, on, _, ended) = finished s.pool i inv.calm_pool at in
      (
        record s { pool = p },
        acts s (worker (Workers.finish_task i)) inv m (ap (with_pool s) on),
        refl,
        refl,
        ended,
      )

module _ {T : Type 0} where
  taken_on :
      (s : Workers.System T) {j : T} {ch : Channel T}
      → s.panicked ≡ false
      → 0 < s.idle
      → receive s.pool.task_queue ≡ received j ch
      → (t : Workers.System T) × (Workers.step s Workers.take_task ≡ some t)
        × (t.pool.task_queue ≡ ch)
  unfolding Workers.step
  taken_on s calm free got =
      let (t, on) =
        enabled (Workers.step s Workers.take_task)
          (λ stuck. ground (arith, stuck, calm, got, free)) in
      (t, on, ground (arith, on, got, calm, free))

module _ {P N A O : Type 0} where
  -- A free worker takes the first task of the queue.
  pub take_on :
      (s : App P N A O) {j : Job P N} {ch : Channel (Job P N)}
      → AppInv s
      → is_exited s.main ≡ false
      → 0 < s.pool.idle
      → receive s.pool.pool.task_queue ≡ received j ch
      → (t : App P N A O) × (step s (worker Workers.take_task) ≡ some t)
        × (t.main ≡ s.main)
        × (t.pool.pool.task_queue ≡ ch)
  take_on s inv m free got =
      let (p, on, left) = taken_on s.pool inv.calm_pool free got in
      (
        record s { pool = p },
        acts s (worker Workers.take_task) inv m (ap (with_pool s) on),
        refl,
        left,
      )
