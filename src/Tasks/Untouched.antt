-- ===== src/Tasks/Untouched.antt =====
-- What it is that an action of the process leaves the tasks and the bus as they are.
use monitoring_tool.Prelude.{◌≡◌, refl, ◌∙◌, ap, Bool, true, false, List, some, sym, arith}
use monitoring_tool.Pool.System as Workers
use monitoring_tool.Processor.Bus
use monitoring_tool.Processor.Delivery.{BusInv, step-BusInv}
use monitoring_tool.App.System.{
  App, Job, Who, pods, nodes, metrics, Position, at_context, worker, bus_act, with_pool,
  with_pool-some, with_pods-some, with_nodes-some, with_metrics-some,
}
use monitoring_tool.App.Step.{answer, move}
use monitoring_tool.Tasks.System.{is_of_tasks}

abbrev is_of_workers : {T : Type 0} → Workers.Action T → Bool
is_of_workers Workers.take_task = true
is_of_workers (Workers.finish_task i) = true
is_of_workers _ = false

abbrev is_publication : {A : Type 0} → Bus.Action A → Bool
is_publication (Bus.publishes e) = true
is_publication _ = false

module _ {T : Type 0} where
  pub runs_on :
      (s : Workers.System T) (a : Workers.Action T) {t : Workers.System T}
      → is_of_workers a ≡ false
      → Workers.step s a ≡ some t
      → t.running ≡ s.running
  unfolding Workers.step
  runs_on s a w e = ground arith

module _ {A O : Type 0} where
  accepts_none :
      (s : Bus.System A O) (a : Bus.Action A) {t : Bus.System A O}
      → is_publication a ≡ false
      → Bus.step s a ≡ some t
      → t.accepted ≡ s.accepted
  unfolding Bus.step
  accepts_none s a w e = ground arith

pub of_workers :
    {P N : Type 0} (A : Type 0) (a : Workers.Action (Job P N))
    → is_of_tasks {P = P} {N = N} {A = A} (worker a) ≡ false
    → is_of_workers a ≡ false
of_workers A a h = ground arith

pub publication :
    (P N : Type 0) {A : Type 0} (a : Bus.Action A)
    → is_of_tasks {P = P} {N = N} {A = A} (bus_act a) ≡ false
    → is_publication a ≡ false
publication P N a h = ground arith

module _ {P N A O : Type 0} where
  pub record Untouched (s t : App P N A O) : Type 0 where
    pub tasks : t.pool.running ≡ s.pool.running
    pub accepted : t.bus.accepted ≡ s.bus.accepted
    pub bus : (os : List O) → BusInv os 200 s.bus → BusInv os 200 t.bus

  pub same_bus :
      {s t : App P N A O} → t.pool.running ≡ s.pool.running → t.bus ≡ s.bus → Untouched s t
  same_bus p b = record { tasks = p; accepted = ap (λ b. b.accepted) b; bus = λ os inv. rw b inv }

  pub acts_on_bus :
      {s t : App P N A O} (a : Bus.Action A)
      → is_publication a ≡ false
      → Bus.step s.bus a ≡ some t.bus
      → t.pool.running ≡ s.pool.running
      → Untouched s t
  acts_on_bus {s} {t} a h e p = record {
    tasks = p;
    accepted = accepts_none s.bus a h e;
    bus = λ os inv. step-BusInv os 200 s.bus a inv e;
  }

  pub answer_same :
      (s : App P N A O) (who : Who) (done : Bool) {t : App P N A O}
      → answer s who done ≡ some t
      → (t.pool ≡ s.pool) × (t.bus ≡ s.bus)
  answer_same s pods done e =
      let (w, on, eq) = with_pods-some (move s pods at_context) _ e in
      (ap (λ t. t.pool) (sym eq), ap (λ t. t.bus) (sym eq))
  answer_same s nodes done e =
      let (w, on, eq) = with_nodes-some (move s nodes at_context) _ e in
      (ap (λ t. t.pool) (sym eq), ap (λ t. t.bus) (sym eq))
  answer_same s metrics done e =
      let (w, on, eq) = with_metrics-some (move s metrics at_context) _ e in
      (ap (λ t. t.pool) (sym eq), ap (λ t. t.bus) (sym eq))

  pub move_same :
      (s : App P N A O) (who : Who) (at : Position)
      → ((move s who at).pool ≡ s.pool) × ((move s who at).bus ≡ s.bus)
  move_same s pods at = (refl, refl)
  move_same s nodes at = (refl, refl)
  move_same s metrics at = (refl, refl)

  pub answer-Untouched :
      (s : App P N A O) (who : Who) (done : Bool) {t : App P N A O}
      → answer s who done ≡ some t
      → Untouched s t
  answer-Untouched s who done e =
      let (p, b) = answer_same s who done e in same_bus (ap (λ p. p.running) p) b

  pub move-Untouched : (s : App P N A O) (who : Who) (at : Position) → Untouched s (move s who at)
  move-Untouched s who at = let (p, b) = move_same s who at in same_bus (ap (λ p. p.running) p) b

  -- An action on the pool that is none of its workers' tasks.
  pub pool-Untouched :
      (s u : App P N A O) (a : Workers.Action (Job P N)) {t : App P N A O}
      → is_of_workers a ≡ false
      → u.bus ≡ s.bus
      → with_pool u (Workers.step s.pool a) ≡ some t
      → Untouched s t
  pool-Untouched s u a h b e =
      let (p, on, eq) = with_pool-some u _ e in
      same_bus (ap (λ t. t.pool.running) (sym eq) ∙ runs_on s.pool a h on)
        (ap (λ t. t.bus) (sym eq) ∙ b)
