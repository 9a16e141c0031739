-- ===== src/Tasks/Flow.antt =====
-- Where the alerts of the tasks are: in the store, on their way to the bus, on the bus or dropped.
use monitoring_tool.Prelude.{
  map-snoc, ◌+◌, ℕ, ◌≡◌, refl, ◌∙◌, ap, sym, Bool, String, List, [], ◌∷◌, ◌++◌, Option, none, some,
  map, arith, count_by, count_by-append, some_same, if◌then◌else◌,
}
use monitoring_tool.Channel.{Receiving, received, drained, blocked, receive}
use mathlib.Core.Path.{subst}
use monitoring_tool.Models.{Alert}
use monitoring_tool.Repository.{AlertRepo, RepoLaws}
use monitoring_tool.Pool.System as Workers
use monitoring_tool.Processor.Bus.{AlertEvent}
use monitoring_tool.Processor.Bus
use monitoring_tool.Processor.Delivery.{BusInv, step-BusInv}
use monitoring_tool.Processor.StateManager.{event_at}
use monitoring_tool.App.System.{App, Job, worker, bus_act}
use monitoring_tool.App.Step as Process
use monitoring_tool.App.Invariant.{AppInv}
use monitoring_tool.App.Safety.{step-AppInv}
use monitoring_tool.Tasks.System.{
  Doing, creating, publishing, Hand, System, item, on_take, created_by, on_create, on_publish,
  now_doing,
}
use monitoring_tool.Tasks.Hands.{sum_by, sum_by-snoc, sum_by-put_at, map-put_at}
use monitoring_tool.Tasks.Statements.{take_task-running, publishes-bus, publishes-counted}

module _ {F J : Type 0} where
  abbrev pub of_alert : (Alert F J → Bool) → AlertEvent (Alert F J) → Bool
  of_alert p e = p e.alert

  -- The alert that is stored and not yet published, if it passes the test.
  abbrev pub on_way : (Alert F J → Bool) → Doing (Alert F J) → ℕ
  on_way p (creating rest) = 0
  on_way p (publishing a rest) = if p a then 1 else 0

  abbrev pub in_hand : {T : Type 0} → (Alert F J → Bool) → Hand T (Alert F J) → ℕ
  in_hand p h = on_way p h.doing

module _ {F J S P N O : Type 0} (alerts : S → List (Alert F J)) (os : List O) (first : S) where
  pub record FlowInv (s : System F J S P N O) : Type 0 where
    pub process : AppInv s.app
    pub bus : BusInv os 200 s.app.bus
    pub tasks : map (λ h. h.job) s.hands ≡ s.app.pool.running
    pub stored :
        (p : Alert F J → Bool)
        → count_by p (alerts s.store) ≡ count_by p s.created + count_by p (alerts first)
    pub went :
        (p : Alert F J → Bool)
        → count_by p s.created
          ≡ count_by (of_alert p) s.app.bus.accepted
            + count_by (of_alert p) s.dropped
            + sum_by (in_hand p) s.hands

module _ {F J S P N O W : Type 0} (repo : AlertRepo F J S)
    (evaluate : Job P N → W → List (Alert F J)) {alerts : S → List (Alert F J)}
    (laws : RepoLaws repo alerts) (os : List O) (first : S) where
  abbrev pub Inv : System F J S P N O → Type 0
  Inv s = FlowInv alerts os first s

  pub part-FlowInv :
      (s : System F J S P N O) (t : App P N (Alert F J) O)
      → Inv s
      → AppInv t
      → BusInv os 200 t.bus
      → t.pool.running ≡ s.app.pool.running
      → t.bus.accepted ≡ s.app.bus.accepted
      → Inv (record s { app = t })
  part-FlowInv s t inv i b r a = record {
    process = i;
    bus = b;
    tasks = inv.tasks ∙ sym r;
    stored = inv.stored;
    went = λ p. rw a (inv.went p);
  }

  pub on_take-FlowInv :
      (s : System F J S P N O) (w : W) (r : Receiving (Job P N))
      (o : Option (App P N (Alert F J) O)) {t : System F J S P N O}
      → Inv s
      → receive s.app.pool.pool.task_queue ≡ r
      → Process.step s.app (worker Workers.take_task) ≡ o
      → on_take repo evaluate s w r o ≡ some t
      → Inv t
  on_take-FlowInv s w (received job ch) (some u) inv q on e =
      let (ran, bus) = take_task-running s.app q on in
      let h : Hand (Job P N) (Alert F J) = record {
        job = job;
        doing = creating (evaluate job w);
      } in
      subst Inv (some_same e) (record {
        process = step-AppInv s.app _ inv.process on;
        bus = rw bus inv.bus;
        tasks = map-snoc (λ h. h.job) s.hands h ∙ ap (λ l. l ++ job ∷ []) inv.tasks ∙ sym ran;
        stored = inv.stored;
        went = λ p. rw bus (omega (arith, inv.went p, sum_by-snoc (in_hand p) s.hands h));
      })
  on_take-FlowInv s w (received job ch) none inv q on e = cc
  on_take-FlowInv s w drained o inv q on e = cc
  on_take-FlowInv s w blocked o inv q on e = cc

  -- The i-th task goes on with something else.
  doing_on :
      (s : System F J S P N O) (i : ℕ) (job : Job P N) (was now : Doing (Alert F J))
      → item i s.hands ≡ some (record { job = job; doing = was })
      → map (λ h. h.job) s.hands ≡ s.app.pool.running
      → (map (λ h. h.job) (now_doing repo evaluate s i job now).hands ≡ s.app.pool.running)
        × ((p : Alert F J → Bool)
            → sum_by (in_hand p) (now_doing repo evaluate s i job now).hands + on_way p was
              ≡ sum_by (in_hand p) s.hands + on_way p now)
  doing_on s i job was now at h =
      let hand : Hand (Job P N) (Alert F J) = record { job = job; doing = now } in
      (
        map-put_at (λ h. h.job) i hand s.hands at refl ∙ h,
        λ p. sum_by-put_at (in_hand p) i hand s.hands at,
      )

  on_create-FlowInv :
      (s : System F J S P N O) (i : ℕ) (job : Job P N) (a : Alert F J) (rest : List (Alert F J))
      (r : S × Option String)
      → Inv s
      → item i s.hands ≡ some (record { job = job; doing = creating (a ∷ rest) })
      → repo.create s.store a ≡ r
      → Inv (on_create repo evaluate s i job a rest r)
  on_create-FlowInv s i job a rest (st, none) inv at c =
      let (same, moved) = doing_on s i job (creating (a ∷ rest)) (publishing a rest) at inv.tasks in
      record {
        process = inv.process;
        bus = inv.bus;
        tasks = same;
        stored = λ p. ground (
          arith,
          inv.stored p,
          laws.created s.store a st c p,
          count_by-append p s.created (a ∷ []),
        );
        went = λ p. ground (arith, inv.went p, moved p, count_by-append p s.created (a ∷ []));
      }
  on_create-FlowInv s i job a rest (st, some e) inv at c =
      let (same, moved) = doing_on s i job (creating (a ∷ rest)) (creating rest) at inv.tasks in
      record {
        process = inv.process;
        bus = inv.bus;
        tasks = same;
        stored = λ p. ground (arith, inv.stored p, laws.refused s.store a st e c);
        went = λ p. omega (arith, inv.went p, moved p);
      }

  pub created_by-FlowInv :
      (s : System F J S P N O) (i : ℕ) (job : Job P N) (doing : Doing (Alert F J))
      {t : System F J S P N O}
      → Inv s
      → item i s.hands ≡ some (record { job = job; doing = doing })
      → created_by repo evaluate s i (some (record { job = job; doing = doing })) ≡ some t
      → Inv t
  created_by-FlowInv s i job (creating []) inv at e = cc
  created_by-FlowInv s i job (creating (a ∷ rest)) inv at e =
      subst Inv (some_same e) (on_create-FlowInv s i job a rest (repo.create s.store a) inv at refl)
  created_by-FlowInv s i job (publishing a rest) inv at e = cc

  pub on_publish-FlowInv :
      (s : System F J S P N O) (i now : ℕ) (job : Job P N) (a : Alert F J) (rest : List (Alert F J))
      (o : Option (App P N (Alert F J) O)) {t : System F J S P N O}
      → Inv s
      → item i s.hands ≡ some (record { job = job; doing = publishing a rest })
      → Process.step s.app (bus_act (Bus.publishes (event_at a now))) ≡ o
      → on_publish repo evaluate s i job (event_at a now) rest o ≡ some t
      → Inv t
  on_publish-FlowInv s i now job a rest none inv at on e = cc
  on_publish-FlowInv s i now job a rest (some u) inv at on e =
      let (same, moved) = doing_on s i job (publishing a rest) (creating rest) at inv.tasks in
      let (pool, bus) = publishes-bus s.app (event_at a now) on in
      subst Inv (some_same e) (record {
        process = step-AppInv s.app _ inv.process on;
        bus = step-BusInv os 200 s.app.bus _ inv.bus bus;
        tasks = same ∙ ap (λ p. p.running) (sym pool);
        stored = inv.stored;
        went = λ p. ground (
          arith,
          inv.went p,
          moved p,
          publishes-counted s.app (event_at a now) s.dropped (of_alert p) inv.bus.open_chan on,
        );
      })
