-- ===== src/Tasks/Refinement.antt =====
-- A run of the tasks as the process without their content sees it.
use monitoring_tool.Prelude.{
  ◌⊎◌, String, ℕ, ◌≡◌, refl, ◌∙◌, ap, sym, List, [], ◌∷◌, Option, none, some, else_some, then_some,
  inl, inr, Option-cases, some_same,
}
use monitoring_tool.Channel.{Receiving, received, drained, blocked, pick}
use mathlib.Core.Path.{subst}
use monitoring_tool.Models.{Alert}
use monitoring_tool.Repository.{AlertRepo}
use monitoring_tool.Processor.Bus
use monitoring_tool.Processor.Bus.{new_event_bus}
use monitoring_tool.Processor.StateManager.{event_at}
use monitoring_tool.Pool.System as Workers
use monitoring_tool.App.System as Parts
use monitoring_tool.App.System.{App, Job, worker, bus_act, rank}
use monitoring_tool.App.Step as Process
use monitoring_tool.Tasks.System.{
  Doing, creating, publishing, Hand, System, Action, part, task_begins, creates, publishes,
  task_ends, is_of_tasks, item, step, Reach, here, next, on_take, with_app, created_by, on_create,
  published_by, on_publish, ended_by, is_alive,
}

module _ {F J S P N O W : Type 0} (repo : AlertRepo F J S)
    (evaluate : Job P N → W → List (Alert F J)) where
  -- What a step of the tasks is for the process without their content: one of its steps, or none.
  abbrev Seen : App P N (Alert F J) O → App P N (Alert F J) O → Type 0
  Seen s t = (t ≡ s) ⊎ ((x : Parts.Action P N (Alert F J)) × (Process.step s x ≡ some t))

  with_app-Seen :
      (s : System F J S P N O) (x : Parts.Action P N (Alert F J))
      (o : Option (App P N (Alert F J) O)) {t : System F J S P N O}
      → Process.step s.app x ≡ o
      → with_app repo evaluate s o ≡ some t
      → Seen s.app t.app
  with_app-Seen s x (some u) on e = inr (x, on ∙ ap (λ t. some t.app) (some_same e))
  with_app-Seen s x none on e = cc

  on_take-Seen :
      (s : System F J S P N O) (w : W) (r : Receiving (Job P N))
      (o : Option (App P N (Alert F J) O)) {t : System F J S P N O}
      → Process.step s.app (worker Workers.take_task) ≡ o
      → on_take repo evaluate s w r o ≡ some t
      → Seen s.app t.app
  on_take-Seen s w (received job ch) (some u) on e =
      inr (worker Workers.take_task, on ∙ ap (λ t. some t.app) (some_same e))
  on_take-Seen s w (received job ch) none on e = cc
  on_take-Seen s w drained o on e = cc
  on_take-Seen s w blocked o on e = cc

  on_create-app :
      (s : System F J S P N O) (i : ℕ) (job : Job P N) (a : Alert F J) (rest : List (Alert F J))
      (r : S × Option String)
      → (on_create repo evaluate s i job a rest r).app ≡ s.app
  on_create-app s i job a rest (st, none) = refl
  on_create-app s i job a rest (st, some e) = refl

  created_by-Seen :
      (s : System F J S P N O) (i : ℕ) (job : Job P N) (doing : Doing (Alert F J))
      {t : System F J S P N O}
      → created_by repo evaluate s i (some (record { job = job; doing = doing })) ≡ some t
      → Seen s.app t.app
  created_by-Seen s i job (creating []) e = cc
  created_by-Seen s i job (creating (a ∷ rest)) e =
      inl
        (ap (λ t. t.app) (sym (some_same e)) ∙ on_create-app s i job a rest (repo.create s.store a))
  created_by-Seen s i job (publishing a rest) e = cc

  on_publish-Seen :
      (s : System F J S P N O) (i now : ℕ) (job : Job P N) (a : Alert F J) (rest : List (Alert F J))
      (o : Option (App P N (Alert F J) O)) {t : System F J S P N O}
      → Process.step s.app (bus_act (Bus.publishes (event_at a now))) ≡ o
      → on_publish repo evaluate s i job (event_at a now) rest o ≡ some t
      → Seen s.app t.app
  on_publish-Seen s i now job a rest (some u) on e =
      inr (bus_act (Bus.publishes (event_at a now)), on ∙ ap (λ t. some t.app) (some_same e))
  on_publish-Seen s i now job a rest none on e = cc

  published_by-Seen :
      (s : System F J S P N O) (i now : ℕ) (job : Job P N) (doing : Doing (Alert F J))
      {t : System F J S P N O}
      → published_by repo evaluate s i now (some (record { job = job; doing = doing })) ≡ some t
      → Seen s.app t.app
  published_by-Seen s i now job (creating rest) e = cc
  published_by-Seen s i now job (publishing a rest) e = on_publish-Seen s i now job a rest _ refl e

  ended_by-Seen :
      (s : System F J S P N O) (i : ℕ) (job : Job P N) (doing : Doing (Alert F J))
      (others : List (Hand (Job P N) (Alert F J))) {t : System F J S P N O}
      → ended_by repo evaluate s i (some (record { job = job; doing = doing }, others)) ≡ some t
      → Seen s.app t.app
  ended_by-Seen s i job (creating []) others e =
      with_app-Seen (record s { hands = others }) (worker (Workers.finish_task i)) _ refl e
  ended_by-Seen s i job (creating (a ∷ rest)) others e = cc
  ended_by-Seen s i job (publishing a rest) others e = cc

  step-Seen :
      (s : System F J S P N O) (a : Action F J P N W) {t : System F J S P N O}
      → step repo evaluate s a ≡ some t
      → Seen s.app t.app
  unfolding step
  step-Seen s (part a) e = with_app-Seen s a _ refl (else_some (is_of_tasks a) _ e).1
  step-Seen s (task_begins w) e = on_take-Seen s w _ _ refl e
  step-Seen s (creates i) e =
      let (_, f) = then_some (is_alive repo evaluate s) _ e in
      elim (Option-cases (item i s.hands)) [
        | inl nobody ↦ cc (ap (created_by repo evaluate s i) (sym nobody) ∙ f)
        | inr (h, at) ↦
            created_by-Seen s i h.job h.doing (ap (created_by repo evaluate s i) (sym at) ∙ f)
      ]
  step-Seen s (publishes i now) e = elim (Option-cases (item i s.hands)) [
    | inl nobody ↦ cc (ap (published_by repo evaluate s i now) (sym nobody) ∙ e)
    | inr (h, at) ↦
        published_by-Seen s i now h.job h.doing
          (ap (published_by repo evaluate s i now) (sym at) ∙ e)
  ]
  step-Seen s (task_ends i) e = elim (Option-cases (pick i s.hands)) [
    | inl nobody ↦ cc (ap (ended_by repo evaluate s i) (sym nobody) ∙ e)
    | inr ((h, others), at) ↦
        ended_by-Seen s i h.job h.doing others (ap (ended_by repo evaluate s i) (sym at) ∙ e)
  ]

  follow : {r s t : App P N (Alert F J) O} → Process.Reach r s → Seen s t → Process.Reach r t
  follow {r = r} run (inl same) = subst (Process.Reach r) (sym same) run
  follow run (inr (x, on)) = Process.next x run on

  -- Any run of the process with the content of its tasks, whatever they evaluate to and whatever the
  -- store answers, is a run of the process without that content: what holds of the one in every state
  -- holds of the other.
  pub app-Reach : {s t : System F J S P N O} → Reach repo evaluate s t → Process.Reach s.app t.app
  app-Reach here = Process.here
  app-Reach (next {t = m} a r e) = follow (app-Reach r) (step-Seen m a e)
