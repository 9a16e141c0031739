-- ===== src/Tasks/Following.antt =====
-- A step of the process with its tasks keeps account of where the alerts are.
use monitoring_tool.Prelude.{
  ℕ, ◌≡◌, refl, ◌∙◌, ap, sym, List, [], ◌∷◌, Option, none, some, then_some, else_some, inl, inr,
  arith, Option-cases, some_same,
}
use monitoring_tool.Channel.{pick}
use mathlib.Core.Path.{subst}
use monitoring_tool.Models.{Alert}
use monitoring_tool.Repository.{AlertRepo, RepoLaws}
use monitoring_tool.Pool.System as Workers
use monitoring_tool.App.System.{App, Job, worker}
use monitoring_tool.App.Step as Process
use monitoring_tool.App.Safety.{step-AppInv}
use monitoring_tool.Tasks.System.{
  Doing, creating, publishing, Hand, System, Action, part, task_begins, creates, publishes,
  task_ends, is_of_tasks, item, step, with_app, created_by, published_by, ended_by, is_alive,
}
use monitoring_tool.Tasks.Hands.{sum_by-pick, pick-map}
use monitoring_tool.Tasks.Others.{step-Untouched}
use monitoring_tool.Tasks.Statements.{finish_task-running}
use monitoring_tool.Tasks.Flow.{
  FlowInv, in_hand, part-FlowInv, on_take-FlowInv, created_by-FlowInv, on_publish-FlowInv,
}

module _ {F J S P N O W : Type 0} (repo : AlertRepo F J S)
    (evaluate : Job P N → W → List (Alert F J)) {alerts : S → List (Alert F J)}
    (laws : RepoLaws repo alerts) (os : List O) (first : S) where
  published_by-FlowInv :
      (s : System F J S P N O) (i now : ℕ) (job : Job P N) (doing : Doing (Alert F J))
      {t : System F J S P N O}
      → FlowInv alerts os first s
      → item i s.hands ≡ some (record { job = job; doing = doing })
      → published_by repo evaluate s i now (some (record { job = job; doing = doing })) ≡ some t
      → FlowInv alerts os first t
  published_by-FlowInv s i now job (creating rest) inv at e = cc
  published_by-FlowInv s i now job (publishing a rest) inv at e =
      on_publish-FlowInv repo evaluate laws os first s i now job a rest _ inv at refl e

  ended_by-FlowInv :
      (s : System F J S P N O) (i : ℕ) (job : Job P N) (doing : Doing (Alert F J))
      (others : List (Hand (Job P N) (Alert F J))) (o : Option (App P N (Alert F J) O))
      {t : System F J S P N O}
      → FlowInv alerts os first s
      → pick i s.hands ≡ some (record { job = job; doing = doing }, others)
      → Process.step s.app (worker (Workers.finish_task i)) ≡ o
      → ended_by repo evaluate s i (some (record { job = job; doing = doing }, others)) ≡ some t
      → FlowInv alerts os first t
  ended_by-FlowInv s i job (creating []) others (some u) inv at on e =
      let hand : Hand (Job P N) (Alert F J) = record { job = job; doing = creating [] } in
      let runs = ap (pick i) (sym inv.tasks) ∙ pick-map (λ h. h.job) i s.hands at in
      let (ran, bus) = finish_task-running s.app i runs on in
      subst (FlowInv alerts os first)
        (some_same (ap (with_app repo evaluate (record s { hands = others })) (sym on) ∙ e))
        (record {
          process = step-AppInv s.app _ inv.process on;
          bus = rw bus inv.bus;
          tasks = sym ran;
          stored = inv.stored;
          went = λ p. rw bus (omega (arith, inv.went p, sum_by-pick (in_hand p) i s.hands at));
        })
  ended_by-FlowInv s i job (creating []) others none inv at on e =
      cc (ap (with_app repo evaluate (record s { hands = others })) (sym on) ∙ e)
  ended_by-FlowInv s i job (creating (a ∷ rest)) others o inv at on e = cc
  ended_by-FlowInv s i job (publishing a rest) others o inv at on e = cc

  pub step-FlowInv :
      (s : System F J S P N O) (a : Action F J P N W) {t : System F J S P N O}
      → FlowInv alerts os first s
      → step repo evaluate s a ≡ some t
      → FlowInv alerts os first t
  unfolding step
  step-FlowInv s (part a) inv e =
      let (h, f) = else_some (is_of_tasks a) _ e in
      elim (Option-cases (Process.step s.app a)) [
        | inl stuck ↦ cc (ap (with_app repo evaluate s) (sym stuck) ∙ f)
        | inr (t, on) ↦
            let same = step-Untouched s.app a h on in
            subst (FlowInv alerts os first) (some_same (ap (with_app repo evaluate s) (sym on) ∙ f))
              (part-FlowInv repo evaluate laws os first s t inv (step-AppInv s.app a inv.process on)
                (same.bus os inv.bus) same.tasks same.accepted)
      ]
  step-FlowInv s (task_begins w) inv e =
      on_take-FlowInv repo evaluate laws os first s w _ _ inv refl refl e
  step-FlowInv s (creates i) inv e =
      let (_, f) = then_some (is_alive repo evaluate s) _ e in
      elim (Option-cases (item i s.hands)) [
        | inl nobody ↦ cc (ap (created_by repo evaluate s i) (sym nobody) ∙ f)
        | inr (h, at) ↦
            created_by-FlowInv repo evaluate laws os first s i h.job h.doing inv at
              (ap (created_by repo evaluate s i) (sym at) ∙ f)
      ]
  step-FlowInv s (publishes i now) inv e = elim (Option-cases (item i s.hands)) [
    | inl nobody ↦ cc (ap (published_by repo evaluate s i now) (sym nobody) ∙ e)
    | inr (h, at) ↦
        published_by-FlowInv s i now h.job h.doing inv at
          (ap (published_by repo evaluate s i now) (sym at) ∙ e)
  ]
  step-FlowInv s (task_ends i) inv e = elim (Option-cases (pick i s.hands)) [
    | inl nobody ↦ cc (ap (ended_by repo evaluate s i) (sym nobody) ∙ e)
    | inr ((h, others), at) ↦
        ended_by-FlowInv s i h.job h.doing others _ inv at refl
          (ap (ended_by repo evaluate s i) (sym at) ∙ e)
  ]
