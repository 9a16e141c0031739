-- ===== src/App/Submissions.antt =====
-- The submissions keep what holds of the process.
use monitoring_tool.Prelude.{
  ◌<◌, ◌≡◌, ◌≢◌, refl, ap, ◌∙◌, if_some, inl, inr, Bool, true, false, [], ◌∷◌, Option, some,
  count_by, arith,
}
use monitoring_tool.Pool.System.{Stopper, not_called, closing, done}
use monitoring_tool.Collector.Watcher.Events.{step-WatchInv}
use monitoring_tool.App.Senders.{is_submitting, is_checking, submit_keeps, check_keeps}
use monitoring_tool.App.Step.{
  pod_task, node_task, check_task, context_seen, answer, move, position, job_of,
}
use monitoring_tool.Pool.System
use monitoring_tool.Collector.Watcher.{Dispatching, dispatch_returned}
use monitoring_tool.Collector.MetricsLoop.{Looping, loop_returned}
use monitoring_tool.App.Invariant.{AppInv, stopper_at, held, owned}
use mathlib.Core.Path.{subst}
use monitoring_tool.App.Frames.{
  KeptPool, same-KeptPool, pod_watcher-AppInv, node_watcher-AppInv, metrics_loop-AppInv,
}
use monitoring_tool.App.System.{
  with_pods-some, with_nodes-some, with_metrics-some, Job, Who, pods, nodes, metrics, Position,
  at_context, at_check, Main, App, owner, same_who, rank,
}

pub pods_task :
    {P N : Type 0} (d : Dispatching P) {j : Job P N}
    → pod_task d ≡ some j
    → (owner j ≡ pods) × (is_submitting d ≡ true)
pods_task d e = ground arith

pub nodes_task :
    {P N : Type 0} (d : Dispatching N) {j : Job P N}
    → node_task d ≡ some j
    → (owner j ≡ nodes) × (is_submitting d ≡ true)
nodes_task d e = ground arith

pub checks_task :
    {P N : Type 0} (l : Looping) {j : Job P N}
    → check_task l ≡ some j
    → (owner j ≡ metrics) × (is_checking l ≡ true)
checks_task l e = ground arith

pub submitting_not_gone :
    {E : Type 0} (d : Dispatching E) → is_submitting d ≡ true → d ≢ dispatch_returned
submitting_not_gone d b q = ground arith

pub checking_not_gone : (l : Looping) → is_checking l ≡ true → l ≢ loop_returned
checking_not_gone l b q = ground arith

pub stopped_late : (m : Main) → stopper_at m ≡ done → 10 < rank m
stopped_late m e = ground arith

pub owned_one :
    {P N : Type 0} (who : Who) (j : Job P N) → owner j ≡ who → count_by (owned who) (j ∷ []) ≡ 1
owned_one who j q = ground arith

pub owned_none :
    {P N : Type 0} (who o : Who) (j : Job P N)
    → owner j ≡ who
    → same_who o who ≡ false
    → count_by (owned o) (j ∷ []) ≡ 0
owned_none who o j q d = ground arith

pub same_who-eq : (a b : Who) → same_who a b ≡ true → a ≡ b
same_who-eq a b h = ground arith

module _ {P N A O : Type 0} where
  -- The tasks of the other goroutines are as many as before.
  abbrev pub OthersKept : Who → App P N A O → System.System (Job P N) → Type 0
  OthersKept who s p =
      (o : Who)
      → same_who o who ≡ false
      → count_by (owned o) p.checked ≡ count_by (owned o) s.pool.checked

  pub job_of-owner :
      (s : App P N A O) (who : Who) {j : Job P N} → job_of s who ≡ some j → owner j ≡ who
  job_of-owner s pods e = (pods_task s.pod_watcher.dispatching e).0
  job_of-owner s nodes e = (nodes_task s.node_watcher.dispatching e).0
  job_of-owner s metrics e = (checks_task s.metrics_loop.looping e).0

  -- A goroutine that is submitting may stand anywhere in SubmitWithContext.
  pub move-AppInv :
      (s : App P N A O) (p : System.System (Job P N)) (who : Who) (at : Position) (j : Job P N)
      → AppInv s
      → KeptPool s p
      → job_of s who ≡ some j
      → count_by (owned who) p.checked ≡ held at
      → OthersKept who s p
      → AppInv (move (record s { pool = p }) who at)
  move-AppInv s p pods at j inv kept has h others =
      pod_watcher-AppInv s p s.pod_watcher at inv kept inv.pods_inv inv.calm_pods refl (λ g. g)
        (λ _. (pods_task s.pod_watcher.dispatching has).1) h others
  move-AppInv s p nodes at j inv kept has h others =
      node_watcher-AppInv s p s.node_watcher at inv kept inv.nodes_inv inv.calm_nodes refl (λ g. g)
        (λ _. (nodes_task s.node_watcher.dispatching has).1) h others
  move-AppInv s p metrics at j inv kept has h others =
      metrics_loop-AppInv s p s.metrics_loop at inv kept inv.calm_metrics refl (λ g. g)
        (λ _. (checks_task s.metrics_loop.looping has).1) h others

  pub answer-AppInv :
      (s : App P N A O) (p : System.System (Job P N)) (who : Who) (accepted_it : Bool)
      {t : App P N A O}
      → AppInv s
      → KeptPool s p
      → count_by (owned who) p.checked ≡ 0
      → OthersKept who s p
      → answer (record s { pool = p }) who accepted_it ≡ some t
      → AppInv t
  answer-AppInv s p pods accepted_it inv kept h others e =
      let (w, on, eq) = with_pods-some (move (record s { pool = p }) pods at_context) _ e in
      let (fl, pa, gone) = submit_keeps s.pod_watcher accepted_it on in
      subst AppInv eq (
        pod_watcher-AppInv s p w at_context inv kept (step-WatchInv _ _ _ inv.pods_inv on)
          (pa ∙ inv.calm_pods) fl gone (λ g. cc) h others)
  answer-AppInv s p nodes accepted_it inv kept h others e =
      let (w, on, eq) = with_nodes-some (move (record s { pool = p }) nodes at_context) _ e in
      let (fl, pa, gone) = submit_keeps s.node_watcher accepted_it on in
      subst AppInv eq (
        node_watcher-AppInv s p w at_context inv kept (step-WatchInv _ _ _ inv.nodes_inv on)
          (pa ∙ inv.calm_nodes) fl gone (λ g. cc) h others)
  answer-AppInv s p metrics accepted_it inv kept h others e =
      let (w, on, eq) = with_metrics-some (move (record s { pool = p }) metrics at_context) _ e in
      let (fl, pa, gone) = check_keeps s.metrics_loop accepted_it on in
      subst AppInv eq (
        metrics_loop-AppInv s p w at_context inv kept (pa ∙ inv.calm_metrics) fl gone (λ g. cc) h
          others)

  pub position-held :
      (s : App P N A O) (who : Who)
      → AppInv s
      → count_by (owned who) s.pool.checked ≡ held (position s who)
  position-held s pods inv = inv.pods_held
  position-held s nodes inv = inv.nodes_held
  position-held s metrics inv = inv.metrics_held

  pub see_context-AppInv :
      (s : App P N A O) (who : Who) (o : Option (Job P N)) (at : Position) {t : App P N A O}
      → AppInv s
      → job_of s who ≡ o
      → position s who ≡ at
      → context_seen s who o at ≡ some t
      → AppInv t
  see_context-AppInv s who (some j) at_context inv has there e =
      elim (if_some s.pool.cancelled (answer s who false) e) [
        | inl (over, told) ↦
            answer-AppInv s s.pool who false inv (same-KeptPool s inv)
              (position-held s who inv ∙ ap held there) (λ o _. refl) told
        | inr (going, eq) ↦ subst AppInv eq (
            move-AppInv s s.pool who at_check j inv (same-KeptPool s inv) has
              (position-held s who inv ∙ ap held there) (λ o _. refl))
      ]
  see_context-AppInv s who _ _ inv has there e = cc
