-- ===== src/App/Answering.antt =====
-- A submission that has begun comes to its end: SubmitWithContext does not block.
use monitoring_tool.Prelude.{
  enabled, ℕ, suc, ◌≡◌, refl, inl, inr, Bool, true, false, List, [], ◌∷◌, some, Bool-cases,
  count_by, arith,
}
use monitoring_tool.Channel.{pick}
use monitoring_tool.Pool.System
use monitoring_tool.Collector.Watcher
use monitoring_tool.Collector.Watcher.{Dispatching, selecting, submitting, dispatch_returned}
use monitoring_tool.Collector.MetricsLoop.{
  Looping, submitting_check, after_check, waiting, loop_returned,
}
use monitoring_tool.Collector.MetricsLoop
use monitoring_tool.App.Senders.{is_submitting, is_checking}
use monitoring_tool.App.System.{Job, Who, pods, nodes, metrics, at_context, App, Action}
use monitoring_tool.App.Step.{
  step, act, answer, job_of, move, is_exited, Reach, here, next, pod_task, node_task, check_task,
}
use monitoring_tool.App.Invariant.{AppInv}
use monitoring_tool.App.Safety.{step-AppInv}
use monitoring_tool.App.Shutdown.{calm}

-- Some item that passes a test is there to be picked.
pub pick-some :
    {T : Type 0} (p : T → Bool) (xs : List T) (n : ℕ)
    → count_by p xs ≡ suc n
    → (i : ℕ) × (x : T) × (rest : List T) × (pick i xs ≡ some (x, rest)) × (p x ≡ true)
pick-some p [] n h = ground (arith, h)
pick-some p (x ∷ xs) n h = elim (Bool-cases (p x)) [
  | inl passes ↦ (0, x, xs, refl, passes)
  | inr fails ↦
      let (i, y, rest, got, passes) = pick-some p xs n (ground (arith, h, fails)) in
      (suc i, y, x ∷ rest, rw got refl, passes)
]

module _ {E : Type 0} where
  pub answers_watcher :
      (w : Watcher.System E) (done : Bool)
      → w.panicked ≡ false
      → is_submitting w.dispatching ≡ true
      → (t : Watcher.System E) × (Watcher.step w (Watcher.submit_event done) ≡ some t)
        × (t.dispatching ≡ selecting)
        × (t.watching ≡ w.watching)
  unfolding Watcher.step
  answers_watcher w done c b =
      let (t, on) = enabled (Watcher.step w (Watcher.submit_event done)) (λ stuck. ground arith) in
      (t, on, ground arith, ground arith)

-- Where the metrics loop stands after the submission.
abbrev pub after_looping : Looping → Looping
after_looping (submitting_check c) = after_check c
after_looping waiting = waiting
after_looping loop_returned = loop_returned

pub answers_loop :
    (w : MetricsLoop.System) (done : Bool)
    → w.panicked ≡ false
    → is_checking w.looping ≡ true
    → (t : MetricsLoop.System) × (MetricsLoop.step w (MetricsLoop.submit_check done) ≡ some t)
      × (t.looping ≡ after_looping w.looping)
unfolding MetricsLoop.step
answers_loop w done c b =
    let (t, on) =
      enabled (MetricsLoop.step w (MetricsLoop.submit_check done)) (λ stuck. ground arith) in
    (t, on, ground arith)

module _ {T : Type 0} where
  pub end_some :
      (p : System.System T) (i : ℕ) (j : T) (rest : List T)
      → p.panicked ≡ false
      → pick i p.checked ≡ some (j, rest)
      → (q : System.System T) × (System.step p (System.submit_end i) ≡ some q)
  unfolding System.step
  end_some p i j rest c got =
      enabled (System.step p (System.submit_end i)) (λ stuck. ground (arith, stuck, c, got))

  pub begin_some :
      (p : System.System T) (j : T)
      → p.panicked ≡ false
      → (q : System.System T) × (System.step p (System.submit_begin j) ≡ some q)
  unfolding System.step
  begin_some p j c =
      enabled (System.step p (System.submit_begin j)) (λ stuck. ground (arith, stuck, c))

pub pod_task-submitting :
    {P N : Type 0} (d : Dispatching P) {j : Job P N} → pod_task d ≡ some j → is_submitting d ≡ true
pod_task-submitting (submitting e) h = refl
pod_task-submitting selecting h = cc
pod_task-submitting dispatch_returned h = cc

pub node_task-submitting :
    {P N : Type 0} (d : Dispatching N) {j : Job P N} → node_task d ≡ some j → is_submitting d ≡ true
node_task-submitting (submitting e) h = refl
node_task-submitting selecting h = cc
node_task-submitting dispatch_returned h = cc

pub check_task-checking :
    {P N : Type 0} (l : Looping) {j : Job P N} → check_task l ≡ some j → is_checking l ≡ true
check_task-checking (submitting_check c) h = refl
check_task-checking waiting h = cc
check_task-checking loop_returned h = cc

module _ {P N A O : Type 0} where
  -- What a submission of a goroutine leaves behind: where that goroutine stands.
  abbrev pub Settled : Who → App P N A O → App P N A O → Type 0
  Settled pods s t =
      (t.pod_watcher.dispatching ≡ selecting) × (t.pod_watcher.watching ≡ s.pod_watcher.watching)
  Settled nodes s t =
      (t.node_watcher.dispatching ≡ selecting) × (t.node_watcher.watching ≡ s.node_watcher.watching)
  Settled metrics s t = t.metrics_loop.looping ≡ after_looping s.metrics_loop.looping

  abbrev pub NonePanicked : App P N A O → Type 0
  NonePanicked s =
      (s.pod_watcher.panicked ≡ false)
      × (s.node_watcher.panicked ≡ false)
      × (s.metrics_loop.panicked ≡ false)

  pub answers :
      (s : App P N A O) (who : Who) (j : Job P N) (done : Bool)
      → NonePanicked s
      → job_of s who ≡ some j
      → (t : App P N A O) × (answer s who done ≡ some t) × (t.main ≡ s.main) × Settled who s t
  answers s pods j done (c, _, _) h =
      let (w, on, d, l) =
        answers_watcher s.pod_watcher done c (pod_task-submitting s.pod_watcher.dispatching h) in
      (record (move s pods at_context) { pod_watcher = w }, rw on refl, refl, (d, l))
  answers s nodes j done (_, c, _) h =
      let (w, on, d, l) =
        answers_watcher s.node_watcher done c (node_task-submitting s.node_watcher.dispatching h) in
      (record (move s nodes at_context) { node_watcher = w }, rw on refl, refl, (d, l))
  answers s metrics j done (_, _, c) h =
      let (w, on, l) =
        answers_loop s.metrics_loop done c (check_task-checking s.metrics_loop.looping h) in
      (record (move s metrics at_context) { metrics_loop = w }, rw on refl, refl, l)

  pub Reach-trans : {r s t : App P N A O} → Reach r s → Reach s t → Reach r t
  Reach-trans p here = p
  Reach-trans p (next a q e) = next a (Reach-trans p q) e

  -- In a state that satisfies the invariant an action is taken before the end of `main`.
  pub acts :
      (s : App P N A O) (a : Action P N A) {t : App P N A O}
      → AppInv s
      → is_exited s.main ≡ false
      → act s a ≡ some t
      → step s a ≡ some t
  unfolding step
  acts s a inv m e = rw (calm s inv) (rw m e)

  pub calm_senders : (s : App P N A O) → AppInv s → NonePanicked s
  calm_senders s inv = (inv.calm_pods, inv.calm_nodes, inv.calm_metrics)

  -- A run from `s` to a state where `main` stands where it stood and the goroutine has its answer.
  abbrev pub Replied : Who → App P N A O → Type 0
  Replied who s = (t : App P N A O) × Reach s t × AppInv t × (t.main ≡ s.main) × Settled who s t

  pub by_answer :
      (s t : App P N A O) (who : Who) (a : Action P N A)
      → AppInv s
      → is_exited s.main ≡ false
      → act s a ≡ some t
      → t.main ≡ s.main
      → Settled who s t
      → Replied who s
  by_answer s t who a inv m e k settled =
      let on = acts s a inv m e in (t, next a here on, step-AppInv s a inv on, k, settled)
