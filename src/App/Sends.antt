-- ===== src/App/Sends.antt =====
-- The steps of a submission inside `Submit` keep the invariant.
use monitoring_tool.Prelude.{
  ℕ, ◌<◌, ◌≡◌, refl, sym, ap, ◌∙◌, then_some, inl, inr, true, false, List, [], ◌∷◌, Option, none,
  some, count_by, count_by-append, arith, Bool-cases,
}
use monitoring_tool.Channel.Pick.{pick_count}
use monitoring_tool.Pool.Invariant.{step-PoolInv}
use monitoring_tool.Pool.System.{Stopper, not_called, closing, done}
use monitoring_tool.App.Senders.{begin_keeps, end_keeps}
use monitoring_tool.App.Step.{
  was_accepted, stopped_seen, checks, sends_job, sent, answer, move, position, job_of,
}
use monitoring_tool.Channel.{pick}
use monitoring_tool.Pool.{SubmitError, submit_check, submit_send}
use monitoring_tool.Pool.System
use monitoring_tool.App.Invariant.{AppInv, held, is_inside, owned}
use mathlib.Core.Path.{subst}
use monitoring_tool.App.Frames.{KeptPool, same-KeptPool}
use monitoring_tool.App.System.{
  with_pool-some, Job, Who, pods, nodes, metrics, Position, at_check, at_send, App, owner, same_who,
  rank,
}
use monitoring_tool.Pool.{SubmitError, submit_send, submit_check}
use monitoring_tool.Channel.{pick}
use monitoring_tool.App.Submissions.{
  submitting_not_gone, checking_not_gone, stopped_late, owned_one, owned_none, same_who-eq,
  job_of-owner, move-AppInv, answer-AppInv, position-held,
}

module _ {P N A O : Type 0} where
  move_pool :
      (s : App P N A O) (p : System.System (Job P N)) (who : Who) (at : Position)
      → move (record s { pool = p }) who at ≡ record (move s who at) { pool = p }
  move_pool s p pods at = refl
  move_pool s p nodes at = refl
  move_pool s p metrics at = refl

  pub see_stopped-AppInv :
      (s : App P N A O) (who : Who) (o : Option (Job P N)) (at : Position) {t : App P N A O}
      → AppInv s
      → job_of s who ≡ o
      → position s who ≡ at
      → stopped_seen s who o at ≡ some t
      → AppInv t
  see_stopped-AppInv s who (some j) at_check {t} inv has there e =
      go (submit_check s.pool.pool) refl e
    where
      zero_held : count_by (owned who) s.pool.checked ≡ 0
      zero_held = position-held s who inv ∙ ap held there

      go :
          (c : Option SubmitError)
          → submit_check s.pool.pool ≡ c
          → checks s who j c ≡ some t
          → AppInv t
      go (some err) q f =
          answer-AppInv s s.pool who false inv (same-KeptPool s inv) zero_held (λ o _. refl) f
      go none q f =
          let (p, on, eq) = with_pool-some (move s who at_send) _ f in
          let (ch, st, pa) = begin_keeps s.pool j q on in
          let mine = job_of-owner s who has in
          let kept : KeptPool s p = record {
            inv = step-PoolInv _ _ inv.pool on;
            calm = pa ∙ inv.calm_pool;
            same_stopper = st;
          } in
          subst AppInv (move_pool s p who at_send ∙ eq) (
            move-AppInv s p who at_send j inv kept has
              (rw ch (
                omega (
                  arith,
                  count_by-append (owned who) s.pool.checked (j ∷ []),
                  zero_held,
                  owned_one who j mine,
                )))
              (λ o d. rw ch (
                omega (
                  arith,
                  count_by-append (owned o) s.pool.checked (j ∷ []),
                  owned_none who o j mine d,
                ))))
  see_stopped-AppInv s who _ _ inv has there e = cc

  not_late :
      (s : App P N A O) (who : Who)
      → AppInv s
      → is_inside (position s who) ≡ true
      → 10 < rank s.main
      → ⊥
  not_late s pods inv inside late =
      let gone = inv.pods_gone (omega arith) in
      let busy = inv.pods_busy inside in submitting_not_gone s.pod_watcher.dispatching busy gone
  not_late s nodes inv inside late =
      let gone = inv.nodes_gone (omega arith) in
      let busy = inv.nodes_busy inside in submitting_not_gone s.node_watcher.dispatching busy gone
  not_late s metrics inv inside late =
      let gone = inv.metrics_gone (omega arith) in
      let busy = inv.metrics_busy inside in checking_not_gone s.metrics_loop.looping busy gone

  -- While a goroutine stands inside SubmitWithContext the queue is open.
  open_queue :
      (s : App P N A O) (who : Who)
      → AppInv s
      → is_inside (position s who) ≡ true
      → s.pool.pool.task_queue.closed ≡ false
  open_queue s who inv inside = elim (Bool-cases s.pool.pool.task_queue.closed) [
    | inl closed ↦
        let late = stopped_late s.main (sym inv.stopper ∙ inv.pool.closed closed) in
        absurd (not_late s who inv inside late)
    | inr still ↦ still
  ]

  pub sent-AppInv :
      (s : App P N A O) (who : Who) (i : ℕ) (at : Position) {t : App P N A O}
      → AppInv s
      → position s who ≡ at
      → sent s who i at ≡ some t
      → AppInv t
  sent-AppInv s who i at_send {t} inv there e = picked (pick i s.pool.checked) refl e
    where
      inside : is_inside (position s who) ≡ true
      inside = ap is_inside there

      stepped :
          (j : Job P N) (rest : List (Job P N)) (o : Option (System.System (Job P N)))
          → pick i s.pool.checked ≡ some (j, rest)
          → owner j ≡ who
          → System.step s.pool (System.submit_end i) ≡ o
          → (elim o [
            | none ↦ none
            | some p ↦ answer (record s { pool = p }) who (was_accepted (submit_send s.pool.pool j))
          ])
            ≡ some t
          → AppInv t
      stepped j rest none got mine on f = cc
      stepped j rest (some p) got mine on f =
          let (ch, st, pa) = end_keeps s.pool i j rest got (open_queue s who inv inside) on in
          let same = pick_count i s.pool.checked j rest got in
          let one = position-held s who inv ∙ ap held there in
          let kept : KeptPool s p = record {
            inv = step-PoolInv _ _ inv.pool on;
            calm = pa ∙ inv.calm_pool;
            same_stopper = st;
          } in
          answer-AppInv s p who _ inv kept
            (rw ch (omega (arith, same (owned who), one, owned_one who j mine)))
            (λ o d. rw ch (omega (arith, same (owned o), owned_none who o j mine d))) f

      picked :
          (r : Option (Job P N × List (Job P N)))
          → pick i s.pool.checked ≡ r
          → sends_job s who i r ≡ some t
          → AppInv t
      picked none got f = cc
      picked (some (j, rest)) got f =
          let (mine, g) = then_some (same_who (owner j) who) _ f in
          stepped j rest (System.step s.pool (System.submit_end i)) got (same_who-eq _ _ mine) refl
            g
  sent-AppInv s who i _ inv there e = cc
