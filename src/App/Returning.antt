-- ===== src/App/Returning.antt =====
-- SubmitWithContext returns to each of its callers.
use monitoring_tool.Prelude.{
  if_then, if_else, ◌≡◌, refl, ◌∙◌, inl, inr, false, some, Option-cases, Bool-cases,
}
use monitoring_tool.Pool.{submit_check, submit_send}
use monitoring_tool.Pool.System
use monitoring_tool.App.System.{
  Job, Who, pods, nodes, metrics, Position, at_context, at_check, at_send, App, Action, see_context,
  see_stopped, send,
}
use monitoring_tool.App.Step.{act, job_of, position, move, is_exited, was_accepted, here, next}
use monitoring_tool.App.Invariant.{AppInv, owned, held}
use monitoring_tool.App.Safety.{step-AppInv}
use monitoring_tool.App.Submissions.{position-held}
use monitoring_tool.Prelude.{ap}
use monitoring_tool.App.Answering.{
  pick-some, end_some, begin_some, Settled, answers, Reach-trans, acts, calm_senders, Replied,
  by_answer,
}

module _ {P N A O : Type 0} where
  job_pool :
      (s : App P N A O) (p : System.System (Job P N)) (who : Who)
      → job_of (record s { pool = p }) who ≡ job_of s who
  job_pool s p pods = refl
  job_pool s p nodes = refl
  job_pool s p metrics = refl

  Settled-pool :
      (s t : App P N A O) (p : System.System (Job P N)) (who : Who)
      → Settled who (record s { pool = p }) t
      → Settled who s t
  Settled-pool s t p pods h = h
  Settled-pool s t p nodes h = h
  Settled-pool s t p metrics h = h

  ends_at_send :
      (s : App P N A O) (who : Who) (j : Job P N)
      → AppInv s
      → is_exited s.main ≡ false
      → job_of s who ≡ some j
      → position s who ≡ at_send
      → Replied who s
  ends_at_send s who j inv m has there =
      let (i, x, rest, got, mine) =
        pick-some (owned who) s.pool.checked 0 (position-held s who inv ∙ ap held there) in
      let (p, on) = end_some s.pool i x rest inv.calm_pool got in
      let (t, e, k, settled) =
        answers (record s { pool = p }) who j (was_accepted (submit_send s.pool.pool x))
          (calm_senders s inv) (job_pool s p who ∙ has) in
      by_answer s t who (send who i) inv m (rw there (rw got (rw mine (rw on e)))) k
        (Settled-pool s t p who settled)

  -- The goroutine has gone on to a later position of the same submission.
  record Entered (s u : App P N A O) (who : Who) (at : Position) : Type 0 where
    same_main : u.main ≡ s.main
    same_job : job_of u who ≡ job_of s who
    stands : position u who ≡ at
    settles : (t : App P N A O) → Settled who u t → Settled who s t

  move-Entered : (s : App P N A O) (who : Who) (at : Position) → Entered s (move s who at) who at
  move-Entered s pods at = record {
    same_main = refl;
    same_job = refl;
    stands = refl;
    settles = λ t h. h;
  }
  move-Entered s nodes at = record {
    same_main = refl;
    same_job = refl;
    stands = refl;
    settles = λ t h. h;
  }
  move-Entered s metrics at = record {
    same_main = refl;
    same_job = refl;
    stands = refl;
    settles = λ t h. h;
  }

  begin-Entered :
      (s : App P N A O) (p : System.System (Job P N)) (who : Who) (at : Position)
      → Entered s (record (move s who at) { pool = p }) who at
  begin-Entered s p pods at = record {
    same_main = refl;
    same_job = refl;
    stands = refl;
    settles = λ t h. h;
  }
  begin-Entered s p nodes at = record {
    same_main = refl;
    same_job = refl;
    stands = refl;
    settles = λ t h. h;
  }
  begin-Entered s p metrics at = record {
    same_main = refl;
    same_job = refl;
    stands = refl;
    settles = λ t h. h;
  }

  -- A run that goes on from there.
  after :
      (s u : App P N A O) (who : Who) (at : Position) (a : Action P N A)
      → AppInv s
      → is_exited s.main ≡ false
      → act s a ≡ some u
      → Entered s u who at
      → (AppInv u → is_exited u.main ≡ false → Replied who u)
      → Replied who s
  after s u who at a inv m e entered goes =
      let on = acts s a inv m e in
      let (t, r, i, k, settled) =
        goes (step-AppInv s a inv on) (ap is_exited entered.same_main ∙ m) in
      (t, Reach-trans (next a here on) r, i, k ∙ entered.same_main, entered.settles t settled)

  ends_at_check :
      (s : App P N A O) (who : Who) (j : Job P N)
      → AppInv s
      → is_exited s.main ≡ false
      → job_of s who ≡ some j
      → position s who ≡ at_check
      → Replied who s
  ends_at_check s who j inv m has there = elim (Option-cases (submit_check s.pool.pool)) [
    | inl going ↦
        let (p, on) = begin_some s.pool j inv.calm_pool in
        let u = record (move s who at_send) { pool = p } in
        let entered = begin-Entered s p who at_send in
        after s u who at_send (see_stopped who) inv m (rw has (rw there (rw going (rw on refl))))
          entered (λ i k. ends_at_send u who j i k (entered.same_job ∙ has) entered.stands)
    | inr (e, refused) ↦
        let (t, f, k, settled) = answers s who j false (calm_senders s inv) has in
        by_answer s t who (see_stopped who) inv m (rw has (rw there (rw refused f))) k settled
  ]

  ends_at_context :
      (s : App P N A O) (who : Who) (j : Job P N)
      → AppInv s
      → is_exited s.main ≡ false
      → job_of s who ≡ some j
      → position s who ≡ at_context
      → Replied who s
  ends_at_context s who j inv m has there = elim (Bool-cases s.pool.cancelled) [
    | inl over ↦
        let (t, f, k, settled) = answers s who j false (calm_senders s inv) has in
        by_answer s t who (see_context who) inv m
          (rw has (rw there (if_then s.pool.cancelled _ _ over ∙ f))) k settled
    | inr going ↦
        let u = move s who at_check in
        let entered = move-Entered s who at_check in
        after s u who at_check (see_context who) inv m
          (rw has (rw there (if_else s.pool.cancelled _ _ going))) entered
          (λ i k. ends_at_check u who j i k (entered.same_job ∙ has) entered.stands)
  ]

  -- SubmitWithContext returns, wherever the goroutine stands in it.
  pub submission_ends :
      (s : App P N A O) (who : Who) (j : Job P N)
      → AppInv s
      → is_exited s.main ≡ false
      → job_of s who ≡ some j
      → Replied who s
  submission_ends s who j inv m has = from (position s who) refl
    where
      from : (at : Position) → position s who ≡ at → Replied who s
      from at_context there = ends_at_context s who j inv m has there
      from at_check there = ends_at_check s who j inv m has there
      from at_send there = ends_at_send s who j inv m has there
