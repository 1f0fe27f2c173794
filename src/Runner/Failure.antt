-- ===== src/Runner/Failure.antt =====
-- Runs that fail.
use breckr.Base.{Bool, Result, ok, err, ◌≡◌, refl, ◌∙◌, ap, ◌⊎◌, inl, inr, ℕ}
use breckr.Types.Run.{TriggerSource, failed}
use breckr.Store.Database.{Database, Error}
use breckr.Store.Runs.{start_run, CompleteRunInput}
use breckr.Runner.{
  Runner, Answers, ResolvedTask, World, set_db, announce, complete, execute, evaluate, finish_run,
  judge, proceed, begun, run_task,
}
use breckr.Runner.Lemmas.{tasks-start_run}
use breckr.Runner.Trigger.{db_at_read, db-complete-tasks, sent-complete, db-announce, sent-announce}

module _ {P R : Type 0} (r : Runner P R) (a : Answers) (t : ResolvedTask P R) where
  -- Nothing was sent, and the table of tasks was left as it stood.
  abbrev Quiet : World → World → Type 0
  Quiet w w' = (w'.sent ≡ w.sent) × (w'.db.tasks ≡ w.db.tasks)

  complete-Quiet : (i : CompleteRunInput) (w : World) → Quiet w (complete r a i w)
  complete-Quiet i w = (sent-complete r a t i w, db-complete-tasks r a t i w)

  proceed-Quiet :
      (run_id : ℕ) (x : Result Error R) (w : World)
      → (proceed r a t run_id x w).1.status ≡ failed
      → Quiet w (proceed r a t run_id x w).0
  unfolding proceed
  proceed-Quiet run_id (err e) w h = complete-Quiet _ w
  proceed-Quiet run_id (ok v) w h = go (evaluate r t w.db v) h
    where
      go :
          (j : Result Error Bool × R)
          → (judge r a t run_id j w).1.status ≡ failed
          → Quiet w (judge r a t run_id j w).0
      go (ok met, v') h = absurd (unfold judge finish_run in cc)
      go (err e, v') h = unfold judge in complete-Quiet _ w

  begun-Quiet :
      (x : Database × Result Error ℕ) (w : World)
      → (begun r a t x w).1.status ≡ failed
      → ((begun r a t x w).0.sent ≡ w.sent)
        × (((begun r a t x w).0.db.tasks ≡ x.0.tasks)
            ⊎ ((begun r a t x w).0.db.tasks ≡ (a.while_running x.0).tasks))
  unfolding begun
  begun-Quiet (db, err e) w h = (refl, inl refl)
  begun-Quiet (db, ok n) w h =
      let shown = announce r (set_db w db) in
      let read = set_db shown (a.while_running shown.db) in
      let (sent, kept) = proceed-Quiet n (execute r t) read h in
      (
        sent ∙ sent-announce r a t (set_db w db),
        inr (kept ∙ ap (λ d. (a.while_running d).tasks) (db-announce r a t (set_db w db))),
      )

  -- A run that fails sends no alert and leaves the table of tasks as it was when the run began,
  -- or as others left it while the page was read.
  pub run_task_failed :
      (source : TriggerSource) (w : World)
      → (run_task r a t source w).1.status ≡ failed
      → ((run_task r a t source w).0.sent ≡ w.sent)
        × (((run_task r a t source w).0.db.tasks ≡ w.db.tasks)
            ⊎ ((run_task r a t source w).0.db.tasks ≡ (db_at_read r a t source w.db).tasks))
  unfolding run_task
  run_task_failed source w h =
      let x = start_run a.start a.started_at t.id source w.db in
      let (sent, kept) = begun-Quiet x w h in
      (
        sent,
        elim kept [
          | inl e ↦ inl (e ∙ tasks-start_run a.start a.started_at t.id source w.db)
          | inr e ↦ inr e
        ],
      )
