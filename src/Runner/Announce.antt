-- ===== src/Runner/Announce.antt =====
-- What a run announces to anyone watching.
use breckr.Base.{
  Bool, List, [], ◌∷◌, ◌++◌, Result, ok, err, ◌≡◌, refl, ◌∙◌, ap, sym, arith, ℕ, if◌then◌else◌,
  Bool-cases, inl, inr, append-nil, append_assoc,
}
use breckr.Events.{Resource, runs, tasks}
use breckr.Types.Notify.{NotifyMode}
use breckr.Types.Run.{TriggerSource}
use breckr.Store.Database.{Database, Error}
use breckr.Store.Runs.{start_run, CompleteRunInput}
use breckr.Runner.{
  Runner, Answers, ResolvedTask, World, set_db, announce, complete, execute, settle, alert,
  finish_run, judge, proceed, begun, run_task,
}

module _ {P R : Type 0} (r : Runner P R) (a : Answers) (t : ResolvedTask P R) where
  -- One publication of both resources, if there is a publisher.
  abbrev pub notice : List (List Resource)
  notice = if r.has_publisher then (runs ∷ tasks ∷ []) ∷ [] else []

  published-announce : (w : World) → (announce r w).published ≡ w.published ++ notice
  unfolding announce
  published-announce w = elim (Bool-cases r.has_publisher) [
    | inl e ↦ rw e refl
    | inr e ↦ rw e (sym (append-nil w.published))
  ]

  published-complete :
      (i : CompleteRunInput) (w : World) → (complete r a i w).published ≡ w.published ++ notice
  unfolding complete
  published-complete i w = published-announce _

  published-settle :
      (run_id : ℕ) (v : R) (met : Bool) (p : Bool × NotifyMode) (w : World)
      → (settle r a t run_id v met p w).world.published ≡ w.published
  unfolding settle alert
  published-settle run_id v met (was_met, mode) w = ground arith

  published-judge :
      (run_id : ℕ) (j : Result Error Bool × R) (w : World)
      → (judge r a t run_id j w).0.published ≡ w.published ++ notice
  unfolding judge finish_run
  published-judge run_id (ok met, v) w =
      published-complete _ _ ∙ ap (λ ps. ps ++ notice) (published-settle run_id v met _ w)
  published-judge run_id (err e, v) w = published-complete _ _

  published-proceed :
      (run_id : ℕ) (x : Result Error R) (w : World)
      → (proceed r a t run_id x w).0.published ≡ w.published ++ notice
  unfolding proceed
  published-proceed run_id (ok v) w = published-judge run_id _ w
  published-proceed run_id (err e) w = published-complete _ _

  abbrev pub started_notices : Result Error ℕ → List (List Resource)
  started_notices (ok run_id) = notice ++ notice
  started_notices (err e) = []

  published-begun :
      (x : Database × Result Error ℕ) (w : World)
      → (begun r a t x w).0.published ≡ w.published ++ started_notices x.1
  unfolding begun
  published-begun (db, err e) w = sym (append-nil w.published)
  published-begun (db, ok n) w =
      published-proceed n (execute r t) _
      ∙ ap (λ ps. ps ++ notice) (published-announce (set_db w db))
      ∙ append_assoc w.published notice notice

  -- A run that was started is announced twice whatever happens in it, and a run that could not be
  -- started is not announced.
  pub run_task_announces :
      (source : TriggerSource) (w : World)
      → (run_task r a t source w).0.published
        ≡ w.published ++ started_notices (start_run a.start a.started_at t.id source w.db).1
  unfolding run_task
  run_task_announces source w = published-begun _ w
