-- ===== src/Runner/Edits.antt =====
-- An edit of a task that lands while its alert is being sent.
use mathlib.Core.Option
use breckr.Base.{
  Text, ℕ, true, false, none, some, ◌≡◌, refl, ◌∙◌, ap, find, find-update_self, arith,
}
use breckr.Types.Task.{Task, TaskSpec}
use breckr.Store.Database.{Database}
use breckr.Store.Tasks.{
  has_id, UpdateTaskInput, patch_task, patch_links, is_empty_patch, update_task,
}
use breckr.Runner.{Runner, Answers, ResolvedTask, World, alert}
use breckr.Runner.Lemmas.{task_of, notified_at, tasks-record_attempts}
use breckr.Runner.Trigger.{TaskWritesWork, advance-task_of, alert_outcome}

-- The row after an edit of its spec and not of its channels.
task_of-update_task :
    (id : Text) (p : UpdateTaskInput) (s : TaskSpec) (db : Database) (row : Task)
    → p.spec ≡ some s
    → p.channel_ids ≡ none
    → task_of id db ≡ some row
    → task_of id (update_task none none id p db).0 ≡ some (patch_task p row)
unfolding update_task patch_links is_empty_patch
task_of-update_task id p s db row edits keeps stored =
    let wrote : is_empty_patch p ≡ false = ground (arith, edits) in
    rw wrote (
      rw keeps (
        find-update_self (has_id id) (patch_task p) (λ t. unfold patch_task in refl) db.tasks
        ∙ ap (Option.map (patch_task p)) stored))

module _ {P R : Type 0} (r : Runner P R) (a : Answers) (t : ResolvedTask P R) where
  -- If the spec of a task is edited, and its channels are not, while an alert of the old spec is
  -- being sent, the statements on the task row work and the alert arrives, then the stored row
  -- has the new spec and counts as already alerted.
  pub alert-edited :
      (run_id : ℕ) (v : R) (w : World) (row : Task) (p : UpdateTaskInput) (s : TaskSpec)
      → TaskWritesWork a
      → task_of t.id w.db ≡ some row
      → p.spec ≡ some s
      → p.channel_ids ≡ none
      → a.while_sending w.db ≡ (update_task none none t.id p w.db).0
      → (alert_outcome r a t v w.db).delivered ≡ true
      → (row' : Task) × (task_of t.id (alert r a t run_id v w).world.db ≡ some row')
        × (row'.spec ≡ some s)
        × (row'.condition_met ≡ true)
  unfolding alert patch_task
  alert-edited run_id v w row p s works stored edits keeps meanwhile arrived = (
    notified_at a.notified_at (patch_task p row),
    advance-task_of a t.id _ _ (patch_task p row) works (
          ap (find (has_id t.id)) (tasks-record_attempts a.attempts a.attempted_at run_id _ _)
          ∙ ap (task_of t.id) meanwhile
          ∙ task_of-update_task t.id p s w.db row edits keeps stored)
        ∙ ground (arith, arrived),
    ground (arith, edits),
    refl,
  )
