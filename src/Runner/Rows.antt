-- ===== src/Runner/Rows.antt =====
-- The run row, from its insertion to its last UPDATE.
use breckr.Base.{Text, List, [], ◌∷◌, Bool, true, false, Option, none, some, ◌++◌, ◌≡◌, ◌↔◌, ◌⊎◌, ℕ}
use breckr.Types.Notify.{sent, NotificationReason, NotificationOutcome, Message}
use breckr.Types.Run.{Run, success, failed, RunOutcome}
use breckr.Store.Database.{Database}
use breckr.Store.Runs.{CompleteRunInput}
use breckr.Runner.{Runner, Answers, ResolvedTask, World, complete}

-- The row has what the final UPDATE gave it.
pub record Finished (now : Text) (i : CompleteRunInput) (row : Run) : Type 0 where
  pub ended : row.finished_at ≡ some now
  pub with_status : row.status ≡ i.status
  pub with_condition : row.condition_met ≡ i.condition_met
  pub with_notified : row.notified ≡ i.notified
  pub with_reason : row.notification_status ≡ i.notification_status

-- What is true of the final UPDATE of a run, whatever branch it took.
pub record Terminal (run_id : ℕ) (i : CompleteRunInput) (o : RunOutcome) : Type 0 where
  pub same_run : (i.id ≡ run_id) × (o.run_id ≡ run_id)
  pub same_status : i.status ≡ o.status
  pub is_terminal : (o.status ≡ success) ⊎ (o.status ≡ failed)
  pub same_condition : i.condition_met ≡ o.condition_met
  pub same_notified : i.notified ≡ o.notified
  pub notified_iff_sent : (i.notified ≡ true) ↔ (i.notification_status ≡ some sent)
  pub notified_needs_condition : i.notified ≡ true → i.condition_met ≡ true

-- A delivered outcome says "sent", and came of a condition that was met.
abbrev Honest : Bool → NotificationOutcome → Type 0
Honest met o = ((o.delivered ≡ true) ↔ (o.reason ≡ some sent)) × (o.delivered ≡ true → met ≡ true)

module _ {P R : Type 0} (r : Runner P R) (a : Answers) (t : ResolvedTask P R) where
  -- What is recorded of the alert: either none was handed to the dispatcher, and nothing was sent, or
  -- one was, and what the dispatcher answered to it is recorded.
  abbrev pub Tells :
      List (Text × Message)
      → Database
      → List (Text × Message)
      → Bool
      → Option NotificationReason
      → Type 0
  Tells before db after notified reason =
      ((after ≡ before) × (notified ≡ false) × (reason ≡ none))
      ⊎ ((m : Message) × (after ≡ before ++ (t.id, m) ∷ [])
          × (notified ≡ (r.dispatcher.dispatch_task db t.id m).aggregate.delivered)
          × (reason ≡ (r.dispatcher.dispatch_task db t.id m).aggregate.reason))

  -- The run ends in one `complete`, with an input that agrees with the outcome and the alert.
  abbrev Completes : ℕ → List (Text × Message) → Database → World × RunOutcome → Type 0
  Completes run_id before db (w', o) =
      (i : CompleteRunInput) × (w : World) × (w' ≡ complete r a i w)
      × Terminal run_id i o
      × Tells before db w.sent i.notified i.notification_status

  -- What the run row of a finished run says: it has ended, in the outcome's own terminal state, and
  -- it counts as notified exactly when the alert was sent, which takes a condition that was met.
  pub record Settled (before : List (Text × Message)) (db : Database)
      (after : List (Text × Message)) (o : RunOutcome) (row : Run) : Type 0 where
    pub ended : row.finished_at ≡ some a.finished_at
    pub terminal : (row.status ≡ success) ⊎ (row.status ≡ failed)
    pub as_reported :
        (row.status ≡ o.status)
        × (row.condition_met ≡ o.condition_met)
        × (row.notified ≡ o.notified)
    pub notified_iff_sent : (row.notified ≡ true) ↔ (row.notification_status ≡ some sent)
    pub notified_needs_condition : row.notified ≡ true → row.condition_met ≡ true
    pub as_answered : Tells before db after row.notified row.notification_status
