-- ===== src/Runner/History.antt =====
-- Many runs of one task, one after the other: how often it alerts.
use breckr.Base.{
  on_if, Bool-cases, inl, inr, Option, Text, Bool, true, false, not, ◌&&◌, none, some, List, [],
  ◌∷◌, ◌++◌, ok, ◌≡◌, refl, ◌∙◌, ap, sym, arith, ℕ, suc, ◌+◌, if◌then◌else◌, length, length-append,
  All, find-any, map, subst,
}
use breckr.Types.Notify.{
  NotifyMode, transition, always, NotificationReason, sent, disabled, error, NotificationOutcome,
}
use breckr.Types.Task.{Task}
use breckr.Types.Run.{TriggerSource}
use breckr.Store.Tasks.{has_id}
use breckr.Store.Runs.{start_run}
use breckr.Runner.{Runner, Answers, ResolvedTask, World, execute, evaluate, run_task}
use breckr.Runner.Lemmas.{task_of}
use breckr.Runner.Trigger.{
  next_task, LeavesTask, TaskWritesWork, db_at_read, run_task-next_task, alert_outcome, answered,
  fires,
}

-- One firing of a task.
pub record Visit (P R : Type 0) : Type 0 where
  pub runner : Runner P R
  pub answers : Answers
  pub task : ResolvedTask P R
  pub source : TriggerSource

module _ {P R : Type 0} where
  unfoldable pub visit : Visit P R → World → World
  visit v w = (run_task v.runner v.answers v.task v.source w).0

  unfoldable pub visit_all : List (Visit P R) → World → World
  unfolding visit
  visit_all [] w = w
  visit_all (v ∷ vs) w = visit_all vs (visit v w)

  -- In this world, the visit of this task reads its page, finds its condition met or not, and would
  -- have an alert answered with this outcome; its statements on the task's row work, and no other
  -- writes it.
  pub record Observes (id : Text) (met : Bool) (o : NotificationOutcome) (v : Visit P R) (w : World)
      : Type 0 where
    pub same_task : v.task.id ≡ id
    pub starts : v.answers.start ≡ none
    pub works : TaskWritesWork v.answers
    pub keeps : LeavesTask v.answers v.task.id
    pub value : R
    pub judged : R
    pub reads : execute v.runner v.task ≡ ok value
    pub judges :
        evaluate v.runner v.task (db_at_read v.runner v.answers v.task v.source w.db) value
        ≡ (ok met, judged)
    pub would_be_answered :
        alert_outcome v.runner v.answers v.task judged
          (db_at_read v.runner v.answers v.task v.source w.db)
        ≡ o

  -- What each visit observes in the world that the visits before it left.
  unfoldable pub Observed :
      Text → List (Bool × NotificationOutcome) → List (Visit P R) → World → Type 0
  Observed id [] [] w = Unit
  Observed id ((met, o) ∷ os) (v ∷ vs) w = Observes id met o v w × Observed id os vs (visit v w)
  Observed id _ _ w = ⊥

-- An alert that needs no other: it was sent, or no channel takes it.
unfoldable pub settles : Option NotificationReason → Bool
settles (some sent) = true
settles (some disabled) = true
settles (some error) = false
settles none = false

-- The specification of an edge detector, for the default mode: from the armed state and what each
-- run observes, the number of alerts.
pub alerts : Bool → List (Bool × NotificationOutcome) → ℕ
unfolding settles
alerts armed [] = 0
alerts armed ((met, o) ∷ os) =
    let fresh = suc (alerts (settles o.reason) os) in
    let quiet = alerts (met && armed) os in if met && not armed then fresh else quiet

answered-mode :
    (now : Text) (x : Option NotificationReason) (t : Task)
    → (answered now x t).notify_mode ≡ t.notify_mode
unfolding answered
answered-mode now (some sent) t = refl
answered-mode now (some disabled) t = refl
answered-mode now (some error) t = refl
answered-mode now none t = refl

answered-armed :
    (now : Text) (x : Option NotificationReason) (t : Task)
    → t.condition_met ≡ false
    → (answered now x t).condition_met ≡ settles x
unfolding answered settles
answered-armed now (some sent) t h = refl
answered-armed now (some disabled) t h = refl
answered-armed now (some error) t h = h
answered-armed now none t h = h

next_task-mode :
    (now : Text) (met : Bool) (o : NotificationOutcome) (t : Task)
    → t.notify_mode ≡ transition
    → (next_task now met o t).notify_mode ≡ transition
next_task-mode now met o t h =
    on_if (λ (x : Task). x.notify_mode ≡ transition) (fires met t.notify_mode t.condition_met) _ _
      (answered-mode now o.reason t ∙ h)
      (on_if (λ (x : Task). x.notify_mode ≡ transition) met _ _ h h)

fires-transition :
    (met : Bool) (mode : NotifyMode) (was : Bool)
    → mode ≡ transition
    → fires met mode was ≡ (met && not was)
unfolding fires
fires-transition false mode was h = refl
fires-transition true transition true h = refl
fires-transition true transition false h = refl
fires-transition true always was h = absurd (ground (arith, h))

-- In the default mode the specification's row is armed as the detector is.
next_task-armed :
    (now : Text) (met : Bool) (o : NotificationOutcome) (t : Task)
    → t.notify_mode ≡ transition
    → (next_task now met o t).condition_met
      ≡ (if met && not t.condition_met then settles o.reason else met && t.condition_met)
next_task-armed now met o t h =
    rw (fires-transition met t.notify_mode t.condition_met h) (elim (Bool-cases met) [
      | inl m ↦ elim (Bool-cases t.condition_met) [
        | inl e ↦ rw (m, e) refl
        | inr e ↦ rw (m, e) (answered-armed now o.reason (record t { condition_met = false }) refl)
      ]
      | inr m ↦ rw m refl
    ])

length-fires :
    {A : Type 0} (xs : List A) (x : A) (met : Bool) (mode : NotifyMode) (was_met : Bool)
    → mode ≡ transition
    → length (if fires met mode was_met then xs ++ x ∷ [] else xs)
      ≡ (if met && not was_met then suc (length xs) else length xs)
length-fires xs x met mode was_met h =
    rw (fires-transition met mode was_met h) (ground (arith, length-append {0} xs (x ∷ [])))

module _ {P R : Type 0} (v : Visit P R) (w : World) (row : Task) where
  -- The trigger of this row moves as the detector's does, and an alert is sent if one is due.
  abbrev Detects : Text → Bool → NotificationOutcome → Type 0
  Detects id met o =
      (row' : Task) × (task_of id (visit v w).db ≡ some row')
      × (row'.notify_mode ≡ transition)
      × (row'.condition_met
          ≡ (if met && not row.condition_met then settles o.reason else met && row.condition_met))
      × (length (visit v w).sent
          ≡ (if met && not row.condition_met then suc (length w.sent) else length w.sent))

  visit-detector :
      (met : Bool) (o : NotificationOutcome)
      → Observes v.task.id met o v w
      → task_of v.task.id w.db ≡ some row
      → row.notify_mode ≡ transition
      → Detects v.task.id met o
  unfolding visit
  visit-detector met o seen stored mode =
      let there = find-any (has_id v.task.id) w.db.tasks row stored in
      let started : (start_run v.answers.start v.answers.started_at v.task.id v.source w.db).1
          ≡ ok w.db.next_run_id =
        unfold start_run in rw (seen.starts, there) refl in
      let (written, sent_now) =
        run_task-next_task v.runner v.answers v.task v.source w row w.db.next_run_id seen.value
          seen.judged met seen.works seen.keeps stored started seen.reads seen.judges in
      let outcome =
        alert_outcome v.runner v.answers v.task seen.judged
          (db_at_read v.runner v.answers v.task v.source w.db) in
      (
        next_task v.answers.notified_at met outcome row,
        written,
        next_task-mode _ met outcome row mode,
        next_task-armed _ met outcome row mode ∙ rw seen.would_be_answered refl,
        ap length sent_now ∙ length-fires w.sent _ met row.notify_mode row.condition_met mode,
      )

-- Over any sequence of runs of a task in the default mode, whose statements on its row work and whose
-- row nobody else writes: the number of alerts sent is that of the edge detector, started from the
-- stored state and given what each run observed.
pub visit_all-alerts :
    {P R : Type 0} (id : Text) (os : List (Bool × NotificationOutcome)) (vs : List (Visit P R))
    (w : World) (row : Task)
    → Observed id os vs w
    → task_of id w.db ≡ some row
    → row.notify_mode ≡ transition
    → length (visit_all vs w).sent ≡ length w.sent + alerts row.condition_met os
unfolding visit_all alerts Observed
visit_all-alerts id [] [] w row seen stored mode = omega arith
visit_all-alerts id [] (v ∷ vs) w row seen stored mode = absurd seen
visit_all-alerts id ((met, o) ∷ os) [] w row seen stored mode = absurd seen
visit_all-alerts id ((met, o) ∷ os) (v ∷ vs) w row (first, rest) stored mode =
    let (row', stored', mode', armed, sent_now) =
      subst (λ k. Detects v w row k met o) first.same_task
        (visit-detector v w row met o
          (subst (λ k. Observes k met o v w) (sym first.same_task) first)
          (rw first.same_task stored) mode) in
    let later = visit_all-alerts id os vs (visit v w) row' rest stored' mode' in
    ground (arith, armed, sent_now, later)

-- The false to true transitions of a sequence, after this value.
unfoldable pub rises : Bool → List Bool → ℕ
rises was [] = 0
rises was (met ∷ mets) = let rest = rises met mets in if met && not was then suc rest else rest

unfoldable pub count_true : List Bool → ℕ
count_true [] = 0
count_true (met ∷ mets) = let rest = count_true mets in if met then suc rest else rest

abbrev pub mets_of : List (Bool × NotificationOutcome) → List Bool
mets_of = map (λ x. x.0)

-- Where each alert settles the matter, by arriving or by not being owed, the detector alerts once for
-- each transition.
pub alerts-rises :
    (armed : Bool) (os : List (Bool × NotificationOutcome))
    → All (λ x. x.0 ≡ true → settles x.1.reason ≡ true) os
    → alerts armed os ≡ rises armed (mets_of os)
unfolding alerts rises settles
alerts-rises armed [] h = refl
alerts-rises true ((true, o) ∷ os) (h, hs) = alerts-rises true os hs
alerts-rises true ((false, o) ∷ os) (h, hs) = alerts-rises false os hs
alerts-rises false ((true, o) ∷ os) (h, hs) = rw (h refl) (ap suc (alerts-rises true os hs))
alerts-rises false ((false, o) ∷ os) (h, hs) = alerts-rises false os hs

-- Where no alert gets through, a disarmed detector tries again at every run that matches.
pub alerts-count_true :
    (os : List (Bool × NotificationOutcome))
    → All (λ x. x.0 ≡ true → settles x.1.reason ≡ false) os
    → alerts false os ≡ count_true (mets_of os)
unfolding alerts count_true settles
alerts-count_true [] h = refl
alerts-count_true ((true, o) ∷ os) (h, hs) = rw (h refl) (ap suc (alerts-count_true os hs))
alerts-count_true ((false, o) ∷ os) (h, hs) = alerts-count_true os hs

module _ {P R : Type 0} (id : Text) (os : List (Bool × NotificationOutcome)) (vs : List (Visit P R))
    (w : World) (row : Task) where
  -- Over any sequence of runs of a task in the default mode that start, read their page and judge
  -- their condition, each in the world that the runs before it left, whose alerts, where the
  -- condition is met, would be sent or would find no channel, whose statements on the task row
  -- work and whose row nobody else writes, one alert is sent for each false to true transition of
  -- the condition, counted from the stored state.
  pub visit_all-rises :
      Observed id os vs w
      → task_of id w.db ≡ some row
      → row.notify_mode ≡ transition
      → All (λ x. x.0 ≡ true → settles x.1.reason ≡ true) os
      → length (visit_all vs w).sent ≡ length w.sent + rises row.condition_met (mets_of os)
  visit_all-rises seen stored mode settled =
      rw (← alerts-rises row.condition_met os settled)
        (visit_all-alerts id os vs w row seen stored mode)

  -- Over any sequence of runs of a disarmed task in the default mode that start, read their page
  -- and judge their condition, each in the world that the runs before it left, where no alert of
  -- a condition that is met gets through, whose statements on the row work and whose row nobody
  -- else writes, an alert is attempted at every run whose condition is met.
  pub visit_all-retries :
      Observed id os vs w
      → task_of id w.db ≡ some row
      → row.notify_mode ≡ transition
      → row.condition_met ≡ false
      → All (λ x. x.0 ≡ true → settles x.1.reason ≡ false) os
      → length (visit_all vs w).sent ≡ length w.sent + count_true (mets_of os)
  visit_all-retries seen stored mode disarmed failing =
      visit_all-alerts id os vs w row seen stored mode
      ∙ ap (λ k. length w.sent + k) (ap (λ b. alerts b os) disarmed ∙ alerts-count_true os failing)
