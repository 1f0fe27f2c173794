-- ===== src/Api/Updates.antt =====
-- `HandleUpdateTask` on the registry beside the rows, when what it wrote can be read.
use breckr.Base.{
  Text, ℕ, Bool, true, false, Option, none, some, List, [], ◌∷◌, ok, err, Eq-cases, ◌≡◌, ◌≢◌, inl,
  inr, refl, ap, sym, ◌∙◌, on_if, on_option, on_result, subst, if◌then◌else◌, lookup, Text_eq,
}
use breckr.Types.Task.{Task}
use breckr.Events.{Resource, tasks}
use breckr.Spec.{Parsers}
use breckr.Store.Database.{Database, Driver, Error}
use breckr.Store.Tasks.{get_task, UpdateTaskInput, update_task, is_empty_patch, set_task_enabled}
use breckr.Scheduler.Cron.{CronLib}
use breckr.Scheduler.{Entry, Registry, set_enabled, enable_entry}
use breckr.Api.Requests.{UpdateTaskRequest, Response, conflict, build_patch, validate_channel_ids}
use breckr.Api.Tasks.{
  ServerState, publish_to, answer_updated, with_db, UpdateAnswers, reschedule, write_row,
  switch_row, update_with, update_channels, update_existing, handle_update_task,
}
use breckr.Api.Registered.{Reflects}
use breckr.Api.Touched.{
  Touched, Touched-trans, row-update_ne, row-update_own, update_task-Touched, update_task-err,
  set_task_enabled-Touched,
}
use breckr.Api.Rows.{row, row-id}
use breckr.Api.Switched.{Switched, enable_entry-Switched}
use breckr.Api.Mirror.{IsMirror, register-Backed, register-installed}

module _ {C : Type 0} (lib : CronLib C) (timeout : ℕ) (p : Parsers) where
  abbrev MirrorAfter : ServerState C × Response → Type 0
  MirrorAfter x = IsMirror lib timeout x.0

  -- The row as it stands is scheduled again.
  reschedule-IsMirror :
      (id : Text) (w : ServerState C) (db : Database)
      → IsMirror lib timeout w
      → Touched id w.db db
      → IsMirror lib timeout (reschedule lib timeout p (ok (row id db)) (with_db db w))
  unfolding reschedule
  reschedule-IsMirror id w db m touched = go (row id db) refl
    where
      backed_ne :
          (k : Text) (e : Entry)
          → id ≢ k
          → lookup k w.registry.entries ≡ some e
          → (s : Task) × (row k db ≡ some s) × Reflects timeout e s
      backed_ne k e n h =
          let (t, found, reflects) = m.backed k e h in (t, touched.others k t n found, reflects)

      go :
          (o : Option Task)
          → row id db ≡ o
          → IsMirror lib timeout (reschedule lib timeout p (ok o) (with_db db w))
      go none gone = record {
        installed = m.installed;
        backed = λ k e h. elim (Eq-cases id k) [
          | inl q ↦
              let (t, found, reflects) = m.backed k e h in
              let (s, there, _) = touched.own t (subst (λ i. row i w.db ≡ some t) (sym q) found) in
              cc (gone, there)
          | inr n ↦ backed_ne k e n h
        ];
      }
      go (some t) here = record {
        installed = register-installed lib timeout t w.registry ∙ m.installed;
        backed =
            register-Backed lib timeout t w.registry db m.installed
              (subst (λ i. row i db ≡ some t) (sym (row-id id db t here)) here)
              (λ k e h apart. elim (Eq-cases id k) [
                | inl q ↦ elim apart [
                  | inl n ↦ absurd (n (row-id id db t here ∙ q))
                  | inr no_spec ↦
                      let (old, found, reflects) = m.backed k e h in
                      let (s, there, back) =
                        touched.own old (subst (λ i. row i w.db ≡ some old) (sym q) found) in
                      let same : s ≡ t = cc (there, here) in
                      cc (back (ap (λ (x : Task). x.spec) same ∙ no_spec), reflects.has_spec)
                ]
                | inr n ↦ backed_ne k e n h
              ]);
      }

  publish_to-IsMirror :
      (resources : List Resource) (w : ServerState C)
      → IsMirror lib timeout w
      → IsMirror lib timeout (publish_to resources w)
  publish_to-IsMirror resources w m = record { installed = m.installed; backed = m.backed }

  write_row-IsMirror :
      (d : UpdateAnswers) (id : Text) (was : Bool) (enabled : Option Bool) (patch : UpdateTaskInput)
      (w : ServerState C)
      → d.reread ≡ none
      → d.get_again ≡ none
      → IsMirror lib timeout w
      → MirrorAfter (write_row lib timeout p d id was enabled patch w)
  unfolding write_row get_task
  write_row-IsMirror d id was enabled patch w read again m =
      let (db, answer) = update_task d.write d.reread id patch w.db in
      let written : Touched id w.db db = update_task-Touched d.write d.reread id patch w.db in
      on_result MirrorAfter answer _ _
        (λ e q. subst (λ x. IsMirror lib timeout (with_db x w)) (sym (unwritten e q)) m)
        (λ t q. publish_to-IsMirror (tasks ∷ []) _ (
          scheduled _ (
            on_option (Touched id w.db) enabled db _ (λ _. written)
              (λ on _.
                Touched-trans id w.db db _ written (set_task_enabled-Touched d.enable id on db)))))
    where
      unwritten :
          (e : Error)
          → (update_task d.write d.reread id patch w.db).1 ≡ err e
          → (update_task d.write d.reread id patch w.db).0 ≡ w.db
      unwritten e =
          subst
            (λ x.
              (update_task d.write x id patch w.db).1 ≡ err e
              → (update_task d.write x id patch w.db).0 ≡ w.db)
            (sym read) (update_task-err d.write id patch w.db e)

      scheduled :
          (db : Database)
          → Touched id w.db db
          → IsMirror lib timeout
              (reschedule lib timeout p (get_task d.get_again id db) (with_db db w))
      scheduled db touched =
          subst
            (λ x. IsMirror lib timeout (reschedule lib timeout p (get_task x id db) (with_db db w)))
            (sym again) (reschedule-IsMirror id w db m touched)

  switch_row-IsMirror :
      (d : UpdateAnswers) (id : Text) (was : Bool) (enabled : Option Bool) (w : ServerState C)
      → d.enable ≡ none
      → IsMirror lib timeout w
      → MirrorAfter (switch_row lib timeout p d id was enabled w)
  unfolding switch_row set_enabled set_task_enabled
  switch_row-IsMirror d id was none w works m = publish_to-IsMirror (tasks ∷ []) w m
  switch_row-IsMirror d id was (some on) w works m =
      subst
        (λ x. Outcome x (enable_entry lib timeout id on (lookup id w.registry.entries) w.registry))
        (sym works)
        (go _
          (enable_entry-Switched lib timeout id w.registry on (lookup id w.registry.entries) refl))
    where
      Outcome : Driver → Registry C × Bool → Type 0
      Outcome x (r, known) =
          let w' = record w {
            db = if known then (set_task_enabled x id on w.db).0 else w.db;
            registry = r;
          } in
          MirrorAfter (if known then answer_updated lib timeout p id on w' else (w', conflict []))

      go : (x : Registry C × Bool) → Switched lib timeout id on w.registry x → Outcome none x
      go (r, false) s = record {
        installed = s.installed ∙ m.installed;
        backed = λ k e h. m.backed k e (ap (lookup k) (sym (s.unknown refl)) ∙ h);
      }
      go (r, true) s = record {
        installed = s.installed ∙ m.installed;
        backed = λ k f h.
            let l = s.known refl k f h in
            let (t, found, reflects) = m.backed k l.old l.found in
            elim (Eq-cases id k) [
              | inl q ↦ (
                record t { enabled = on },
                subst
                    (λ i.
                      row i (set_task_enabled none id on w.db).0 ≡ some (record t { enabled = on }))
                    q
                    (row-update_own id (λ x. record x { enabled = on }) w.db.tasks t (λ x. refl)
                      (subst (λ i. row i w.db ≡ some t) (sym q) found)
                      (row-id k w.db t found ∙ sym q)),
                record {
                  spec = reflects.spec;
                  has_spec = reflects.has_spec;
                  compiled = l.same_definition ∙ reflects.compiled;
                  scheduled = l.up q;
                  idle = l.down q;
                },
              )
              | inr n ↦ (
                t,
                row-update_ne id k (λ x. record x { enabled = on }) w.db.tasks t (λ x. refl) n found
                    (row-id k w.db t found),
                subst (λ e. Reflects timeout e t) (sym (l.other n)) reflects,
              )
            ];
      }

  pub handle_update_task-IsMirror :
      (d : UpdateAnswers) (id : Text) (body : Option UpdateTaskRequest) (w : ServerState C)
      → d.reread ≡ none
      → d.get_again ≡ none
      → d.enable ≡ none
      → IsMirror lib timeout w
      → MirrorAfter (handle_update_task lib timeout p d id body w)
  unfolding handle_update_task update_existing update_channels update_with
  handle_update_task-IsMirror d id body w read again works m =
      on_result MirrorAfter (get_task d.get id w.db) _ _ (λ e _. m)
        (λ existing _. on_option MirrorAfter existing _ _ (λ _. m) (λ t _. decoded t body))
    where
      patched :
          (was : Bool) (enabled : Option Bool) (patch : UpdateTaskInput)
          → MirrorAfter (update_with lib timeout p d id was enabled patch w)
      patched was enabled patch =
          on_if MirrorAfter (is_empty_patch patch) _ _
            (switch_row-IsMirror d id was enabled w works m)
            (write_row-IsMirror d id was enabled patch w read again m)

      decoded :
          (t : Task) (body : Option UpdateTaskRequest)
          → MirrorAfter (update_existing lib timeout p d id t body w)
      decoded t none = m
      decoded t (some body) =
          on_result MirrorAfter (build_patch p body) _ _ (λ field _. m)
            (λ patch _.
              on_option MirrorAfter body.channel_ids _ _ (λ _. patched t.enabled body.enabled patch)
                (λ ids _.
                  on_result MirrorAfter (validate_channel_ids d.channels ids w.db) _ _ (λ f _. m)
                    (λ checked _.
                      patched t.enabled body.enabled
                        (record patch { channel_ids = some checked }))))
