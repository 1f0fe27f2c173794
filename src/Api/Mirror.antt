-- ===== src/Api/Mirror.antt =====
-- The registry beside the rows, whatever requests are handled.
use breckr.Base.{
  Text, ℕ, Bool, true, not, Option, none, some, List, Result, ok, err, on_if, on_option, on_result,
  ◌≡◌, ◌≢◌, ◌⊎◌, inl, inr, refl, sym, ◌∙◌, subst, lookup, Text_eq,
}
use breckr.Types.Notify.{mode_text}
use breckr.Types.Task.{Task, TaskSpec}
use breckr.Spec.{Parsers}
use breckr.Store.Database.{Database, Driver, Error}
use breckr.Store.Tasks.{get_task, create_task, CreateTaskInput, delete_task}
use breckr.Scheduler.Cron.{CronLib, Compiled}
use breckr.Scheduler.{
  Entry, Registry, register, register_spec, unregister, remove_locked, remove_entry, arm, armed,
}
use breckr.Api.Requests.{
  CreateTaskRequest, CreateInput, Response, validate_create, validate_channel_ids,
}
use breckr.Api.Tasks.{
  ServerState, with_db, CreateAnswers, arm_created, create_checked, handle_create_task,
  delete_existing, handle_delete_task,
}
use breckr.Api.Registered.{Reflects, register_spec-Found, unregister-Found}
use breckr.Api.Rows.{row, row-id, create_task-row, create_task-read, find-keep_ne}

module _ {C : Type 0} (lib : CronLib C) (timeout : ℕ) where
  -- Every entry reflects the row of its task.
  abbrev pub Backed : Registry C → Database → Type 0
  Backed r db =
      (k : Text) (e : Entry)
      → lookup k r.entries ≡ some e
      → (t : Task) × (row k db ≡ some t) × Reflects timeout e t

  pub record IsMirror (w : ServerState C) : Type 0 where
    pub installed : w.registry.has_handler ≡ true
    pub backed : Backed w.registry w.db

  -- `Register` of a row that is there.
  pub register-Backed :
      (t : Task) (r : Registry C) (db : Database)
      → r.has_handler ≡ true
      → row t.id db ≡ some t
      → ((k : Text) (e : Entry)
          → lookup k r.entries ≡ some e
          → (t.id ≢ k) ⊎ (t.spec ≡ none)
          → (s : Task) × (row k db ≡ some s) × Reflects timeout e s)
      → Backed (register lib timeout t r).0 db
  unfolding register
  register-Backed t r db on here others k e h =
      elim (register_spec-Found lib timeout t t.spec r k e refl on h) [
        | inl (same, reflects) ↦ (t, subst (λ i. row i db ≡ some t) same here, reflects)
        | inr (apart, found) ↦ others k e found apart
      ]

  -- The handler stays installed.
  remove_entry-installed :
      (id : Text) (o : Option Entry) (r : Registry C)
      → (remove_entry lib timeout id o r).has_handler ≡ r.has_handler
  unfolding remove_entry
  remove_entry-installed id none r = refl
  remove_entry-installed id (some e) r = refl

  armed-installed :
      (id : Text) (d : Compiled) (r : Registry C) (x : C × Result Error ℕ)
      → (armed id d r x).0.has_handler ≡ r.has_handler
  unfolding armed
  armed-installed id d r (c, err e) = refl
  armed-installed id d r (c, ok n) = refl

  pub unregister-installed :
      (id : Text) (r : Registry C) → (unregister lib timeout id r).has_handler ≡ r.has_handler
  unfolding unregister remove_locked
  unregister-installed id r = remove_entry-installed id (lookup id r.entries) r

  register_spec-installed :
      (t : Task) (o : Option TaskSpec) (r : Registry C)
      → (register_spec lib timeout t o r).0.has_handler ≡ r.has_handler
  unfolding register_spec arm unregister
  register_spec-installed t none r = refl
  register_spec-installed t (some spec) r =
      let kept = unregister-installed t.id r in
      on_if (λ (x : Registry C × Bool). x.0.has_handler ≡ r.has_handler) (not r.has_handler) _ _
        refl
        (on_if (λ (x : Registry C × Bool). x.0.has_handler ≡ r.has_handler) t.enabled _ _
          (armed-installed t.id _ (remove_locked lib timeout t.id r) _ ∙ kept) kept)

  pub register-installed :
      (t : Task) (r : Registry C) → (register lib timeout t r).0.has_handler ≡ r.has_handler
  unfolding register
  register-installed t r = register_spec-installed t t.spec r

module _ {C : Type 0} (lib : CronLib C) (timeout : ℕ) (p : Parsers) where
  abbrev MirrorAfter : ServerState C × Response → Type 0
  MirrorAfter x = IsMirror lib timeout x.0

  arm_created-IsMirror :
      (ids : List Text) (w : ServerState C) (x : Result Error (Option Task))
      → IsMirror lib timeout w
      → ((t : Task) → x ≡ ok (some t) → row t.id w.db ≡ some t)
      → IsMirror lib timeout (arm_created lib timeout p ids w x).0
  unfolding arm_created
  arm_created-IsMirror ids w (err e) m read = m
  arm_created-IsMirror ids w (ok none) m read = m
  arm_created-IsMirror ids w (ok (some t)) m read = record {
    installed = register-installed lib timeout t w.registry ∙ m.installed;
    backed =
        register-Backed lib timeout t w.registry w.db m.installed (read t refl)
          (λ k e found apart. m.backed k e found);
  }

  create_checked-IsMirror :
      (d : CreateAnswers) (body : CreateTaskRequest) (input : CreateInput) (w : ServerState C)
      → IsMirror lib timeout w
      → IsMirror lib timeout (create_checked lib timeout p d body input w).0
  unfolding create_checked
  create_checked-IsMirror d body input w m =
      on_result MirrorAfter (get_task d.get input.id w.db) _ _ (λ e _. m)
        (λ existing _.
          on_option MirrorAfter existing _ _
            (λ _.
              on_result MirrorAfter (validate_channel_ids d.channels body.channel_ids w.db) _ _
                (λ f _. m) (λ ids _. new ids))
            (λ t _. m))
    where
      row_of : List Text → CreateTaskInput
      row_of ids = record {
        id = input.id;
        name = input.name;
        cron_expr = input.cron_expr;
        spec = input.spec;
        notify_mode = mode_text input.notify_mode;
        enabled = elim body.enabled [ none ↦ true | some on ↦ on ];
        channel_ids = ids;
      }

      new :
          (ids : List Text)
          → let (db, made) = create_task d.create d.reread (row_of ids) w.db in
            MirrorAfter (arm_created lib timeout p ids (with_db db w) made)
      new ids =
          arm_created-IsMirror ids (with_db (create_task d.create d.reread (row_of ids) w.db).0 w)
            (create_task d.create d.reread (row_of ids) w.db).1
            (record {
              installed = m.installed;
              backed = λ k e h.
                  let (t, found, reflects) = m.backed k e h in
                  (t, create_task-row d.create d.reread (row_of ids) w.db k t found, reflects);
            })
            (λ t q.
              let there = create_task-read d.create d.reread (row_of ids) w.db t q in
              subst (λ i. row i (create_task d.create d.reread (row_of ids) w.db).0 ≡ some t)
                (sym (row-id input.id (create_task d.create d.reread (row_of ids) w.db).0 t there))
                there)

  -- A task is created only with its job.
  pub handle_create_task-IsMirror :
      (d : CreateAnswers) (body : Option CreateTaskRequest) (w : ServerState C)
      → IsMirror lib timeout w
      → IsMirror lib timeout (handle_create_task lib timeout p d body w).0
  unfolding handle_create_task
  handle_create_task-IsMirror d none w m = m
  handle_create_task-IsMirror d (some body) w m =
      on_result MirrorAfter (validate_create p body) _ _ (λ field _. m)
        (λ input _. create_checked-IsMirror d body input w m)

  delete_existing-IsMirror :
      (d : Driver) (id : Text) (w : ServerState C)
      → IsMirror lib timeout w
      → IsMirror lib timeout (delete_existing lib timeout p d id w).0
  unfolding delete_existing delete_task
  delete_existing-IsMirror d id w m = go d
    where
      installed : (unregister lib timeout id w.registry).has_handler ≡ true
      installed = unregister-installed lib timeout id w.registry ∙ m.installed

      go : (x : Driver) → MirrorAfter (delete_existing lib timeout p x id w)
      go (some e) = record {
        installed = installed;
        backed = λ k f h.
            let (n, found) = unregister-Found lib timeout id k f w.registry h in m.backed k f found;
      }
      go none = record {
        installed = installed;
        backed = λ k f h.
            let (n, found) = unregister-Found lib timeout id k f w.registry h in
            let (t, there, reflects) = m.backed k f found in
            (t, find-keep_ne id k w.db.tasks n ∙ there, reflects);
      }

  pub handle_delete_task-IsMirror :
      (d1 d2 : Driver) (id : Text) (w : ServerState C)
      → IsMirror lib timeout w
      → IsMirror lib timeout (handle_delete_task lib timeout p d1 d2 id w).0
  unfolding handle_delete_task
  handle_delete_task-IsMirror d1 d2 id w m =
      on_result MirrorAfter (get_task d1 id w.db) _ _ (λ e _. m)
        (λ existing _.
          on_option MirrorAfter existing _ _ (λ _. m) (λ t _. delete_existing-IsMirror d2 id w m))
