-- ===== src/Api/History.antt =====
-- The server from its start: every stored task is scheduled, then any requests are handled.
use breckr.Base.{
  ap, sym, subst, Bool-cases, lookup, Text, ℕ, Bool, true, Option, none, some, List, [], ◌∷◌, In,
  order_by, order_by-In, text_le, ◌≡◌, inl, inr, refl, ◌∙◌, Text_eq, All,
}
use breckr.Types.Task.{Task, TaskSpec}
use breckr.Spec.{Parsers}
use breckr.Store.Database.{Database, Driver}
use breckr.Store.Tasks.{list_tasks}
use breckr.Scheduler.Cron.{CronLib, Compiled, task_job}
use breckr.Scheduler.Invariant.{Inv}
use breckr.Scheduler.History.{schedule_all-Inv, new_registry-Inv}
use breckr.Api.Schedules.{handle_create_task-Inv, handle_update_task-Inv, handle_delete_task-Inv}
use breckr.Api.Registered.{Reflects, compilable}
use breckr.Scheduler.{compile, Entry, Registry, new_registry, register, register_all, schedule_all}
use breckr.Api.Requests.{CreateTaskRequest, UpdateTaskRequest}
use breckr.Api.Tasks.{
  ServerState, CreateAnswers, UpdateAnswers, handle_create_task, handle_update_task,
  handle_delete_task,
}
use breckr.Api.Rows.{row}
use breckr.Api.Mirror.{
  IsMirror, Backed, register-Backed, register-installed, handle_create_task-IsMirror,
  handle_delete_task-IsMirror,
}
use breckr.Api.Updates.{handle_update_task-IsMirror}

-- The requests that change something, with what the driver answers to them.
pub data Request : Type 0 where
  creates : CreateAnswers → Option CreateTaskRequest → Request
  updates : UpdateAnswers → Text → Option UpdateTaskRequest → Request
  deletes : Driver → Driver → Text → Request

-- An update's row can be read after it was written, and its switch is written. The other answers,
-- and those to the other requests, are any.
abbrev pub IsReadable : Request → Type 0
IsReadable (creates d body) = Unit
IsReadable (updates d id body) = (d.reread ≡ none) × (d.get_again ≡ none) × (d.enable ≡ none)
IsReadable (deletes d1 d2 id) = Unit

module _ {C : Type 0} (lib : CronLib C) (timeout : ℕ) where
  -- The world after the start.
  unfoldable pub boot : Database → ServerState C
  unfolding schedule_all
  boot db = record {
    db = db;
    registry = (schedule_all lib timeout none db (new_registry lib)).0;
    published = [];
  }

  register_all-installed :
      (ts : List Task) (r : Registry C)
      → (register_all lib timeout ts r).has_handler ≡ r.has_handler
  unfolding register_all
  register_all-installed [] r = refl
  register_all-installed (t ∷ ts) r =
      register_all-installed ts (register lib timeout t r).0 ∙ register-installed lib timeout t r

  register_all-Backed :
      (ts : List Task) (r : Registry C) (db : Database)
      → ((t : Task) → In t ts → row t.id db ≡ some t)
      → r.has_handler ≡ true
      → Backed lib timeout r db
      → Backed lib timeout (register_all lib timeout ts r) db
  unfolding register_all
  register_all-Backed [] r db rows on b = b
  register_all-Backed (t ∷ ts) r db rows on b =
      register_all-Backed ts (register lib timeout t r).0 db (λ s i. rows s (inr i))
        (register-installed lib timeout t r ∙ on)
        (register-Backed lib timeout t r db on (rows t (inl refl)) (λ k e h apart. b k e h))

  nothing_found : (k : Text) (e : Entry) → lookup k [] ≡ some e → ⊥
  unfolding lookup
  nothing_found k e h = cc h

  pub boot-IsMirror :
      (db : Database)
      → ((t : Task) → In t db.tasks → row t.id db ≡ some t)
      → IsMirror lib timeout (boot db)
  unfolding boot schedule_all list_tasks new_registry
  boot-IsMirror db rows =
      let le : Task → Task → Bool = λ a b. text_le a.name b.name in
      let fresh : Registry C = record (new_registry lib) { has_handler = true } in
      record {
        installed = register_all-installed (order_by le db.tasks) fresh;
        backed =
            register_all-Backed (order_by le db.tasks) fresh db
              (λ t i. rows t ((order_by-In le t db.tasks).0 i)) refl
              (λ k e h. absurd (nothing_found k e h));
      }

-- The definition is what this row compiles to.
abbrev pub Compiles : ℕ → Compiled → Task → Type 0
Compiles timeout d t =
    (spec : TaskSpec) × (t.spec ≡ some spec) × (d ≡ compile timeout (compilable t spec))

module _ {C : Type 0} (lib : CronLib C) (timeout : ℕ) (p : Parsers) where
  unfoldable pub handle : Request → ServerState C → ServerState C
  unfolding handle_create_task handle_update_task handle_delete_task
  handle (creates d body) w = (handle_create_task lib timeout p d body w).0
  handle (updates d id body) w = (handle_update_task lib timeout p d id body w).0
  handle (deletes d1 d2 id) w = (handle_delete_task lib timeout p d1 d2 id w).0

  unfoldable pub handle_all : List Request → ServerState C → ServerState C
  unfolding handle
  handle_all [] w = w
  handle_all (q ∷ qs) w = handle_all qs (handle q w)

  handle-IsMirror :
      (q : Request) (w : ServerState C)
      → IsReadable q
      → IsMirror lib timeout w
      → IsMirror lib timeout (handle q w)
  unfolding handle
  handle-IsMirror (creates d body) w h m = handle_create_task-IsMirror lib timeout p d body w m
  handle-IsMirror (updates d id body) w (read, again, works) m =
      handle_update_task-IsMirror lib timeout p d id body w read again works m
  handle-IsMirror (deletes d1 d2 id) w h m = handle_delete_task-IsMirror lib timeout p d1 d2 id w m

  handle_all-IsMirror :
      (qs : List Request) (w : ServerState C)
      → All IsReadable qs
      → IsMirror lib timeout w
      → IsMirror lib timeout (handle_all qs w)
  unfolding handle_all
  handle_all-IsMirror [] w h m = m
  handle_all-IsMirror (q ∷ qs) w (h, hs) m =
      handle_all-IsMirror qs (handle q w) hs (handle-IsMirror q w h m)

  handle-Inv :
      (q : Request) (w : ServerState C) → Inv lib w.registry → Inv lib (handle q w).registry
  unfolding handle
  handle-Inv (creates d body) w v = handle_create_task-Inv lib timeout p d body w v
  handle-Inv (updates d id body) w v = handle_update_task-Inv lib timeout p d id body w v
  handle-Inv (deletes d1 d2 id) w v = handle_delete_task-Inv lib timeout p d1 d2 id w v

  handle_all-Inv :
      (qs : List Request) (w : ServerState C)
      → Inv lib w.registry
      → Inv lib (handle_all qs w).registry
  unfolding handle_all
  handle_all-Inv [] w v = v
  handle_all-Inv (q ∷ qs) w v = handle_all-Inv qs (handle q w) (handle-Inv q w v)

  boot-Inv : (db : Database) → Inv lib (boot lib timeout db).registry
  unfolding boot
  boot-Inv db =
      schedule_all-Inv lib timeout none db (new_registry lib) (new_registry-Inv lib timeout)

  -- The stored rows, what the registry holds, and what the cron library would fire.
  pub record IsInStep (w : ServerState C) : Type 0 where
    -- An entry is compiled from the row of its task as it stands.
    pub backed :
        (id : Text) (e : Entry)
        → lookup id w.registry.entries ≡ some e
        → (t : Task) × (row id w.db ≡ some t) × Compiles timeout e.definition t
    -- The entry of an enabled task has a schedule, which fires its definition.
    pub fires :
        (id : Text) (e : Entry) (t : Task)
        → lookup id w.registry.entries ≡ some e
        → row id w.db ≡ some t
        → t.enabled ≡ true
        → lib.job w.registry.cron e.entry_id ≡ some (task_job e.definition)
    -- A schedule that fires a task fires what its stored row compiles to, and the row is enabled.
    pub only_enabled :
        (j : ℕ) (d : Compiled)
        → lib.job w.registry.cron j ≡ some (task_job d)
        → (t : Task) × (row d.id w.db ≡ some t) × (t.enabled ≡ true) × Compiles timeout d t
    -- A task is fired by one schedule at most.
    pub once :
        (i j : ℕ) (d b : Compiled)
        → lib.job w.registry.cron i ≡ some (task_job d)
        → lib.job w.registry.cron j ≡ some (task_job b)
        → d.id ≡ b.id
        → i ≡ j

  mirror-IsInStep : (w : ServerState C) → IsMirror lib timeout w → Inv lib w.registry → IsInStep w
  mirror-IsInStep w m v = record {
    backed = λ id e found.
        let (t, there, r) = m.backed id e found in (t, there, (r.spec, r.has_spec, r.compiled));
    fires = λ id e t found there on.
        let (s, here, r) = m.backed id e found in
        let same : s ≡ t = cc (here, there) in
        v.live id e found (r.scheduled (ap (λ (x : Task). x.enabled) same ∙ on));
    only_enabled = λ j d h.
        let (e, found, at, is) = v.owned j d h in
        let (t, there, r) = m.backed d.id e found in
        (t, there, enabled_by j d h e at t r, (r.spec, r.has_spec, sym is ∙ r.compiled));
    once = λ i j d b h k same.
        let (e, found, at, is) = v.owned i d h in
        let (f, found', at', is') = v.owned j b k in
        let one : e ≡ f =
          cc (subst (λ x. lookup x w.registry.entries ≡ some e) same found, found') in
        sym at ∙ ap (λ (x : Entry). x.entry_id) one ∙ at';
  }
    where
      enabled_by :
          (j : ℕ) (d : Compiled)
          → lib.job w.registry.cron j ≡ some (task_job d)
          → (e : Entry) → e.entry_id ≡ j
          → (t : Task) → Reflects timeout e t
          → t.enabled ≡ true
      enabled_by j d h e at t r = elim (Bool-cases t.enabled) [
        | inl on ↦ on
        | inr off ↦
            let zero : 0 ≡ j = sym (r.idle off) ∙ at in
            cc (
              v.unused_zero,
              subst (λ i. lib.job w.registry.cron i ≡ some (task_job d)) (sym zero) h,
            )
      ]

  -- From a database in which the id of each task is its own, after the start and any sequence of
  -- create, update and delete requests, each handled alone, every entry of the registry is
  -- compiled from the stored row of its task as it stands, and if the row is enabled the cron
  -- library fires that definition; and a schedule that fires a task is the only one that does,
  -- fires what the stored row compiles to, and the row is enabled, whatever the driver answers,
  -- if an updated row can be read back and the switch of an update is written.
  pub handle_all-boot :
      (db : Database) (qs : List Request)
      → ((t : Task) → In t db.tasks → row t.id db ≡ some t)
      → All IsReadable qs
      → IsInStep (handle_all qs (boot lib timeout db))
  handle_all-boot db qs rows readable =
      let w = boot lib timeout db in
      mirror-IsInStep (handle_all qs w)
        (handle_all-IsMirror qs w readable (boot-IsMirror lib timeout db rows))
        (handle_all-Inv qs w (boot-Inv db))
