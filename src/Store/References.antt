-- ===== src/Store/References.antt =====
-- The references between the tables, through the statements on tasks and links.
use breckr.Base.{
  Text, Bool, true, false, not, ◌&&◌, Option, none, some, List, [], ◌∷◌, ◌++◌, Result, ok, err, ◌≡◌,
  refl, ◌∙◌, ap, sym, subst, arith, inl, inr, All, All-append, All-keep, All-map, any, keep, update,
  Bool-cases, ◌==◌, Text_eq, ℕ_eq,
}
use breckr.Types.Task.{Task}
use breckr.Types.Run.{Run, TriggerSource}
use breckr.Store.Database.{Database, StoredChannel, Driver, Error, transact, has_channel_id}
use breckr.Store.Tasks.{
  has_id, CreateTaskInput, insert_task, create_task, UpdateTaskInput, patch_task, update_task,
  insert_links, patch_links, read_back, is_empty_patch, set_task_channels,
}
use breckr.Store.Runs.{has_run_id, start_run}
use breckr.Store.Channels.{read_channel_back}

module _ {A : Type 0} (p : A → Bool) where
  pub any-append_left : (xs ys : List A) → any p xs ≡ true → any p (xs ++ ys) ≡ true
  any-append_left [] ys h = cc
  any-append_left (x ∷ xs) ys h = ground (arith, any-append_left xs ys)

  pub any-update :
      (q : A → Bool) (f : A → A)
      → ((a : A) → p (f a) ≡ p a)
      → (xs : List A) → any p (update q f xs) ≡ any p xs
  unfolding update
  any-update q f same [] = refl
  any-update q f same (x ∷ xs) = ground (arith, same x, any-update q f same xs)

  -- A row that is not among those that go is still there.
  pub any-drop :
      (q : A → Bool) (xs : List A)
      → any p xs ≡ true
      → any (λ x. p x && q x) xs ≡ false
      → any p (keep (λ x. not (q x)) xs) ≡ true
  any-drop q [] h g = cc
  any-drop q (x ∷ xs) h g = ground (arith, any-drop q xs)

-- The channel that a row names, if any, is there.
abbrev pub HasChannel : List StoredChannel → Option Text → Type 0
HasChannel cs none = Unit
HasChannel cs (some id) = any (has_channel_id id) cs ≡ true

-- Each row refers to rows that are there.
pub record IsSound (db : Database) : Type 0 where
  pub runs_have_tasks : All (λ r. any (has_id r.task_id) db.tasks ≡ true) db.runs
  pub links_have_ends :
      All
        (λ l.
          (any (has_id l.task_id) db.tasks ≡ true)
          × (any (has_channel_id l.channel_id) db.channels ≡ true))
        db.links
  pub attempts_have_runs : All (λ a. any (has_run_id a.run_id) db.runs ≡ true) db.attempts
  pub attempts_have_channels : All (λ a. HasChannel db.channels a.channel_id) db.attempts

-- More tasks, or the same ids.
tasks-IsSound :
    (db : Database) (ts : List Task)
    → ((id : Text) → any (has_id id) db.tasks ≡ true → any (has_id id) ts ≡ true)
    → IsSound db
    → IsSound (record db { tasks = ts })
tasks-IsSound db ts more s = record {
  runs_have_tasks = All-map (λ r h. more r.task_id h) db.runs s.runs_have_tasks;
  links_have_ends = All-map (λ l h. (more l.task_id h.0, h.1)) db.links s.links_have_ends;
  attempts_have_runs = s.attempts_have_runs;
  attempts_have_channels = s.attempts_have_channels;
}

pub channels-HasChannel :
    (cs ds : List StoredChannel)
    → ((id : Text) → any (has_channel_id id) cs ≡ true → any (has_channel_id id) ds ≡ true)
    → (o : Option Text) → HasChannel cs o
    → HasChannel ds o
channels-HasChannel cs ds more none h = tt
channels-HasChannel cs ds more (some id) h = more id h

pub channels-IsSound :
    (db : Database) (cs : List StoredChannel)
    → ((id : Text) → any (has_channel_id id) db.channels ≡ true → any (has_channel_id id) cs ≡ true)
    → IsSound db
    → IsSound (record db { channels = cs })
channels-IsSound db cs more s = record {
  runs_have_tasks = s.runs_have_tasks;
  links_have_ends = All-map (λ l h. (h.0, more l.channel_id h.1)) db.links s.links_have_ends;
  attempts_have_runs = s.attempts_have_runs;
  attempts_have_channels =
      All-map (λ a h. channels-HasChannel db.channels cs more a.channel_id h) db.attempts
        s.attempts_have_channels;
}

pub transact-IsSound :
    (d : Driver) (r : Result Error Database) (db : Database)
    → IsSound db
    → ((db' : Database) → r ≡ ok db' → IsSound db')
    → IsSound (transact d r db).0
transact-IsSound (some e) r db s h = s
transact-IsSound none (ok db') db s h = h db' refl
transact-IsSound none (err e) db s h = s

insert_links-IsSound :
    (id : Text) (cs : List Text) (db db' : Database)
    → IsSound db
    → insert_links id cs db ≡ ok db'
    → IsSound db'
unfolding insert_links
insert_links-IsSound id [] db db' s h = subst IsSound (cc) s
insert_links-IsSound id (c ∷ cs) db db' s h =
    insert_links-IsSound id cs linked db' sound (ground arith)
  where
    linked : Database
    linked = record db { links = db.links ++ record { task_id = id; channel_id = c } ∷ [] }

    there : any (has_id id) db.tasks && any (has_channel_id c) db.channels ≡ true
    there = ground arith

    sound : IsSound linked
    sound = record {
      runs_have_tasks = s.runs_have_tasks;
      links_have_ends =
          All-append _ db.links _ s.links_have_ends
            ((ground (arith, there), ground (arith, there)), tt);
      attempts_have_runs = s.attempts_have_runs;
      attempts_have_channels = s.attempts_have_channels;
    }

set_task_channels-IsSound :
    (id : Text) (cs : List Text) (db db' : Database)
    → IsSound db
    → set_task_channels id cs db ≡ ok db'
    → IsSound db'
unfolding set_task_channels
set_task_channels-IsSound id cs db db' s h =
    insert_links-IsSound id cs (record db { links = keep (λ l. not (l.task_id == id)) db.links })
      db'
      (record {
        runs_have_tasks = s.runs_have_tasks;
        links_have_ends = All-keep _ _ db.links s.links_have_ends;
        attempts_have_runs = s.attempts_have_runs;
        attempts_have_channels = s.attempts_have_channels;
      })
      h

insert_task-IsSound :
    (i : CreateTaskInput) (db db' : Database) → IsSound db → insert_task i db ≡ ok db' → IsSound db'
unfolding insert_task
insert_task-IsSound i db db' s h = elim (Bool-cases (any (has_id i.id) db.tasks)) [
  | inl e ↦ absurd (ground (arith, e))
  | inr e ↦
      set_task_channels-IsSound i.id i.channel_ids _ db'
        (tasks-IsSound db _ (λ id. any-append_left (has_id id) db.tasks _) s) (rw e at h)
]

pub updated_tasks-IsSound :
    (db : Database) (q : Task → Bool) (f : Task → Task)
    → ((t : Task) → (f t).id ≡ t.id)
    → IsSound db
    → IsSound (record db { tasks = update q f db.tasks })
updated_tasks-IsSound db q f same =
    tasks-IsSound db _
      (λ id h. any-update (has_id id) q f (λ t. ap (λ k. k == id) (same t)) db.tasks ∙ h)

patch_links-IsSound :
    (id : Text) (o : Option (List Text)) (db db' : Database)
    → IsSound db
    → patch_links id o db ≡ ok db'
    → IsSound db'
unfolding patch_links
patch_links-IsSound id none db db' s h = subst IsSound (cc) s
patch_links-IsSound id (some cs) db db' s h = set_task_channels-IsSound id cs db db' s h

db-read_back : (d : Driver) (id : Text) (x : Database × Option Error) → (read_back d id x).0 ≡ x.0
db-read_back d id (db, none) = refl
db-read_back d id (db, some e) = refl

pub db-read_channel_back :
    (d : Driver) (id : Text) (x : Database × Option Error) → (read_channel_back d id x).0 ≡ x.0
db-read_channel_back d id (db, none) = refl
db-read_channel_back d id (db, some e) = refl

pub create_task-IsSound :
    (d1 d2 : Driver) (i : CreateTaskInput) (db : Database)
    → IsSound db
    → IsSound (create_task d1 d2 i db).0
unfolding create_task
create_task-IsSound d1 d2 i db s =
    subst IsSound (sym (db-read_back d2 i.id (transact d1 (insert_task i db) db)))
      (transact-IsSound d1 (insert_task i db) db s (λ db' h. insert_task-IsSound i db db' s h))

pub update_task-IsSound :
    (d1 d2 : Driver) (id : Text) (p : UpdateTaskInput) (db : Database)
    → IsSound db
    → IsSound (update_task d1 d2 id p db).0
unfolding update_task
update_task-IsSound d1 d2 id p db s = elim (Bool-cases (is_empty_patch p)) [
  | inl e ↦ rw e s
  | inr e ↦ rw e (
      subst IsSound (sym (db-read_back d2 id _)) (
        transact-IsSound d1 _ db s (λ db' h.
          patch_links-IsSound id p.channel_ids _ db'
            (updated_tasks-IsSound db (has_id id) (patch_task p) (λ t. unfold patch_task in refl) s)
            h)))
]

pub start_run-IsSound :
    (d : Driver) (now task_id : Text) (source : TriggerSource) (db : Database)
    → IsSound db
    → IsSound (start_run d now task_id source db).0
unfolding start_run
start_run-IsSound (some e) now task_id source db s = s
start_run-IsSound none now task_id source db s = elim (Bool-cases (any (has_id task_id) db.tasks)) [
  | inr e ↦ rw e s
  | inl e ↦ rw e (record {
    runs_have_tasks = All-append _ db.runs _ s.runs_have_tasks (e, tt);
    links_have_ends = s.links_have_ends;
    attempts_have_runs =
        All-map (λ a h. any-append_left (has_run_id a.run_id) db.runs _ h) db.attempts
          s.attempts_have_runs;
    attempts_have_channels = s.attempts_have_channels;
  })
]

-- Runs that are rewritten in place, under the same id and task.
pub updated_runs-IsSound :
    (db : Database) (q : Run → Bool) (f : Run → Run)
    → ((r : Run) → (f r).id ≡ r.id)
    → ((r : Run) → (f r).task_id ≡ r.task_id)
    → IsSound db
    → IsSound (record db { runs = update q f db.runs })
unfolding update
updated_runs-IsSound db q f same same_task s = record {
  runs_have_tasks = kept db.runs s.runs_have_tasks;
  links_have_ends = s.links_have_ends;
  attempts_have_runs =
      All-map
        (λ a h.
          any-update (has_run_id a.run_id) q f (λ r. ap (λ k. k == a.run_id) (same r)) db.runs ∙ h)
        db.attempts s.attempts_have_runs;
  attempts_have_channels = s.attempts_have_channels;
}
  where
    HasTask : Run → Type 0
    HasTask r = any (has_id r.task_id) db.tasks ≡ true

    kept : (rs : List Run) → All HasTask rs → All HasTask (update q f rs)
    kept [] h = tt
    kept (r ∷ rs) (h, hs) = elim (Bool-cases (q r)) [
      | inl e ↦ (rw e (rw (same_task r) h), kept rs hs)
      | inr e ↦ (rw e h, kept rs hs)
    ]
