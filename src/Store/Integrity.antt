-- ===== src/Store/Integrity.antt =====
-- The references between the tables, through every sequence of the statements that write them.
use breckr.Base.{
  Text, ℕ, Bool, true, false, not, ◌&&◌, Option, none, some, List, [], ◌∷◌, map, ◌≡◌, refl, arith,
  if◌then◌else◌, inl, inr, All, All-keep, any, keep, Bool-cases, ◌==◌, Text_eq, ℕ_eq,
}
use breckr.Types.Run.{TriggerSource, NotificationAttempt}
use breckr.Store.Database.{Database, StoredChannel, Driver, Error, has_channel_id}
use breckr.Store.Tasks.{
  CreateTaskInput, create_task, UpdateTaskInput, update_task, delete_task, set_task_enabled,
  set_task_condition_met, mark_task_notified,
}
use breckr.Store.Runs.{
  has_run_id, start_run, CompleteRunInput, complete_run, sweep_interrupted_runs, prune_runs,
}
use breckr.Store.Channels.{
  AttemptInput, record_attempts, CreateChannelInput, UpdateChannelInput, forget_channel, names,
  create_channel, update_channel, delete_channel,
}
use breckr.Store.References.{
  any-drop, HasChannel, IsSound, updated_tasks-IsSound, create_task-IsSound, update_task-IsSound,
  start_run-IsSound,
}
use breckr.Store.Writes.{
  complete_run-IsSound, sweep-IsSound, record_attempts-IsSound, create_channel-IsSound,
  update_channel-IsSound,
}

-- Rows that are kept, with what was true of them.
All-kept :
    {A : Type 0} (P Q : A → Type 0) (q : A → Bool)
    → ((a : A) → q a ≡ false → P a → Q a)
    → (xs : List A) → All P xs
    → All Q (keep (λ x. not (q x)) xs)
All-kept P Q q f [] h = tt
All-kept P Q q f (x ∷ xs) (h, hs) = elim (Bool-cases (q x)) [
  | inl e ↦ rw e (All-kept P Q q f xs hs)
  | inr e ↦ rw e (f x e h, All-kept P Q q f xs hs)
]

-- What is found by one key is still found when the rows of another are gone.
any-other :
    {A : Type 0} (f : A → Text) (k a : Text) (xs : List A)
    → (a == k) ≡ false
    → any (λ x. f x == a) xs ≡ true
    → any (λ x. f x == a) (keep (λ x. not (f x == k)) xs) ≡ true
any-other {A = A} f k a xs ne h = any-drop (λ x. f x == a) (λ x. f x == k) xs h (none_of xs)
  where
    none_of : (ys : List A) → any (λ x. f x == a && f x == k) ys ≡ false
    none_of [] = refl
    none_of (y ∷ ys) =
        ground
          (arith, none_of ys, Text_eq.beq_iff (f y) a, Text_eq.beq_iff (f y) k, Text_eq.beq_iff a k)

delete_channel-IsSound :
    (d : Driver) (id : Text) (db : Database) → IsSound db → IsSound (delete_channel d id db).0
unfolding delete_channel
delete_channel-IsSound (some e) id db s = s
delete_channel-IsSound none id db s = record {
  runs_have_tasks = s.runs_have_tasks;
  links_have_ends =
      All-kept _ _ (λ l. l.channel_id == id)
        (λ l e h. (h.0, any-other (λ c. c.id) id l.channel_id db.channels e h.1)) db.links
        s.links_have_ends;
  attempts_have_runs = forgotten_runs db.attempts s.attempts_have_runs;
  attempts_have_channels = forgotten db.attempts s.attempts_have_channels;
}
  where
    left : List StoredChannel
    left = keep (λ c. not (has_channel_id id c)) db.channels

    forgotten_runs :
        (xs : List NotificationAttempt)
        → All (λ a. any (has_run_id a.run_id) db.runs ≡ true) xs
        → All (λ a. any (has_run_id a.run_id) db.runs ≡ true) (map (forget_channel id) xs)
    forgotten_runs [] h = tt
    forgotten_runs (a ∷ xs) (h, hs) = (same (names id a.channel_id), forgotten_runs xs hs)
      where
        same :
            (b : Bool)
            → any (has_run_id (if b then record a { channel_id = none } else a).run_id) db.runs
              ≡ true
        same true = h
        same false = h

    forget :
        (o : Option Text)
        → HasChannel db.channels o
        → HasChannel left (if names id o then none else o)
    forget none h = tt
    forget (some c) h = elim (Bool-cases (c == id)) [
      | inl e ↦ rw e tt
      | inr e ↦ rw e (any-other (λ c. c.id) id c db.channels e h)
    ]

    forgotten :
        (xs : List NotificationAttempt)
        → All (λ a. HasChannel db.channels a.channel_id) xs
        → All (λ a. HasChannel left a.channel_id) (map (forget_channel id) xs)
    forgotten [] h = tt
    forgotten (a ∷ xs) (h, hs) =
        (moved (names id a.channel_id) (forget a.channel_id h), forgotten xs hs)
      where
        moved :
            (b : Bool)
            → HasChannel left (if b then none else a.channel_id)
            → HasChannel left (if b then record a { channel_id = none } else a).channel_id
        moved true h = h
        moved false h = h

prune_runs-IsSound :
    (d : Driver) (cutoff : Text) (db : Database) → IsSound db → IsSound (prune_runs d cutoff db).0
unfolding prune_runs
prune_runs-IsSound (some e) cutoff db s = s
prune_runs-IsSound none cutoff db s = record {
  runs_have_tasks = All-keep _ _ db.runs s.runs_have_tasks;
  links_have_ends = s.links_have_ends;
  attempts_have_runs =
      All-kept _ _ _ (λ a e h. any-drop (has_run_id a.run_id) _ db.runs h e) db.attempts
        s.attempts_have_runs;
  attempts_have_channels = All-keep _ _ db.attempts s.attempts_have_channels;
}

delete_task-IsSound :
    (d : Driver) (id : Text) (db : Database) → IsSound db → IsSound (delete_task d id db).0
unfolding delete_task
delete_task-IsSound (some e) id db s = s
delete_task-IsSound none id db s = record {
  runs_have_tasks =
      All-kept _ _ (λ r. r.task_id == id) (λ r e h. any-other (λ t. t.id) id r.task_id db.tasks e h)
        db.runs s.runs_have_tasks;
  links_have_ends =
      All-kept _ _ (λ l. l.task_id == id)
        (λ l e h. (any-other (λ t. t.id) id l.task_id db.tasks e h.0, h.1)) db.links
        s.links_have_ends;
  attempts_have_runs =
      All-kept _ _ _ (λ a e h. any-drop (has_run_id a.run_id) (λ r. r.task_id == id) db.runs h e)
        db.attempts s.attempts_have_runs;
  attempts_have_channels = All-keep _ _ db.attempts s.attempts_have_channels;
}

-- A call of a store that writes, with what the driver and the cipher answer.
pub data Write : Type 0 where
  creates_task : Driver → Driver → CreateTaskInput → Write
  updates_task : Driver → Driver → Text → UpdateTaskInput → Write
  deletes_task : Driver → Text → Write
  enables_task : Driver → Text → Bool → Write
  arms_task : Driver → Text → Bool → Write
  marks_task : Driver → Text → Text → Write
  starts_run : Driver → Text → Text → TriggerSource → Write
  completes_run : Driver → Text → CompleteRunInput → Write
  sweeps_runs prunes_runs : Driver → Text → Write
  records_attempts : Driver → Text → ℕ → List AttemptInput → Write
  creates_channel : Option Error → Driver → Driver → CreateChannelInput → Write
  updates_channel : Option Error → Driver → Driver → Text → UpdateChannelInput → Write
  deletes_channel : Driver → Text → Write

-- A database after the migrations.
abbrev pub empty_database : Database
empty_database = record {
  tasks = [];
  runs = [];
  next_run_id = 1;
  channels = [];
  links = [];
  attempts = [];
}

module _ (is_json : Text → Bool) where
  unfoldable pub write : Write → Database → Database
  write (creates_task d1 d2 i) db = (create_task d1 d2 i db).0
  write (updates_task d1 d2 id p) db = (update_task d1 d2 id p db).0
  write (deletes_task d id) db = (delete_task d id db).0
  write (enables_task d id on) db = (set_task_enabled d id on db).0
  write (arms_task d id met) db = (set_task_condition_met d id met db).0
  write (marks_task d now id) db = (mark_task_notified d now id db).0
  write (starts_run d now task_id source) db = (start_run d now task_id source db).0
  write (completes_run d now i) db = (complete_run d now i db).0
  write (sweeps_runs d now) db = (sweep_interrupted_runs d now db).0
  write (prunes_runs d cutoff) db = (prune_runs d cutoff db).0
  write (records_attempts d now run_id is) db = (record_attempts d now run_id is db).0
  write (creates_channel c d1 d2 i) db = (create_channel is_json c d1 d2 i db).0
  write (updates_channel c d1 d2 id p) db = (update_channel is_json c d1 d2 id p db).0
  write (deletes_channel d id) db = (delete_channel d id db).0

  unfoldable pub write_all : List Write → Database → Database
  unfolding write
  write_all [] db = db
  write_all (w ∷ ws) db = write_all ws (write w db)

  write-IsSound : (w : Write) (db : Database) → IsSound db → IsSound (write w db)
  unfolding write set_task_enabled set_task_condition_met mark_task_notified
  write-IsSound (creates_task d1 d2 i) db s = create_task-IsSound d1 d2 i db s
  write-IsSound (updates_task d1 d2 id p) db s = update_task-IsSound d1 d2 id p db s
  write-IsSound (deletes_task d id) db s = delete_task-IsSound d id db s
  write-IsSound (enables_task none id on) db s = updated_tasks-IsSound db _ _ (λ t. refl) s
  write-IsSound (enables_task (some e) id on) db s = s
  write-IsSound (arms_task none id met) db s = updated_tasks-IsSound db _ _ (λ t. refl) s
  write-IsSound (arms_task (some e) id met) db s = s
  write-IsSound (marks_task none now id) db s = updated_tasks-IsSound db _ _ (λ t. refl) s
  write-IsSound (marks_task (some e) now id) db s = s
  write-IsSound (starts_run d now task_id source) db s = start_run-IsSound d now task_id source db s
  write-IsSound (completes_run d now i) db s = complete_run-IsSound d now i db s
  write-IsSound (sweeps_runs d now) db s = sweep-IsSound d now db s
  write-IsSound (prunes_runs d cutoff) db s = prune_runs-IsSound d cutoff db s
  write-IsSound (records_attempts d now run_id is) db s =
      record_attempts-IsSound d now run_id is db s
  write-IsSound (creates_channel c d1 d2 i) db s = create_channel-IsSound is_json c d1 d2 i db s
  write-IsSound (updates_channel c d1 d2 id p) db s =
      update_channel-IsSound is_json c d1 d2 id p db s
  write-IsSound (deletes_channel d id) db s = delete_channel-IsSound d id db s

  write_on-IsSound : (ws : List Write) (db : Database) → IsSound db → IsSound (write_all ws db)
  unfolding write_all
  write_on-IsSound [] db s = s
  write_on-IsSound (w ∷ ws) db s = write_on-IsSound ws (write w db) (write-IsSound w db s)

  -- After any sequence of the stores' writes to an empty database, whatever the driver and the
  -- cipher answer, every run belongs to a stored task, every link joins a stored task and a
  -- stored channel, and every attempt belongs to a stored run and names a stored channel or none.
  pub write_all-IsSound : (ws : List Write) → IsSound (write_all ws empty_database)
  write_all-IsSound ws = write_on-IsSound ws empty_database (record {
    runs_have_tasks = tt;
    links_have_ends = tt;
    attempts_have_runs = tt;
    attempts_have_channels = tt;
  })
