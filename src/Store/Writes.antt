-- ===== src/Store/Writes.antt =====
-- The references between the tables, through the statements on runs, attempts and channels.
use breckr.Base.{
  Text, ℕ, Bool, true, not, ◌&&◌, ◌||◌, Option, none, some, List, [], ◌∷◌, ◌++◌, Result, ok, err,
  ◌≡◌, refl, ◌∙◌, ap, sym, subst, arith, if◌then◌else◌, inl, inr, All-append, any, update,
  Bool-cases, ◌==◌, Text_eq, ℕ_eq,
}
use breckr.Types.Run.{NotificationAttempt}
use breckr.Store.Database.{Database, StoredChannel, Driver, Error, transact, has_channel_id}
use breckr.Store.Tasks.{is_none}
use breckr.Store.Runs.{
  has_run_id, CompleteRunInput, completed, complete_run, sweep_interrupted_runs,
}
use breckr.Store.Channels.{
  AttemptInput, attempt_row, accepts, insert_attempts, record_attempts, CreateChannelInput,
  UpdateChannelInput, read_channel_back, names, with_config, new_channel, is_empty_channel_patch,
  insert_channel, create_channel, patch_channel, write_channel, update_channel,
}
use breckr.Store.References.{
  any-append_left, any-update, HasChannel, IsSound, channels-IsSound, transact-IsSound,
  updated_runs-IsSound, db-read_channel_back,
}

pub complete_run-IsSound :
    (d : Driver) (now : Text) (i : CompleteRunInput) (db : Database)
    → IsSound db
    → IsSound (complete_run d now i db).0
unfolding complete_run completed
complete_run-IsSound none now i db s =
    updated_runs-IsSound db (has_run_id i.id) (completed now i) (λ r. refl) (λ r. refl) s
complete_run-IsSound (some e) now i db s = s

pub sweep-IsSound :
    (d : Driver) (now : Text) (db : Database)
    → IsSound db
    → IsSound (sweep_interrupted_runs d now db).0
unfolding sweep_interrupted_runs
sweep-IsSound none now db s = updated_runs-IsSound db _ _ (λ r. refl) (λ r. refl) s
sweep-IsSound (some e) now db s = s

insert_attempts-IsSound :
    (now : Text) (run_id : ℕ) (is : List AttemptInput) (db db' : Database)
    → IsSound db
    → insert_attempts now run_id is db ≡ ok db'
    → IsSound db'
unfolding insert_attempts accepts
insert_attempts-IsSound now run_id [] db db' s h = subst IsSound (cc) s
insert_attempts-IsSound now run_id (i ∷ is) db db' s h = elim (Bool-cases (accepts db row)) [
  | inr e ↦ absurd (ground (arith, e))
  | inl e ↦
      insert_attempts-IsSound now run_id is (record db { attempts = db.attempts ++ row ∷ [] }) db'
        (record {
          runs_have_tasks = s.runs_have_tasks;
          links_have_ends = s.links_have_ends;
          attempts_have_runs =
              All-append _ db.attempts _ s.attempts_have_runs (ground (arith, e), tt);
          attempts_have_channels =
              All-append _ db.attempts _ s.attempts_have_channels (channel row e, tt);
        })
        (rw e at h)
]
  where
    row : NotificationAttempt
    row = attempt_row now run_id i

    channel : (a : NotificationAttempt) → accepts db a ≡ true → HasChannel db.channels a.channel_id
    channel a e = go a.channel_id refl
      where
        go : (o : Option Text) → a.channel_id ≡ o → HasChannel db.channels o
        go none q = tt
        go (some c) q = ground (arith, e)

pub record_attempts-IsSound :
    (d : Driver) (now : Text) (run_id : ℕ) (is : List AttemptInput) (db : Database)
    → IsSound db
    → IsSound (record_attempts d now run_id is db).0
unfolding record_attempts
record_attempts-IsSound d now run_id [] db s = s
record_attempts-IsSound d now run_id (i ∷ is) db s =
    transact-IsSound d _ db s (λ db' h. insert_attempts-IsSound now run_id (i ∷ is) db db' s h)

insert_channel-IsSound :
    (is_json : Text → Bool) (i : CreateChannelInput) (db db' : Database)
    → IsSound db
    → insert_channel is_json i db ≡ ok db'
    → IsSound db'
unfolding insert_channel
insert_channel-IsSound is_json i db db' s h =
    elim (Bool-cases (any (λ c. c.id == i.id || c.name == i.name) db.channels)) [
      | inl e ↦ absurd (ground (arith, e))
      | inr e ↦ subst IsSound (cc (rw e at h)) (
          channels-IsSound db (db.channels ++ with_config is_json i.config (new_channel i) ∷ [])
            (λ id. any-append_left (has_channel_id id) db.channels _) s)
    ]

pub create_channel-IsSound :
    (is_json : Text → Bool) (c : Option Error) (d1 d2 : Driver) (i : CreateChannelInput)
    (db : Database)
    → IsSound db
    → IsSound (create_channel is_json c d1 d2 i db).0
unfolding create_channel
create_channel-IsSound is_json (some e) d1 d2 i db s = s
create_channel-IsSound is_json none d1 d2 i db s =
    subst IsSound (sym (db-read_channel_back d2 i.id _))
      (transact-IsSound d1 _ db s (λ db' h. insert_channel-IsSound is_json i db db' s h))

write_channel-IsSound :
    (is_json : Text → Bool) (id : Text) (p : UpdateChannelInput) (db db' : Database)
    → IsSound db
    → write_channel is_json id p db ≡ ok db'
    → IsSound db'
unfolding write_channel patch_channel with_config
write_channel-IsSound is_json id p db db' s h =
    elim (Bool-cases (
      any (has_channel_id id) db.channels
      && any (λ c. not (c.id == id) && names c.name p.name) db.channels)) [
        | inl e ↦ absurd (ground (arith, e))
        | inr e ↦ subst IsSound (cc (rw e at h)) (
            channels-IsSound db (update (has_channel_id id) (patch_channel is_json p) db.channels)
              (λ k g.
                any-update (has_channel_id k) (has_channel_id id) (patch_channel is_json p)
                  (λ c. ap (λ i. i == k) (id-patch_channel c)) db.channels
                ∙ g)
              s)
      ]
  where
    id-patch_channel : (c : StoredChannel) → (patch_channel is_json p c).id ≡ c.id
    id-patch_channel c = ground arith

pub update_channel-IsSound :
    (is_json : Text → Bool) (c : Option Error) (d1 d2 : Driver) (id : Text) (p : UpdateChannelInput)
    (db : Database)
    → IsSound db
    → IsSound (update_channel is_json c d1 d2 id p db).0
unfolding update_channel
update_channel-IsSound is_json c d1 d2 id p db s = elim (Bool-cases (is_empty_channel_patch p)) [
  | inl e ↦ rw e s
  | inr e ↦ rw e (answered (if is_none p.config then none else c))
]
  where
    written : Database × Result Error (Option StoredChannel)
    written = read_channel_back d2 id (transact d1 (write_channel is_json id p db) db)

    answered :
        (o : Option Error)
        → IsSound
            (elim o as (λ _. Database × Result Error (Option StoredChannel)) [
              | none ↦ written
              | some e ↦ (db, err e)
            ]).0
    answered (some e) = s
    answered none =
        subst IsSound (sym (db-read_channel_back d2 id _))
          (transact-IsSound d1 _ db s (λ db' h. write_channel-IsSound is_json id p db db' s h))
