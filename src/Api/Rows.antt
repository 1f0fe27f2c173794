-- ===== src/Api/Rows.antt =====
-- The rows of the tasks after the statements that the handlers issue.
use breckr.Base.{
  Text, Bool, true, false, not, ◌&&◌, any, if◌then◌else◌, Option, none, some, List, [], ◌∷◌, ◌++◌,
  Result, ok, err, ok_injective, guard-ok, else-ok, Bool-cases, ◌≡◌, ◌≢◌, inl, inr, refl, ap, sym,
  ◌∙◌, arith, find, update, find-update, find_sound, on_match, keep, ◌==◌, Text_eq, text_beq_iff,
}
use mathlib.Core.Option
use breckr.Types.Task.{Task}
use breckr.Store.Database.{Database, Driver, Error, transact, has_channel_id}
use breckr.Store.Tasks.{
  has_id, get_task, insert_links, set_task_channels, patch_links, insert_task, CreateTaskInput,
  create_task, read_back,
}

abbrev pub row : Text → Database → Option Task
row id db = find (has_id id) db.tasks

pub row-id : (id : Text) (db : Database) (t : Task) → row id db ≡ some t → t.id ≡ id
row-id id db t h = (text_beq_iff t.id id).0 (find_sound (has_id id) db.tasks t h)

find-append_some :
    {A : Type 0} (p : A → Bool) (xs ys : List A) (a : A)
    → find p xs ≡ some a
    → find p (xs ++ ys) ≡ some a
unfolding find
find-append_some p [] ys a h = cc h
find-append_some p (x ∷ xs) ys a h = ground (arith, find-append_some p xs ys a)

-- The links are written beside the rows.
insert_links-tasks :
    (id : Text) (cs : List Text) (db db' : Database)
    → insert_links id cs db ≡ ok db'
    → db'.tasks ≡ db.tasks
unfolding insert_links
insert_links-tasks id [] db db' h = ap (λ (x : Database). x.tasks) (sym (ok_injective h))
insert_links-tasks id (c ∷ cs) db db' h =
    let (_, h1) = guard-ok (any (λ l. l.task_id == id && l.channel_id == c) db.links) _ _ db' h in
    let (_, h2) =
      else-ok (any (has_id id) db.tasks && any (has_channel_id c) db.channels) _ _ db' h1 in
    insert_links-tasks id cs _ db' h2

pub patch_links-tasks :
    (id : Text) (o : Option (List Text)) (db db' : Database)
    → patch_links id o db ≡ ok db'
    → db'.tasks ≡ db.tasks
unfolding patch_links set_task_channels
patch_links-tasks id none db db' h = ap (λ (x : Database). x.tasks) (sym (ok_injective h))
patch_links-tasks id (some cs) db db' h = insert_links-tasks id cs _ db' h

insert_task-row :
    (i : CreateTaskInput) (db db' : Database) (k : Text) (t : Task)
    → insert_task i db ≡ ok db'
    → row k db ≡ some t
    → row k db' ≡ some t
unfolding insert_task set_task_channels
insert_task-row i db db' k t h found =
    let (_, h1) = guard-ok (any (has_id i.id) db.tasks) _ _ db' h in
    ap (find (has_id k)) (insert_links-tasks i.id i.channel_ids _ db' h1)
    ∙ find-append_some (has_id k) db.tasks _ t found

-- A transaction: nothing, or the whole of it.
pub transact-cases :
    (P : Database → Type 0) (d : Driver) (r : Result Error Database) (db : Database)
    → P db
    → ((db' : Database) → r ≡ ok db' → P db')
    → P (transact d r db).0
transact-cases P (some e) r db same new = same
transact-cases P none (ok db') db same new = new db' refl
transact-cases P none (err e) db same new = same

pub read_back-db :
    (d : Driver) (id : Text) (x : Database × Option Error) → (read_back d id x).0 ≡ x.0
read_back-db d id (db, none) = refl
read_back-db d id (db, some e) = refl

-- What is read back is the row that is there.
pub read_back-row :
    (d : Driver) (id : Text) (x : Database × Option Error) (t : Task)
    → (read_back d id x).1 ≡ ok (some t)
    → row id (read_back d id x).0 ≡ some t
unfolding get_task
read_back-row none id (db, none) t h = ok_injective h
read_back-row (some e) id (db, none) t h = cc h
read_back-row d id (db, some e) t h = cc h

-- What `create_task` keeps, and what it reads back.
pub create_task-row :
    (d1 d2 : Driver) (i : CreateTaskInput) (db : Database) (k : Text) (t : Task)
    → row k db ≡ some t
    → row k (create_task d1 d2 i db).0 ≡ some t
unfolding create_task
create_task-row d1 d2 i db k t h =
    ap (row k) (read_back-db d2 i.id (transact d1 (insert_task i db) db))
    ∙ transact-cases (λ x. row k x ≡ some t) d1 (insert_task i db) db h
        (λ db' q. insert_task-row i db db' k t q h)

pub create_task-read :
    (d1 d2 : Driver) (i : CreateTaskInput) (db : Database) (t : Task)
    → (create_task d1 d2 i db).1 ≡ ok (some t)
    → row i.id (create_task d1 d2 i db).0 ≡ some t
unfolding create_task
create_task-read d1 d2 i db t h = read_back-row d2 i.id (transact d1 (insert_task i db) db) t h

pub find-keep_ne :
    (id k : Text) (ts : List Task)
    → id ≢ k
    → find (has_id k) (keep (λ t. not (has_id id t)) ts) ≡ find (has_id k) ts
unfolding find
find-keep_ne id k [] n = refl
find-keep_ne id k (t ∷ ts) n = elim (Bool-cases (has_id id t)) [
  | inl e ↦ let other : has_id k t ≡ false = apart e in rw e (rw other (find-keep_ne id k ts n))
  | inr e ↦ rw (e, find) (ap (λ o. if has_id k t then some t else o) (find-keep_ne id k ts n))
]
  where
    apart : has_id id t ≡ true → has_id k t ≡ false
    apart e = elim (Bool-cases (has_id k t)) [
      | inl f ↦ absurd (n (sym ((text_beq_iff t.id id).0 e) ∙ (text_beq_iff t.id k).0 f))
      | inr f ↦ f
    ]

-- A statement that writes one row.
pub row-update :
    (id k : Text) (f : Task → Task) (ts : List Task)
    → ((t : Task) → (f t).id ≡ t.id)
    → find (has_id k) (update (has_id id) f ts)
      ≡ Option.map (on_match (has_id id) f) (find (has_id k) ts)
row-update id k f ts same = find-update (has_id id) (has_id k) f (λ t. ap (λ x. x == k) (same t)) ts
