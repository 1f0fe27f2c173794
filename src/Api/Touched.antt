-- ===== src/Api/Touched.antt =====
-- Statements that write the row of one task, as `HandleUpdateTask` issues them.
use breckr.Base.{
  Text, Bool, true, false, Option, none, some, List, Result, ok, err, Option-cases, Bool-cases, ◌≡◌,
  ◌≢◌, inl, inr, refl, ap, sym, ◌∙◌, on_if, subst, Text_eq, find, update, on_match, ◌==◌,
  text_beq_iff, if-true, if-false,
}
use mathlib.Core.Option
use breckr.Types.Task.{Task}
use breckr.Store.Database.{Database, Driver, Error, transact}
use breckr.Store.Tasks.{
  has_id, get_task, patch_task, patch_links, UpdateTaskInput, update_task, is_empty_patch,
  set_tasks, set_task_enabled, read_back,
}
use breckr.Api.Rows.{row, row-id, row-update, transact-cases, patch_links-tasks, read_back-db}

-- Statements on one row: the others stay, and it stays one with a spec.
pub record Touched (id : Text) (db db' : Database) : Type 0 where
  pub others : (k : Text) (t : Task) → id ≢ k → row k db ≡ some t → row k db' ≡ some t
  pub own :
      (t : Task)
      → row id db ≡ some t
      → (s : Task) × (row id db' ≡ some s) × (s.spec ≡ none → t.spec ≡ none)

Touched-refl : (id : Text) (db : Database) → Touched id db db
Touched-refl id db = record { others = λ k t n h. h; own = λ t h. (t, h, λ q. q) }

pub Touched-trans :
    (id : Text) (a b c : Database) → Touched id a b → Touched id b c → Touched id a c
Touched-trans id a b c f g = record {
  others = λ k t n h. g.others k t n (f.others k t n h);
  own = λ t h.
      let (s, h1, back) = f.own t h in
      let (u, h2, again) = g.own s h1 in (u, h2, λ q. back (again q));
}

-- One row, written by a function that keeps its id and does not take its spec away.
pub row-update_ne :
    (id k : Text) (f : Task → Task) (ts : List Task) (t : Task)
    → ((s : Task) → (f s).id ≡ s.id)
    → id ≢ k
    → find (has_id k) ts ≡ some t
    → t.id ≡ k
    → find (has_id k) (update (has_id id) f ts) ≡ some t
row-update_ne id k f ts t same n h at =
    let other : (t.id == id) ≡ false = elim (Bool-cases (t.id == id)) [
      | inl z ↦ absurd (n (sym ((text_beq_iff t.id id).0 z) ∙ at))
      | inr z ↦ z
    ] in
    row-update id k f ts same ∙ ap (Option.map (on_match (has_id id) f)) h ∙ rw other refl

pub row-update_own :
    (id : Text) (f : Task → Task) (ts : List Task) (t : Task)
    → ((s : Task) → (f s).id ≡ s.id)
    → find (has_id id) ts ≡ some t
    → t.id ≡ id
    → find (has_id id) (update (has_id id) f ts) ≡ some (f t)
row-update_own id f ts t same h at =
    let mine : (t.id == id) ≡ true = (text_beq_iff t.id id).1 at in
    row-update id id f ts same ∙ ap (Option.map (on_match (has_id id) f)) h ∙ rw mine refl

update-Touched :
    (id : Text) (f : Task → Task) (db db' : Database)
    → ((s : Task) → (f s).id ≡ s.id)
    → ((s : Task) → (f s).spec ≡ none → s.spec ≡ none)
    → db'.tasks ≡ update (has_id id) f db.tasks
    → Touched id db db'
update-Touched id f db db' same keeps e = record {
  others = λ k t n h.
      ap (find (has_id k)) e ∙ row-update_ne id k f db.tasks t same n h (row-id k db t h);
  own = λ t h. (
    f t,
    ap (find (has_id id)) e ∙ row-update_own id f db.tasks t same h (row-id id db t h),
    keeps t,
  );
}

patch_task-id : (p : UpdateTaskInput) (t : Task) → (patch_task p t).id ≡ t.id
unfolding patch_task
patch_task-id p t = refl

patch_task-spec : (p : UpdateTaskInput) (t : Task) → (patch_task p t).spec ≡ none → t.spec ≡ none
unfolding patch_task
patch_task-spec p t h = elim (Option-cases p.spec) [
  | inl e ↦ rw e at h
  | inr (s, e) ↦ cc (rw e at h)
]

pub update_task-Touched :
    (d1 d2 : Driver) (id : Text) (p : UpdateTaskInput) (db : Database)
    → Touched id db (update_task d1 d2 id p db).0
unfolding update_task
update_task-Touched d1 d2 id p db =
    on_if (λ (x : Database × Result Error (Option Task)). Touched id db x.0) (is_empty_patch p) _ _
      (Touched-refl id db)
      (subst (Touched id db) (sym (read_back-db d2 id (transact d1 written db))) (
        transact-cases (Touched id db) d1 written db (Touched-refl id db) (λ db' q.
          update-Touched id (patch_task p) db db' (patch_task-id p) (patch_task-spec p)
            (patch_links-tasks id p.channel_ids _ db' q))))
  where
    written : Result Error Database
    written = patch_links id p.channel_ids (set_tasks (update (has_id id) (patch_task p)) db)

-- A write whose row is read back, and which reports an error, wrote nothing.
written-err :
    (d : Driver) (id : Text) (r : Result Error Database) (db : Database) (e : Error)
    → (read_back none id (transact d r db)).1 ≡ err e
    → (read_back none id (transact d r db)).0 ≡ db
unfolding get_task
written-err (some x) id r db e h = refl
written-err none id (ok db') db e h = cc h
written-err none id (err x) db e h = refl

pub update_task-err :
    (d : Driver) (id : Text) (p : UpdateTaskInput) (db : Database) (e : Error)
    → (update_task d none id p db).1 ≡ err e
    → (update_task d none id p db).0 ≡ db
unfolding update_task
update_task-err d id p db e h = elim (Bool-cases (is_empty_patch p)) [
  | inl z ↦
      ap (λ (x : Database × Result Error (Option Task)). x.0) (if-true (is_empty_patch p) _ _ z)
  | inr z ↦
      let is = if-false (is_empty_patch p) _ _ z in
      ap (λ (x : Database × Result Error (Option Task)). x.0) is
      ∙ written-err d id _ db e
          (sym (ap (λ (x : Database × Result Error (Option Task)). x.1) is) ∙ h)
]

pub set_task_enabled-Touched :
    (d : Driver) (id : Text) (on : Bool) (db : Database)
    → Touched id db (set_task_enabled d id on db).0
unfolding set_task_enabled
set_task_enabled-Touched (some x) id on db = Touched-refl id db
set_task_enabled-Touched none id on db =
    update-Touched id (λ t. record t { enabled = on }) db _ (λ s. refl) (λ s q. q) refl
