-- ===== src/Api/Registered.antt =====
-- What an entry of the registry says of its task's row, and where `Register` puts one.
use breckr.Base.{
  Text, ℕ, Bool, true, false, not, Option, none, some, List, Result, ok, err, ◌≡◌, ◌≢◌, ◌⊎◌, inl,
  inr, refl, ap, sym, ◌∙◌, subst, if◌then◌else◌, if-true, if-false, lookup, put, delete, Text_eq,
  Eq-cases, Bool-cases, lookup-put_self, lookup-put_ne, lookup-delete_self, lookup-delete_ne,
}
use breckr.Types.Task.{Task, TaskSpec}
use breckr.Store.Database.{Error}
use breckr.Scheduler.Cron.{CronLib, Compiled, task_job}
use breckr.Scheduler.{
  CompilableTask, compile, Entry, Registry, armed, arm, remove_entry, remove_locked, register_spec,
  unregister,
}

abbrev pub compilable : Task → TaskSpec → CompilableTask
compilable t spec = record { id = t.id; name = t.name; cron_expr = t.cron_expr; spec = spec }

-- The definition is compiled from the row as it stands, and is on the schedule while it is enabled.
pub record Reflects (timeout : ℕ) (e : Entry) (t : Task) : Type 0 where
  pub spec : TaskSpec
  pub has_spec : t.spec ≡ some spec
  pub compiled : e.definition ≡ compile timeout (compilable t spec)
  pub scheduled : t.enabled ≡ true → e.entry_id ≢ 0
  pub idle : t.enabled ≡ false → e.entry_id ≡ 0

module _ {C : Type 0} (lib : CronLib C) (timeout : ℕ) where
  abbrev pub Found : Text → Entry → Registry C → Type 0
  Found id e r = lookup id r.entries ≡ some e

  delete-Found :
      (id k : Text) (e : Entry) (entries : List (Text × Entry))
      → lookup k (delete id entries) ≡ some e
      → (id ≢ k) × (lookup k entries ≡ some e)
  delete-Found id k e entries h = elim (Eq-cases id k) [
    | inl q ↦ cc (
      lookup-delete_self id entries,
      subst (λ i. lookup i (delete id entries) ≡ some e) (sym q) h,
    )
    | inr n ↦ (n, sym (lookup-delete_ne id k entries n) ∙ h)
  ]

  remove_entry-Found :
      (id k : Text) (e : Entry) (o : Option Entry) (r : Registry C)
      → lookup id r.entries ≡ o
      → Found k e (remove_entry lib timeout id o r)
      → (id ≢ k) × Found k e r
  unfolding remove_entry
  remove_entry-Found id k e none r found h =
      (λ q. cc (found, subst (λ i. lookup i r.entries ≡ some e) (sym q) h), h)
  remove_entry-Found id k e (some f) r found h = delete-Found id k e r.entries h

  pub unregister-Found :
      (id k : Text) (e : Entry) (r : Registry C)
      → Found k e (unregister lib timeout id r)
      → (id ≢ k) × Found k e r
  unfolding unregister remove_locked
  unregister-Found id k e r h = remove_entry-Found id k e (lookup id r.entries) r refl h

  -- The entry put, or one that was there.
  pub put-Found :
      (id k : Text) (new e : Entry) (r : Registry C)
      → lookup k (put id new r.entries) ≡ some e
      → ((id ≡ k) × (new ≡ e)) ⊎ ((id ≢ k) × Found k e r)
  put-Found id k new e r h = elim (Eq-cases id k) [
    | inl q ↦ inl (
      q,
      cc (
        lookup-put_self id new r.entries,
        subst (λ i. lookup i (put id new r.entries) ≡ some e) (sym q) h,
      ),
    )
    | inr n ↦ inr (n, sym (lookup-put_ne id k new r.entries n) ∙ h)
  ]

  -- What `AddFunc` gives out is not 0.
  abbrev pub GivesOut : C × Result Error ℕ → Type 0
  GivesOut (c, err x) = Unit
  GivesOut (c, ok n) = n ≢ 0

  pub add_func-GivesOut : (d : Compiled) (c : C) → GivesOut (lib.add_func d.cron (task_job d) c)
  add_func-GivesOut d c = go (lib.add_func d.cron (task_job d) c) refl
    where
      go : (x : C × Result Error ℕ) → lib.add_func d.cron (task_job d) c ≡ x → GivesOut x
      go (c', err x) e = tt
      go (c', ok n) e = (lib.add_func_ok d.cron (task_job d) c n (ap (λ p. p.1) e)).0

  pub armed-Found :
      (id k : Text) (e : Entry) (d : Compiled) (r : Registry C) (x : C × Result Error ℕ)
      → GivesOut x
      → Found k e (armed id d r x).0
      → ((id ≡ k) × (e.definition ≡ d) × (e.entry_id ≢ 0) × ((armed id d r x).1 ≡ true))
        ⊎ (((armed id d r x).1 ≡ true → id ≢ k) × Found k e r)
  unfolding armed
  armed-Found id k e d r (c, err x) g h = inr ((λ f. cc f), h)
  armed-Found id k e d r (c, ok n) g h =
      elim (put-Found id k (record { definition = d; entry_id = n }) e r h) [
        | inl (q, same) ↦ inl (
          q,
          ap (λ (f : Entry). f.definition) (sym same),
          subst (λ (f : Entry). f.entry_id ≢ 0) same g,
          refl,
        )
        | inr (n', kept) ↦ inr ((λ _. n'), kept)
      ]

  -- After `Register` with the handler installed: the task's own entry, from its row, or an entry of
  -- another task that was there.
  pub register_spec-Found :
      (t : Task) (o : Option TaskSpec) (r : Registry C) (k : Text) (e : Entry)
      → t.spec ≡ o
      → r.has_handler ≡ true
      → Found k e (register_spec lib timeout t o r).0
      → ((t.id ≡ k) × Reflects timeout e t) ⊎ (((t.id ≢ k) ⊎ (o ≡ none)) × Found k e r)
  unfolding register_spec arm unregister
  register_spec-Found t none r k e q on h = inr (inr refl, h)
  register_spec-Found t (some spec) r k e q on h = elim (Bool-cases t.enabled) [
    | inl on_schedule ↦
        elim (armed-Found t.id k e d cleared (lib.add_func d.cron (task_job d) cleared.cron)
          (add_func-GivesOut d cleared.cron)
          (subst (λ (x : Registry C × Bool). Found k e x.0) (if-true t.enabled _ _ on_schedule)
            armed_or_not)) [
              | inl (same, is, nz, _) ↦ inl (same, reflects is (λ _. nz) (λ f. cc (on_schedule, f)))
              | inr (_, kept) ↦ was_there kept
            ]
    | inr off ↦
        elim (put-Found t.id k (record { definition = d; entry_id = 0 }) e cleared
          (subst (λ (x : Registry C × Bool). Found k e x.0) (if-false t.enabled _ _ off)
            armed_or_not)) [
              | inl (same, is) ↦ inl (
                same,
                reflects (ap (λ (f : Entry). f.definition) (sym is)) (λ f. cc (off, f))
                    (λ _. ap (λ (f : Entry). f.entry_id) (sym is)),
              )
              | inr (n, kept) ↦ was_there kept
            ]
  ]
    where
      d : Compiled
      d = compile timeout (compilable t spec)

      cleared : Registry C
      cleared = remove_locked lib timeout t.id r

      armed_or_not :
          Found k e
            (if t.enabled then arm lib timeout t.id d cleared else (
              record cleared {
                entries = put t.id (record { definition = d; entry_id = 0 }) cleared.entries;
              },
              true,
            )).0
      armed_or_not =
          subst (λ (x : Registry C × Bool). Found k e x.0)
            (if-false (not r.has_handler) _ _ (ap not on)) h

      reflects :
          e.definition ≡ d
          → (t.enabled ≡ true → e.entry_id ≢ 0)
          → (t.enabled ≡ false → e.entry_id ≡ 0)
          → Reflects timeout e t
      reflects is up down = record {
        spec = spec;
        has_spec = q;
        compiled = is;
        scheduled = up;
        idle = down;
      }

      was_there :
          Found k e cleared
          → ((t.id ≡ k) × Reflects timeout e t) ⊎ (((t.id ≢ k) ⊎ (some spec ≡ none)) × Found k e r)
      was_there kept = let (n, found) = unregister-Found t.id k e r kept in inr (inl n, found)
