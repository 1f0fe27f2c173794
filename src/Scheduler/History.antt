-- ===== src/Scheduler/History.antt =====
-- The registry after any calls of its methods: which schedules there are, and what they fire.
use breckr.Base.{
  ℕ, true, some, List, [], ◌∷◌, Result, ok, err, ◌≡◌, refl, ◌∙◌, ap, sym, subst, lookup, Text_eq,
  ℕ_eq,
}
use breckr.Types.Task.{Task}
use breckr.Store.Database.{Database, Error, Driver}
use breckr.Store.Tasks.{list_tasks}
use breckr.Scheduler.Cron.{CronLib, Compiled, task_job}
use breckr.Scheduler.{
  Entry, Registry, register, unregister, register_all, schedule_all, set_enabled, get_definition,
  new_registry, Call, registers, unregisters, enables, schedules_all, shares, step, run,
}
use breckr.Scheduler.Invariant.{Inv}
use breckr.Scheduler.Keeps.{remove_locked-Cleared, register_spec-Inv, share-Inv, enable_entry-Inv}

module _ {C : Type 0} (lib : CronLib C) (timeout : ℕ) where
  register_all-Inv :
      (ts : List Task) (r : Registry C) → Inv lib r → Inv lib (register_all lib timeout ts r)
  unfolding register_all register
  register_all-Inv [] r v = v
  register_all-Inv (t ∷ ts) r v =
      register_all-Inv ts (register lib timeout t r).0 (register_spec-Inv lib timeout t t.spec r v)

  pub schedule_all-Inv :
      (d : Driver) (db : Database) (r : Registry C)
      → Inv lib r
      → Inv lib (schedule_all lib timeout d db r).0
  unfolding schedule_all
  schedule_all-Inv d db r v = go (list_tasks d db) refl
    where
      with_handler : Inv lib (record r { has_handler = true })
      with_handler = record {
        keyed = v.keyed;
        live = v.live;
        owned = v.owned;
        unused_zero = v.unused_zero;
      }

      go :
          (x : Result Error (List Task))
          → list_tasks d db ≡ x
          → Inv lib (schedule_all lib timeout d db r).0
      go (ok ts) e =
          rw (e, schedule_all) (register_all-Inv ts (record r { has_handler = true }) with_handler)
      go (err x) e = rw (e, schedule_all) with_handler

  step-Inv :
      (c : Call) (r : Registry C) (db : Database)
      → Inv lib r
      → Inv lib (step lib timeout c (r, db)).0
  unfolding step register unregister set_enabled
  step-Inv (registers t) r db v = register_spec-Inv lib timeout t t.spec r v
  step-Inv (unregisters id) r db v = (remove_locked-Cleared lib timeout id r v).0
  step-Inv (enables d id on) r db v =
      enable_entry-Inv lib timeout id on (lookup id r.entries) r refl v
  step-Inv (schedules_all d) r db v = schedule_all-Inv d db r v
  step-Inv (shares expr name) r db v = share-Inv lib timeout expr name r v

  run_on-Inv :
      (cs : List Call) (r : Registry C) (db : Database)
      → Inv lib r
      → Inv lib (run lib timeout cs (r, db)).0
  unfolding run
  run_on-Inv [] r db v = v
  run_on-Inv (c ∷ cs) r db v =
      let (r', db') = step lib timeout c (r, db) in run_on-Inv cs r' db' (step-Inv c r db v)

  pub new_registry-Inv : Inv lib (new_registry lib)
  unfolding new_registry lookup
  new_registry-Inv = record {
    keyed = λ k e h. cc;
    live = λ k e h n. cc;
    owned = λ j d h. absurd (cc (lib.job-new j));
    unused_zero = lib.job-new 0;
  }

  pub run-Inv :
      (cs : List Call) (db : Database) → Inv lib (run lib timeout cs (new_registry lib, db)).0
  run-Inv cs db = run_on-Inv cs (new_registry lib) db new_registry-Inv

  -- After any calls of the registry's methods from an empty one, a schedule that fires a task
  -- fires the definition that the registry holds for its id, and no other schedule fires that
  -- task.
  pub run-schedules :
      (cs : List Call) (db : Database) (j k : ℕ) (d b : Compiled)
      → let r = (run lib timeout cs (new_registry lib, db)).0 in
        lib.job r.cron j ≡ some (task_job d)
        → (get_definition lib timeout d.id r ≡ some d)
          × (lib.job r.cron k ≡ some (task_job b) → b.id ≡ d.id → (b ≡ d) × (k ≡ j))
  unfolding get_definition
  run-schedules cs db j k d b fires =
      let r = (run lib timeout cs (new_registry lib, db)).0 in
      let v = run-Inv cs db in
      let (e, found, i, q) = v.owned j d fires in
      (
        rw (found, get_definition) (ap some q),
        λ fires' same.
            let (f, found', i', q') = v.owned k b fires' in
            let f≡e : f ≡ e = cc (subst (λ x. lookup x r.entries ≡ some f) same found', found) in
            (
              sym q' ∙ ap (λ (x : Entry). x.definition) f≡e ∙ q,
              sym i' ∙ ap (λ (x : Entry). x.entry_id) f≡e ∙ i,
            ),
      )
