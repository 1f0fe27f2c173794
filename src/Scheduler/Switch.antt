-- ===== src/Scheduler/Switch.antt =====
-- Switching a task on and off, and removing it, after any calls of the registry's methods.
use breckr.Base.{
  Text, ℕ, Bool, true, false, Option, none, some, List, Result, ok, err, ◌≡◌, ◌≢◌, refl, ap, inl,
  inr, arith, nat_eq, nat_eq_iff, lookup, Text_eq, ℕ_eq, lookup-delete_self, Bool-cases,
}
use breckr.Store.Database.{Database, Error, Driver}
use breckr.Scheduler.Cron.{CronLib, Compiled, task_job}
use breckr.Scheduler.{
  Entry, Registry, armed, arm, remove_entry, remove_locked, unregister, enable_entry, set_enabled,
  get_definition, new_registry, Call, run,
}
use breckr.Scheduler.Invariant.{Inv, IsSilent, Added, add_func-Added, zero-IsSilent}
use breckr.Scheduler.Keeps.{remove_locked-Cleared, disarmed-Cleared}
use breckr.Scheduler.History.{run-Inv}

module _ {C : Type 0} (lib : CronLib C) (timeout : ℕ) where
  -- Some schedule fires this task.
  abbrev IsArmed : Text → C → Type 0
  IsArmed id c = (j : ℕ) × (d : Compiled) × (lib.job c j ≡ some (task_job d)) × (d.id ≡ id)

  abbrev Follows : Text → Bool → C → Type 0
  Follows id true c = IsArmed id c
  Follows id false c = IsSilent lib id c

  abbrev Switched : Text → Bool → Registry C → Registry C × Bool → Type 0
  Switched id on r (r', known) =
      (known ≡ true → Follows id on r'.cron) × (known ≡ false → r'.entries ≡ r.entries)

  armed-IsArmed :
      (id : Text) (d : Compiled) (r : Registry C) (x : C × Result Error ℕ)
      → Added lib d r.cron x
      → d.id ≡ id
      → Switched id true r (armed id d r x)
  unfolding armed
  armed-IsArmed id d r (c, err x) a at = (λ h. cc, λ h. refl)
  armed-IsArmed id d r (c, ok n) (nz, unused, jobs) at =
      (λ h. (n, d, ground (arith, jobs n), at), λ h. cc)

  enable_entry-Switched :
      (id : Text) (on : Bool) (o : Option Entry) (r : Registry C)
      → lookup id r.entries ≡ o
      → Inv lib r
      → Switched id on r (enable_entry lib timeout id on o r)
  unfolding enable_entry arm
  enable_entry-Switched id on none r found v = (λ h. cc, λ h. refl)
  enable_entry-Switched id true (some e) r found v = elim (Bool-cases (nat_eq e.entry_id 0)) [
    | inl z ↦ rw z (
        armed-IsArmed id e.definition r
          (lib.add_func e.definition.cron (task_job e.definition) r.cron)
          (add_func-Added lib e.definition r.cron) (v.keyed id e found))
    | inr z ↦
        let nz : e.entry_id ≢ 0 = λ q. cc ((nat_eq_iff e.entry_id 0).1 q) in
        rw z
          ((λ h. (e.entry_id, e.definition, v.live id e found nz, v.keyed id e found)), λ h. refl)
  ]
  enable_entry-Switched id false (some e) r found v = elim (Bool-cases (nat_eq e.entry_id 0)) [
    | inl z ↦
        let zero : e.entry_id ≡ 0 = (nat_eq_iff e.entry_id 0).0 z in
        rw z ((λ h. zero-IsSilent lib id r v e found zero), λ h. refl)
    | inr z ↦
        let nz : e.entry_id ≢ 0 = λ q. cc ((nat_eq_iff e.entry_id 0).1 q) in
        rw z ((λ h. (disarmed-Cleared lib timeout id r e v found nz).1), λ h. cc)
  ]

  -- After any calls of the registry's methods, SetEnabled(id, true) that reports a task leaves a
  -- schedule that fires a task of this id, SetEnabled(id, false) that reports a task leaves none,
  -- and a refusal changes neither the entries nor the database.
  pub run-set_enabled :
      (cs : List Call) (db : Database) (x : Driver) (id : Text) (on : Bool)
      → let (r, db1) = run lib timeout cs (new_registry lib, db) in
        let (r', known, db2) = set_enabled lib timeout x id on r db1 in
        (known ≡ true → Follows id on r'.cron)
        × (known ≡ false → (r'.entries ≡ r.entries) × (db2 ≡ db1))
  unfolding set_enabled
  run-set_enabled cs db x id on =
      let (r, db1) = run lib timeout cs (new_registry lib, db) in
      let (if_known, if_unknown) =
        enable_entry-Switched id on (lookup id r.entries) r refl (run-Inv lib timeout cs db) in
      (if_known, λ h. (if_unknown h, rw h refl))

  -- After any calls of the registry's methods, Unregister leaves no schedule that fires the task
  -- and no definition of it.
  pub run-unregister :
      (cs : List Call) (db : Database) (id : Text)
      → let r' = unregister lib timeout id (run lib timeout cs (new_registry lib, db)).0 in
        IsSilent lib id r'.cron × (get_definition lib timeout id r' ≡ none)
  unfolding unregister get_definition remove_locked remove_entry
  run-unregister cs db id =
      let r = (run lib timeout cs (new_registry lib, db)).0 in
      (
        (remove_locked-Cleared lib timeout id r (run-Inv lib timeout cs db)).1,
        ap shown (removed id (lookup id r.entries) r refl),
      )
    where
      shown : Option Entry → Option Compiled
      shown o = elim o [ none ↦ none | some e ↦ some e.definition ]

      removed :
          (k : Text) (o : Option Entry) (s : Registry C)
          → lookup k s.entries ≡ o
          → lookup k (remove_entry lib timeout k o s).entries ≡ none
      removed k none s e = e
      removed k (some f) s e = lookup-delete_self k s.entries
