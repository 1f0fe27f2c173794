-- ===== src/Scheduler/Keeps.antt =====
-- The methods as a whole: the invariant after each, and when a task is silent.
use breckr.Base.{
  Text, ℕ, Bool, true, false, not, Option, none, some, Result, ok, err, ◌≡◌, ◌≢◌, refl, ◌∙◌, sym,
  subst, inl, inr, arith, if◌then◌else◌, nat_eq, nat_eq_iff, lookup, put, delete, Text_eq, ℕ_eq,
  Eq-cases, lookup-put_self, lookup-put_ne, lookup-delete_self, lookup-delete_ne, Bool-cases,
}
use breckr.Types.Task.{Task, TaskSpec}
use breckr.Store.Database.{Error}
use breckr.Scheduler.Cron.{CronLib, Compiled, task_job, other_job}
use breckr.Scheduler.{
  compile, Entry, Registry, remove_entry, remove_locked, arm, register_spec, enable_entry, share,
}
use breckr.Scheduler.Invariant.{
  Inv, IsSilent, add_func-Added, armed-Inv, zero-IsSilent, absent-IsSilent,
}
use breckr.Scheduler.Ops.{Inv-cong, idle-Inv, removed-Inv}

module _ {C : Type 0} (lib : CronLib C) (timeout : ℕ) where
  -- The invariant, and a task that nothing fires.
  abbrev pub Cleared : Text → Registry C → Type 0
  Cleared id r = Inv lib r × IsSilent lib id r.cron

  -- An entry with no schedule can leave the map.
  forget-Inv :
      (id : Text) (r : Registry C) (e : Entry)
      → Inv lib r
      → lookup id r.entries ≡ some e
      → e.entry_id ≡ 0
      → Inv lib (record r { entries = delete id r.entries })
  forget-Inv id r e v found z = record {
    keyed = λ k f h. v.keyed k f (is_old k f h);
    live = λ k f h nz. v.live k f (is_old k f h) nz;
    owned = λ j d h.
        let (f, g, i, q) = v.owned j d h in
        let other : id ≢ d.id = λ same. zero-IsSilent lib id r v e found z j d h (sym same) in
        (f, lookup-delete_ne id d.id r.entries other ∙ g, i, q);
    unused_zero = v.unused_zero;
  }
    where
      is_old :
          (k : Text) (f : Entry)
          → lookup k (delete id r.entries) ≡ some f
          → lookup k r.entries ≡ some f
      is_old k f h = elim (Eq-cases id k) [
        | inl q ↦ cc (
          lookup-delete_self id r.entries,
          subst (λ i. lookup i (delete id r.entries) ≡ some f) (sym q) h,
        )
        | inr q ↦ sym (lookup-delete_ne id k r.entries q) ∙ h
      ]

  remove_entry-Cleared :
      (id : Text) (r : Registry C) (o : Option Entry)
      → lookup id r.entries ≡ o
      → Inv lib r
      → Cleared id (remove_entry lib timeout id o r)
  unfolding remove_entry
  remove_entry-Cleared id r none found v = (v, absent-IsSilent lib id r v found)
  remove_entry-Cleared id r (some e) found v = elim (Bool-cases (nat_eq e.entry_id 0)) [
    | inl z ↦
        let zero : e.entry_id ≡ 0 = (nat_eq_iff e.entry_id 0).0 z in
        rw z (forget-Inv id r e v found zero, zero-IsSilent lib id r v e found zero)
    | inr z ↦
        let nz : e.entry_id ≢ 0 = λ q. cc ((nat_eq_iff e.entry_id 0).1 q) in
        let kept = removed-Inv lib id r v e found nz in
        rw z (
          kept,
          absent-IsSilent lib id
              (record r { cron = lib.remove e.entry_id r.cron; entries = delete id r.entries }) kept
              (lookup-delete_self id r.entries),
        )
  ]

  pub remove_locked-Cleared :
      (id : Text) (r : Registry C) → Inv lib r → Cleared id (remove_locked lib timeout id r)
  unfolding remove_locked
  remove_locked-Cleared id r v = remove_entry-Cleared id r (lookup id r.entries) refl v

  pub arm-Inv :
      (id : Text) (d : Compiled) (r : Registry C)
      → Inv lib r
      → d.id ≡ id
      → IsSilent lib id r.cron
      → Inv lib (arm lib timeout id d r).0
  unfolding arm
  arm-Inv id d r v at silent =
      armed-Inv lib id r v d (lib.add_func d.cron (task_job d) r.cron) (add_func-Added lib d r.cron)
        at silent

  if-Inv :
      (b : Bool) (x y : Registry C × Bool)
      → Inv lib x.0
      → Inv lib y.0
      → Inv lib (if b then x else y).0
  if-Inv true x y v w = v
  if-Inv false x y v w = w

  pub register_spec-Inv :
      (t : Task) (o : Option TaskSpec) (r : Registry C)
      → Inv lib r
      → Inv lib (register_spec lib timeout t o r).0
  unfolding register_spec compile
  register_spec-Inv t none r v = v
  register_spec-Inv t (some spec) r v =
      let (kept, silent) = remove_locked-Cleared t.id r v in
      let d =
        compile timeout
          (record { id = t.id; name = t.name; cron_expr = t.cron_expr; spec = spec }) in
      let cleared = remove_locked lib timeout t.id r in
      let idle : Registry C × Bool = (
        record cleared {
          entries = put t.id (record { definition = d; entry_id = 0 }) cleared.entries;
        },
        true,
      ) in
      let live = arm lib timeout t.id d cleared in
      if-Inv (not r.has_handler) (r, false) (if t.enabled then live else idle) v
        (if-Inv t.enabled live idle (arm-Inv t.id d cleared kept refl silent)
          (idle-Inv lib t.id cleared kept d refl silent))

  pub share-Inv :
      (expr name : Text) (r : Registry C) → Inv lib r → Inv lib (share lib timeout expr name r)
  unfolding share
  share-Inv expr name r v = go (lib.add_func expr (other_job name) r.cron).1 refl
    where
      c : C
      c = (lib.add_func expr (other_job name) r.cron).0

      from :
          ((j : ℕ) (d : Compiled)
            → lib.job c j ≡ some (task_job d)
            → lib.job r.cron j ≡ some (task_job d))
          → ((j : ℕ) (d : Compiled)
              → lib.job r.cron j ≡ some (task_job d)
              → lib.job c j ≡ some (task_job d))
          → lib.job c 0 ≡ none
          → Inv lib (record r { cron = c })
      from back on z = record {
        keyed = v.keyed;
        live = λ k e h n. on e.entry_id e.definition (v.live k e h n);
        owned = λ j d h. v.owned j d (back j d h);
        unused_zero = z;
      }

      go :
          (x : Result Error ℕ)
          → (lib.add_func expr (other_job name) r.cron).1 ≡ x
          → Inv lib (record r { cron = c })
      go (err x) e =
          let same : (j : ℕ) → lib.job c j ≡ lib.job r.cron j =
            lib.add_func_err expr (other_job name) r.cron x e in
          from (λ j d h. sym (same j) ∙ h) (λ j d h. same j ∙ h) (same 0 ∙ v.unused_zero)
      go (ok n) e =
          let (nz, unused, jobs) = lib.add_func_ok expr (other_job name) r.cron n e in
          from (λ j d h. ground (arith, jobs j)) (λ j d h. ground (arith, jobs j, unused))
            (ground (arith, jobs 0, v.unused_zero))

  -- An armed task after `SetEnabled` has disarmed it.
  pub disarmed-Cleared :
      (id : Text) (r : Registry C) (e : Entry)
      → Inv lib r
      → lookup id r.entries ≡ some e
      → e.entry_id ≢ 0
      → Cleared id (record r {
        cron = lib.remove e.entry_id r.cron;
        entries = put id (record e { entry_id = 0 }) r.entries;
      })
  disarmed-Cleared id r e v found nz = (
    Inv-cong lib (record gone { entries = put id new gone.entries }) after
        (idle-Inv lib id gone kept e.definition (v.keyed id e found) silent) refl same,
    silent,
  )
    where
      gone : Registry C
      gone = record r { cron = lib.remove e.entry_id r.cron; entries = delete id r.entries }

      new : Entry
      new = record e { entry_id = 0 }

      after : Registry C
      after = record r { cron = lib.remove e.entry_id r.cron; entries = put id new r.entries }

      kept : Inv lib gone
      kept = removed-Inv lib id r v e found nz

      silent : IsSilent lib id gone.cron
      silent = absent-IsSilent lib id gone kept (lookup-delete_self id r.entries)

      same : (k : Text) → lookup k after.entries ≡ lookup k (put id new gone.entries)
      same k = elim (Eq-cases id k) [
        | inl q ↦
            subst (λ i. lookup i after.entries ≡ lookup i (put id new gone.entries)) q
              (lookup-put_self id new r.entries ∙ sym (lookup-put_self id new gone.entries))
        | inr q ↦
            lookup-put_ne id k new r.entries q
            ∙ sym (lookup-delete_ne id k r.entries q)
            ∙ sym (lookup-put_ne id k new gone.entries q)
      ]

  -- Arming or disarming a task.
  pub enable_entry-Inv :
      (id : Text) (on : Bool) (o : Option Entry) (r : Registry C)
      → lookup id r.entries ≡ o
      → Inv lib r
      → Inv lib (enable_entry lib timeout id on o r).0
  unfolding enable_entry
  enable_entry-Inv id on none r found v = v
  enable_entry-Inv id true (some e) r found v = elim (Bool-cases (nat_eq e.entry_id 0)) [
    | inl z ↦
        let zero : e.entry_id ≡ 0 = (nat_eq_iff e.entry_id 0).0 z in
        rw z
          (arm-Inv id e.definition r v (v.keyed id e found) (zero-IsSilent lib id r v e found zero))
    | inr z ↦ rw z v
  ]
  enable_entry-Inv id false (some e) r found v = elim (Bool-cases (nat_eq e.entry_id 0)) [
    | inl z ↦ rw z v
    | inr z ↦
        let nz : e.entry_id ≢ 0 = λ q. cc ((nat_eq_iff e.entry_id 0).1 q) in
        rw z (disarmed-Cleared id r e v found nz).0
  ]
