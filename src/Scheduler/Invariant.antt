-- ===== src/Scheduler/Invariant.antt =====
-- What holds of the registry and the cron library together.
use breckr.Base.{
  Text, ℕ, none, some, List, Result, ok, err, ◌≡◌, ◌≢◌, refl, ◌∙◌, ap, sym, subst, inl, inr, arith,
  if◌then◌else◌, nat_eq, lookup, put, Text_eq, ℕ_eq, Eq-cases, lookup-put_self, lookup-put_ne,
}
use breckr.Store.Database.{Error}
use breckr.Scheduler.Cron.{CronLib, Compiled, task_job}
use breckr.Scheduler.{Entry, Registry, armed}

module _ {C : Type 0} (lib : CronLib C) where
  pub record Inv (r : Registry C) : Type 0 where
    -- An entry stands under its own task's id.
    pub keyed : (k : Text) (e : Entry) → lookup k r.entries ≡ some e → e.definition.id ≡ k
    -- An armed entry's schedule fires its definition.
    pub live :
        (k : Text) (e : Entry)
        → lookup k r.entries ≡ some e
        → e.entry_id ≢ 0
        → lib.job r.cron e.entry_id ≡ some (task_job e.definition)
    -- A schedule that fires a task is the one of that task's entry.
    pub owned :
        (j : ℕ) (d : Compiled)
        → lib.job r.cron j ≡ some (task_job d)
        → (e : Entry) × (lookup d.id r.entries ≡ some e) × (e.entry_id ≡ j) × (e.definition ≡ d)
    pub unused_zero : lib.job r.cron 0 ≡ none

  -- No schedule fires this task.
  abbrev pub IsSilent : Text → C → Type 0
  IsSilent id c = (j : ℕ) (d : Compiled) → lib.job c j ≡ some (task_job d) → d.id ≢ id

  -- Removing a schedule leaves only what was there.
  pub removed-sub :
      (n j : ℕ) (c : C) (d : Compiled)
      → lib.job (lib.remove n c) j ≡ some (task_job d)
      → (n ≢ j) × (lib.job c j ≡ some (task_job d))
  removed-sub n j c d h = ground (arith, lib.job-remove n c j)

  -- What `AddFunc` may have done.
  abbrev pub Added : Compiled → C → C × Result Error ℕ → Type 0
  Added d c (c', err x) = (j : ℕ) → lib.job c' j ≡ lib.job c j
  Added d c (c', ok n) =
      (n ≢ 0)
      × (lib.job c n ≡ none)
      × ((j : ℕ) → lib.job c' j ≡ (if nat_eq n j then some (task_job d) else lib.job c j))

  pub add_func-Added : (d : Compiled) (c : C) → Added d c (lib.add_func d.cron (task_job d) c)
  add_func-Added d c = go (lib.add_func d.cron (task_job d) c) refl
    where
      go : (x : C × Result Error ℕ) → lib.add_func d.cron (task_job d) c ≡ x → Added d c x
      go (c', err x) e = λ j. rw e at (lib.add_func_err d.cron (task_job d) c x (ap (λ p. p.1) e) j)
      go (c', ok n) e = rw e at (lib.add_func_ok d.cron (task_job d) c n (ap (λ p. p.1) e))

  module _ (id : Text) (r : Registry C) (v : Inv r) where
    pub zero-IsSilent :
        (e : Entry) → lookup id r.entries ≡ some e → e.entry_id ≡ 0 → IsSilent id r.cron
    zero-IsSilent e found z j d h same =
        let (f, g, n, q) = v.owned j d h in
        let f≡e : f ≡ e = cc (subst (λ k. lookup k r.entries ≡ some f) same g) in
        let j≡0 : j ≡ 0 = cc in
        cc (v.unused_zero, subst (λ k. lib.job r.cron k ≡ some (task_job d)) j≡0 h)

    pub absent-IsSilent : lookup id r.entries ≡ none → IsSilent id r.cron
    absent-IsSilent out j d h same =
        let (f, g, n, q) = v.owned j d h in cc (subst (λ k. lookup k r.entries ≡ some f) same g)

    pub armed-Inv :
        (d : Compiled) (x : C × Result Error ℕ)
        → Added d r.cron x
        → d.id ≡ id
        → IsSilent id r.cron
        → Inv (armed id d r x).0
    unfolding armed
    armed-Inv d (c, err x) same at silent = record {
      keyed = v.keyed;
      live = λ k e h n. same e.entry_id ∙ v.live k e h n;
      owned = λ j b h. v.owned j b (sym (same j) ∙ h);
      unused_zero = same 0 ∙ v.unused_zero;
    }
    armed-Inv d (c, ok n) (nonzero, unused, jobs) at silent = record {
      keyed = keyed;
      live = live;
      owned = owned;
      unused_zero = ground (arith, jobs 0, v.unused_zero);
    }
      where
        new : Entry
        new = record { definition = d; entry_id = n }

        entries : List (Text × Entry)
        entries = put id new r.entries

        is_new : (k : Text) (e : Entry) → id ≡ k → lookup k entries ≡ some e → new ≡ e
        is_new k e q h =
            cc (lookup-put_self id new r.entries, subst (λ i. lookup i entries ≡ some e) (sym q) h)

        is_old :
            (k : Text) (e : Entry)
            → id ≢ k
            → lookup k entries ≡ some e
            → lookup k r.entries ≡ some e
        is_old k e q h = sym (lookup-put_ne id k new r.entries q) ∙ h

        keyed : (k : Text) (e : Entry) → lookup k entries ≡ some e → e.definition.id ≡ k
        keyed k e h = elim (Eq-cases id k) [
          | inl q ↦ ap (λ (x : Entry). x.definition.id) (sym (is_new k e q h)) ∙ at ∙ q
          | inr q ↦ v.keyed k e (is_old k e q h)
        ]

        live :
            (k : Text) (e : Entry)
            → lookup k entries ≡ some e
            → e.entry_id ≢ 0
            → lib.job c e.entry_id ≡ some (task_job e.definition)
        live k e h nz = elim (Eq-cases id k) [
          | inl q ↦
              subst (λ (x : Entry). lib.job c x.entry_id ≡ some (task_job x.definition))
                (is_new k e q h) (ground (arith, jobs n))
          | inr q ↦
              let old = v.live k e (is_old k e q h) nz in
              let apart : n ≢ e.entry_id = λ z. cc (
                unused,
                subst (λ i. lib.job r.cron i ≡ some (task_job e.definition)) (sym z) old,
              ) in
              ground (arith, jobs e.entry_id, old, apart)
        ]

        owned :
            (j : ℕ) (b : Compiled)
            → lib.job c j ≡ some (task_job b)
            → (e : Entry) × (lookup b.id entries ≡ some e) × (e.entry_id ≡ j) × (e.definition ≡ b)
        owned j b h = elim (Eq-cases n j) [
          | inl q ↦
              let fired : some (task_job d) ≡ some (task_job b) = ground (arith, jobs j) in
              let same : d ≡ b = cc fired in
              (
                new,
                subst (λ k. lookup k entries ≡ some new) (sym at ∙ ap (λ (x : Compiled). x.id) same)
                    (lookup-put_self id new r.entries),
                q,
                same,
              )
          | inr q ↦
              let kept : lib.job r.cron j ≡ some (task_job b) = ground (arith, jobs j) in
              let (e, found, i, is) = v.owned j b kept in
              (e, lookup-put_ne id b.id new r.entries (λ z. silent j b kept (sym z)) ∙ found, i, is)
        ]
