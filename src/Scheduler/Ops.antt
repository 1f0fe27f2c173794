-- ===== src/Scheduler/Ops.antt =====
-- The registry's invariant when an entry is set idle or removed.
use breckr.Base.{
  Text, ℕ, some, List, ◌≡◌, ◌≢◌, ◌∙◌, ap, sym, subst, inl, inr, arith, lookup, put, delete, Text_eq,
  ℕ_eq, Eq-cases, lookup-put_self, lookup-put_ne, lookup-delete_self, lookup-delete_ne,
}
use breckr.Scheduler.Cron.{CronLib, Compiled, task_job}
use breckr.Scheduler.{Entry, Registry}
use breckr.Scheduler.Invariant.{Inv, IsSilent, removed-sub}

module _ {C : Type 0} (lib : CronLib C) where
  pub Inv-cong :
      (r s : Registry C)
      → Inv lib r
      → s.cron ≡ r.cron
      → ((k : Text) → lookup k s.entries ≡ lookup k r.entries)
      → Inv lib s
  Inv-cong r s v c same = record {
    keyed = λ k e h. v.keyed k e (sym (same k) ∙ h);
    live = λ k e h n. rw c (v.live k e (sym (same k) ∙ h) n);
    owned = λ j d h. let (e, f, i, q) = v.owned j d (rw c at h) in (e, same d.id ∙ f, i, q);
    unused_zero = rw c v.unused_zero;
  }

  module _ (id : Text) (r : Registry C) (v : Inv lib r) where
    -- An entry with no schedule, under its own id.
    pub idle-Inv :
        (d : Compiled)
        → d.id ≡ id
        → IsSilent lib id r.cron
        → Inv lib
            (record r { entries = put id (record { definition = d; entry_id = 0 }) r.entries })
    idle-Inv d at silent = record {
      keyed = keyed;
      live = live;
      owned = λ j b h.
          let (e, found, i, is) = v.owned j b h in
          (e, lookup-put_ne id b.id new r.entries (λ z. silent j b h (sym z)) ∙ found, i, is);
      unused_zero = v.unused_zero;
    }
      where
        new : Entry
        new = record { definition = d; entry_id = 0 }

        entries : List (Text × Entry)
        entries = put id new r.entries

        is_new : (k : Text) (e : Entry) → id ≡ k → lookup k entries ≡ some e → new ≡ e
        is_new k e q h =
            cc (lookup-put_self id new r.entries, subst (λ i. lookup i entries ≡ some e) (sym q) h)

        is_old :
            (k : Text) (e : Entry)
            → id ≢ k
            → lookup k entries ≡ some e
            → lookup k r.entries ≡ some e
        is_old k e q h = sym (lookup-put_ne id k new r.entries q) ∙ h

        keyed : (k : Text) (e : Entry) → lookup k entries ≡ some e → e.definition.id ≡ k
        keyed k e h = elim (Eq-cases id k) [
          | inl q ↦ ap (λ (x : Entry). x.definition.id) (sym (is_new k e q h)) ∙ at ∙ q
          | inr q ↦ v.keyed k e (is_old k e q h)
        ]

        live :
            (k : Text) (e : Entry)
            → lookup k entries ≡ some e
            → e.entry_id ≢ 0
            → lib.job r.cron e.entry_id ≡ some (task_job e.definition)
        live k e h nz = elim (Eq-cases id k) [
          | inl q ↦ absurd (nz (ap (λ (x : Entry). x.entry_id) (sym (is_new k e q h))))
          | inr q ↦ v.live k e (is_old k e q h) nz
        ]

    module _ (e : Entry) (found : lookup id r.entries ≡ some e) (nonzero : e.entry_id ≢ 0) where
      -- With an armed entry gone from the library and the map, nothing fires its task.
      pub removed-Inv :
          Inv lib (record r { cron = lib.remove e.entry_id r.cron; entries = delete id r.entries })
      removed-Inv = record {
        keyed = λ k f h. v.keyed k f (is_old k f h);
        live = live;
        owned = owned;
        unused_zero = ground (arith, lib.job-remove e.entry_id r.cron 0, v.unused_zero);
      }
        where
          differs : (k : Text) (f : Entry) → lookup k (delete id r.entries) ≡ some f → id ≢ k
          differs k f h q = cc (
            lookup-delete_self id r.entries,
            subst (λ i. lookup i (delete id r.entries) ≡ some f) (sym q) h,
          )

          is_old :
              (k : Text) (f : Entry)
              → lookup k (delete id r.entries) ≡ some f
              → lookup k r.entries ≡ some f
          is_old k f h = sym (lookup-delete_ne id k r.entries (differs k f h)) ∙ h

          live :
              (k : Text) (f : Entry)
              → lookup k (delete id r.entries) ≡ some f
              → f.entry_id ≢ 0
              → lib.job (lib.remove e.entry_id r.cron) f.entry_id ≡ some (task_job f.definition)
          live k f h nz =
              let mine = v.live id e found nonzero in
              let theirs = v.live k f (is_old k f h) nz in
              let apart : e.entry_id ≢ f.entry_id = λ q.
                let same : e.definition ≡ f.definition = cc (mine, theirs, ap (lib.job r.cron) q) in
                differs k f h (
                  sym (v.keyed id e found)
                  ∙ ap (λ (d : Compiled). d.id) same
                  ∙ v.keyed k f (is_old k f h)) in
              ground (arith, lib.job-remove e.entry_id r.cron f.entry_id, theirs, apart)

          owned :
              (j : ℕ) (d : Compiled)
              → lib.job (lib.remove e.entry_id r.cron) j ≡ some (task_job d)
              → (f : Entry) × (lookup d.id (delete id r.entries) ≡ some f)
                × (f.entry_id ≡ j)
                × (f.definition ≡ d)
          owned j d h =
              let (apart, before) = removed-sub lib e.entry_id j r.cron d h in
              let (f, g, i, q) = v.owned j d before in
              let other : id ≢ d.id =
                λ z. apart (cc (subst (λ k. lookup k r.entries ≡ some f) (sym z) g)) in
              (f, lookup-delete_ne id d.id r.entries other ∙ g, i, q)
