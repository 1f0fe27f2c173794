-- ===== src/Api/Switched.antt =====
-- The entries after `SetEnabled`.
use breckr.Base.{
  Text, ℕ, Bool, true, false, Option, none, some, Result, ok, err, ◌≡◌, ◌≢◌, inl, inr, refl, ap,
  sym, subst, nat_eq, nat_eq_iff, lookup, put, Text_eq, Bool-cases, if-true, if-false, ℕ_eq,
}
use breckr.Store.Database.{Error}
use breckr.Scheduler.Cron.{CronLib, task_job}
use breckr.Scheduler.{Entry, Registry, armed, arm, enable_entry}
use breckr.Api.Registered.{GivesOut, add_func-GivesOut, put-Found}

module _ {C : Type 0} (lib : CronLib C) (timeout : ℕ) (id : Text) (on : Bool) (r : Registry C) where
  -- The entry of the task as the switch leaves it, or another that was there.
  pub record Left (k : Text) (f : Entry) : Type 0 where
    pub old : Entry
    pub found : lookup k r.entries ≡ some old
    pub same_definition : f.definition ≡ old.definition
    pub other : (id ≢ k) → f ≡ old
    pub up : id ≡ k → on ≡ true → f.entry_id ≢ 0
    pub down : id ≡ k → on ≡ false → f.entry_id ≡ 0

  pub record Switched (x : Registry C × Bool) : Type 0 where
    pub installed : x.0.has_handler ≡ r.has_handler
    pub known : x.1 ≡ true → (k : Text) (f : Entry) → lookup k x.0.entries ≡ some f → Left k f
    pub unknown : x.1 ≡ false → x.0.entries ≡ r.entries

  unchanged-Left :
      (k : Text) (f : Entry)
      → lookup k r.entries ≡ some f
      → (id ≡ k → on ≡ true → f.entry_id ≢ 0)
      → (id ≡ k → on ≡ false → f.entry_id ≡ 0)
      → Left k f
  unchanged-Left k f h up down = record {
    old = f;
    found = h;
    same_definition = refl;
    other = λ _. refl;
    up = up;
    down = down;
  }

  -- A new entry for the task, of the same definition.
  replaced-Left :
      (k : Text) (e f : Entry)
      → lookup id r.entries ≡ some e
      → id ≡ k
      → f.definition ≡ e.definition
      → (on ≡ true → f.entry_id ≢ 0)
      → (on ≡ false → f.entry_id ≡ 0)
      → Left k f
  replaced-Left k e f found same is up down = record {
    old = e;
    found = subst (λ i. lookup i r.entries ≡ some e) same found;
    same_definition = is;
    other = λ n. absurd (n same);
    up = λ _. up;
    down = λ _. down;
  }

module _ {C : Type 0} (lib : CronLib C) (timeout : ℕ) (id : Text) (r : Registry C) where
  -- An entry that stands already as it is switched.
  kept-Switched :
      (on : Bool) (e : Entry)
      → lookup id r.entries ≡ some e
      → (on ≡ true → e.entry_id ≢ 0)
      → (on ≡ false → e.entry_id ≡ 0)
      → Switched lib timeout id on r (r, true)
  kept-Switched on e found up down = record {
    installed = refl;
    known = λ _ k f h.
        let is : id ≡ k → e ≡ f =
          λ q. cc (found, subst (λ i. lookup i r.entries ≡ some f) (sym q) h) in
        unchanged-Left lib timeout id on r k f h
          (λ q o. subst (λ (x : Entry). x.entry_id ≢ 0) (is q) (up o))
          (λ q o. subst (λ (x : Entry). x.entry_id ≡ 0) (is q) (down o));
    unknown = λ h. cc;
  }

  armed-Switched :
      (e : Entry) (x : C × Result Error ℕ)
      → lookup id r.entries ≡ some e
      → GivesOut lib timeout x
      → Switched lib timeout id true r (armed id e.definition r x)
  unfolding armed
  armed-Switched e (c, err x) found g = record {
    installed = refl;
    known = λ h. cc h;
    unknown = λ _. refl;
  }
  armed-Switched e (c, ok n) found g = record {
    installed = refl;
    known = λ _ k f h.
        elim (put-Found lib timeout id k (record { definition = e.definition; entry_id = n }) f r
          h) [
            | inl (same, is) ↦
                replaced-Left lib timeout id true r k e f found same
                  (ap (λ (x : Entry). x.definition) (sym is))
                  (λ _. subst (λ (x : Entry). x.entry_id ≢ 0) is g) (λ z. cc z)
            | inr (n', kept) ↦
                unchanged-Left lib timeout id true r k f kept (λ q. absurd (n' q))
                  (λ q. absurd (n' q))
          ];
    unknown = λ h. cc h;
  }

  disarmed-Switched :
      (e : Entry) (c : C)
      → lookup id r.entries ≡ some e
      → Switched lib timeout id false r
          (record r { cron = c; entries = put id (record e { entry_id = 0 }) r.entries }, true)
  disarmed-Switched e c found = record {
    installed = refl;
    known = λ _ k f h. elim (put-Found lib timeout id k (record e { entry_id = 0 }) f r h) [
      | inl (same, is) ↦
          replaced-Left lib timeout id false r k e f found same
            (ap (λ (x : Entry). x.definition) (sym is)) (λ z. cc z)
            (λ _. ap (λ (x : Entry). x.entry_id) (sym is))
      | inr (n', kept) ↦
          unchanged-Left lib timeout id false r k f kept (λ q. absurd (n' q)) (λ q. absurd (n' q))
    ];
    unknown = λ h. cc h;
  }

  pub enable_entry-Switched :
      (on : Bool) (o : Option Entry)
      → lookup id r.entries ≡ o
      → Switched lib timeout id on r (enable_entry lib timeout id on o r)
  unfolding enable_entry arm
  enable_entry-Switched on none found = record {
    installed = refl;
    known = λ h. cc h;
    unknown = λ _. refl;
  }
  enable_entry-Switched true (some e) found = elim (Bool-cases (nat_eq e.entry_id 0)) [
    | inl z ↦ subst (Switched lib timeout id true r) (sym (if-true (nat_eq e.entry_id 0) _ _ z)) (
        armed-Switched e (lib.add_func e.definition.cron (task_job e.definition) r.cron) found
          (add_func-GivesOut lib timeout e.definition r.cron))
    | inr z ↦
        subst (Switched lib timeout id true r) (sym (if-false (nat_eq e.entry_id 0) _ _ z))
          (kept-Switched true e found (λ _ q. cc (z, (nat_eq_iff e.entry_id 0).1 q)) (λ f. cc f))
  ]
  enable_entry-Switched false (some e) found = elim (Bool-cases (nat_eq e.entry_id 0)) [
    | inl z ↦
        subst (Switched lib timeout id false r) (sym (if-true (nat_eq e.entry_id 0) _ _ z))
          (kept-Switched false e found (λ f. cc f) (λ _. (nat_eq_iff e.entry_id 0).0 z))
    | inr z ↦
        subst (Switched lib timeout id false r) (sym (if-false (nat_eq e.entry_id 0) _ _ z))
          (disarmed-Switched e (lib.remove e.entry_id r.cron) found)
  ]
