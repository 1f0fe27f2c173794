-- ===== src/Store/Attempts.antt =====
-- How the breakdown of a run is stored.
use breckr.Base.{
  Text, ℕ, false, none, some, List, [], ◌∷◌, ◌++◌, Result, ok, err, ◌≡◌, ◌≢◌, refl, ap, arith, ◌⊎◌,
  inl, inr, In, any, Bool-cases, is_empty, subst, sym, map, append-nil, append_assoc, ◌∙◌,
}
use breckr.Store.Database.{Database, Driver, Error, transact, has_channel_id}
use breckr.Store.Channels.{AttemptInput, attempt_row, accepts, insert_attempts, record_attempts}

module _ (now : Text) (run_id : ℕ) where
  -- The input names a channel that is not there.
  abbrev pub IsLost : Database → AttemptInput → Type 0
  IsLost db i =
      (is_empty i.channel_id ≡ false) × (any (has_channel_id i.channel_id) db.channels ≡ false)

  lost-accepts :
      (db : Database) (i : AttemptInput)
      → IsLost db i
      → accepts db (attempt_row now run_id i) ≡ false
  unfolding accepts
  lost-accepts db i (named, gone) = ground (arith, named, gone)

  insert_attempts_lost :
      (is : List AttemptInput) (db : Database) (i : AttemptInput)
      → In i is
      → IsLost db i
      → (e : Error) × (insert_attempts now run_id is db ≡ err e)
  unfolding insert_attempts
  insert_attempts_lost [] db i there lost = absurd there
  insert_attempts_lost (j ∷ is) db i (inl q) lost =
      let refused = lost-accepts db j (subst (IsLost db) q lost) in rw refused (_, refl)
  insert_attempts_lost (j ∷ is) db i (inr there) lost =
      elim (Bool-cases (accepts db (attempt_row now run_id j))) [
        | inl e ↦ rw e (
            insert_attempts_lost is
              (record db { attempts = db.attempts ++ attempt_row now run_id j ∷ [] }) i there lost)
        | inr e ↦ rw e (_, refl)
      ]

  insert_attempts_ok :
      (is : List AttemptInput) (db db' : Database)
      → insert_attempts now run_id is db ≡ ok db'
      → db' ≡ record db { attempts = db.attempts ++ map (attempt_row now run_id) is }
  unfolding insert_attempts
  insert_attempts_ok [] db db' h =
      let same : db' ≡ db = cc in
      same ∙ ap (λ xs. record db { attempts = xs }) (sym (append-nil db.attempts))
  insert_attempts_ok (j ∷ is) db db' h = elim (Bool-cases (accepts db (attempt_row now run_id j))) [
    | inl e ↦
        insert_attempts_ok is
          (record db { attempts = db.attempts ++ attempt_row now run_id j ∷ [] }) db' (rw e at h)
        ∙ ap (λ xs. record db { attempts = xs }) (append_assoc db.attempts _ _)
    | inr e ↦ absurd (ground (arith, e))
  ]

  -- Storing the breakdown of a run either reports an error and leaves the database as it was, or
  -- reports none and adds one row for each attempt, in order, and nothing else.
  pub record_attempts_all_or_none :
      (d : Driver) (is : List AttemptInput) (db : Database)
      → (((record_attempts d now run_id is db).1 ≢ none)
          × ((record_attempts d now run_id is db).0 ≡ db))
        ⊎ (((record_attempts d now run_id is db).1 ≡ none)
            × ((record_attempts d now run_id is db).0
                ≡ record db { attempts = db.attempts ++ map (attempt_row now run_id) is }))
  unfolding record_attempts
  record_attempts_all_or_none d [] db =
      inr (refl, ap (λ xs. record db { attempts = xs }) (sym (append-nil db.attempts)))
  record_attempts_all_or_none (some e) (j ∷ is) db = inl (λ h. cc, refl)
  record_attempts_all_or_none none (j ∷ is) db = go (insert_attempts now run_id (j ∷ is) db) refl
    where
      go :
          (r : Result Error Database)
          → insert_attempts now run_id (j ∷ is) db ≡ r
          → (((transact none r db).1 ≢ none) × ((transact none r db).0 ≡ db))
            ⊎ (((transact none r db).1 ≡ none)
                × ((transact none r db).0 ≡ record db {
                  attempts = db.attempts ++ map (attempt_row now run_id) (j ∷ is);
                }))
      go (err e) q = inl (λ h. cc, refl)
      go (ok db') q = inr (refl, insert_attempts_ok (j ∷ is) db db' q)

  -- An attempt that names a channel that is gone makes the whole breakdown of the run fail: an
  -- error is reported and the database is as it was.
  pub record_attempts_lost :
      (d : Driver) (is : List AttemptInput) (db : Database) (i : AttemptInput)
      → In i is
      → IsLost db i
      → ((record_attempts d now run_id is db).0 ≡ db)
        × ((record_attempts d now run_id is db).1 ≢ none)
  unfolding record_attempts
  record_attempts_lost d [] db i there lost = absurd there
  record_attempts_lost (some e) (j ∷ is) db i there lost = (refl, λ h. cc)
  record_attempts_lost none (j ∷ is) db i there lost =
      let (e, h) = insert_attempts_lost (j ∷ is) db i there lost in rw h (refl, λ h. cc)
