-- ===== src/Throttle/Window.antt =====
-- The methods against the history of each key's failures, while the map has room.
use breckr.Base.{
  Text, ℕ, ◌≤◌, ◌<◌, Bool, true, false, Option, none, some, List, [], ◌∷◌, ◌++◌, length, lookup,
  put, delete, keep, if◌then◌else◌, Text_eq, ◌≡◌, ◌≢◌, refl, ap, sym, subst, ◌∙◌, inl, inr, arith,
  ltb, leb, ◌==◌, lookup-put, lookup-delete, Eq-cases, lookup-put_self, lookup-put_ne,
  lookup-delete_self, lookup-delete_ne,
}
use breckr.Throttle.Bounds.{length-prune-le}
use breckr.Throttle.{
  Failures, max_keys, max_attempts, attempts_of, is_recent, pruned, prune, allow, record_failure,
  reset, Call, allows, fails, resets, step, run, retry_at,
}

-- The specification: the failures of a key since it was last reset, oldest first.
abbrev after_call : Text → List ℕ → Call → List ℕ
after_call key h (allows k now) = h
after_call key h (fails k now) = if k == key then h ++ now ∷ [] else h
after_call key h (resets k) = if k == key then [] else h

unfoldable pub history : Text → List ℕ → List Call → List ℕ
history key h [] = h
history key h (c ∷ cs) = history key (after_call key h c) cs

abbrev instant : ℕ → Call → ℕ
instant before (allows k now) = now
instant before (fails k now) = now
instant before (resets k) = before

-- At every call the clock has not run back, and the map has room for one more key.
abbrev pub HasRoom : (Failures → Failures) → ℕ → List Call → Failures → Type 0
HasRoom visit before [] m = Unit
HasRoom visit before (c ∷ cs) m =
    (before ≤ instant before c)
    × (length m < max_keys)
    × (elim (step visit c m) [ none ↦ ⊥ | some m' ↦ HasRoom visit (instant before c) cs m' ])

-- The instant of the last call.
unfoldable pub last_instant : ℕ → List Call → ℕ
last_instant before [] = before
last_instant before (c ∷ cs) = last_instant (instant before c) cs

-- What `Allow` makes of the failures that are recent.
unfoldable pub verdict : List ℕ → Option ℕ
verdict ts = if ltb (length ts) max_attempts then none else some (retry_at ts)

keep-keep :
    (t n : ℕ) (xs : List ℕ)
    → t ≤ n
    → keep (is_recent n) (keep (is_recent t) xs) ≡ keep (is_recent n) xs
keep-keep t n [] h = refl
keep-keep t n (x ∷ xs) h = ground (arith, keep-keep t n xs h)

keep-append :
    (n : ℕ) (xs ys : List ℕ)
    → keep (is_recent n) (xs ++ ys) ≡ keep (is_recent n) xs ++ keep (is_recent n) ys
keep-append n [] ys = refl
keep-append n (x ∷ xs) ys = ground (arith, keep-append n xs ys)

-- From an instant on, the map counts for a key what its history does.
abbrev Counts : Text → ℕ → List ℕ → Failures → Type 0
Counts key now h m =
    (n : ℕ) → now ≤ n → keep (is_recent n) (attempts_of key m) ≡ keep (is_recent n) h

-- What a prune leaves of its own key, and of another.
attempts_of-pruned : (k : Text) (ts : List ℕ) (m : Failures) → attempts_of k (pruned k ts m).0 ≡ ts
unfolding pruned
attempts_of-pruned k [] m = ground (arith, lookup-delete_self k m)
attempts_of-pruned k (x ∷ xs) m = ground (arith, lookup-put_self k (x ∷ xs) m)

attempts_of-pruned_ne :
    (k key : Text) (ts : List ℕ) (m : Failures)
    → k ≢ key
    → attempts_of key (pruned k ts m).0 ≡ attempts_of key m
unfolding pruned
attempts_of-pruned_ne k key [] m h = ground (arith, lookup-delete_ne k key m h)
attempts_of-pruned_ne k key (x ∷ xs) m h = ground (arith, lookup-put_ne k key (x ∷ xs) m h)

prune-recent :
    (k : Text) (now : ℕ) (m : Failures) → (prune k now m).1 ≡ keep (is_recent now) (attempts_of k m)
unfolding prune pruned
prune-recent k now m = go (keep (is_recent now) (attempts_of k m))
  where
    go : (ts : List ℕ) → (pruned k ts m).1 ≡ ts
    go [] = refl
    go (x ∷ xs) = refl

prune-Counts :
    (k key : Text) (before now : ℕ) (h : List ℕ) (m : Failures)
    → before ≤ now
    → Counts key before h m
    → Counts key now h (prune k now m).0
unfolding prune
prune-Counts k key before now h m le c n le' = elim (Eq-cases k key) [
  | inl q ↦
      subst (λ j. keep (is_recent n) (attempts_of j (prune k now m).0) ≡ keep (is_recent n) h) q
        (ap (keep (is_recent n)) (attempts_of-pruned k (keep (is_recent now) (attempts_of k m)) m)
          ∙ keep-keep now n (attempts_of k m) le'
          ∙ subst (λ j. keep (is_recent n) (attempts_of j m) ≡ keep (is_recent n) h) (sym q)
              (c n (omega arith)))
  | inr q ↦
      ap (keep (is_recent n))
        (attempts_of-pruned_ne k key (keep (is_recent now) (attempts_of k m)) m q)
      ∙ c n (omega arith)
]

attempts_of-put :
    (k key : Text) (ts : List ℕ) (m : Failures)
    → attempts_of key (put k ts m) ≡ (if k == key then ts else attempts_of key m)
attempts_of-put k key ts m = ground (arith, lookup-put k key ts m)

-- A failure that is recorded while there is room.
recorded-Counts :
    (k key : Text) (now : ℕ) (h ts : List ℕ) (m : Failures)
    → Counts key now h m
    → ts ≡ attempts_of k m
    → Counts key now (after_call key h (fails k now)) (put k (ts ++ now ∷ []) m)
recorded-Counts k key now h ts m c same n le =
    ap (keep (is_recent n)) (attempts_of-put k key (ts ++ now ∷ []) m) ∙ go (k == key) refl
  where
    go :
        (b : Bool)
        → (k == key) ≡ b
        → keep (is_recent n) (if b then ts ++ now ∷ [] else attempts_of key m)
          ≡ keep (is_recent n) (if b then h ++ now ∷ [] else h)
    go false e = c n le
    go true e =
        let counted : keep (is_recent n) ts ≡ keep (is_recent n) h =
          ap (keep (is_recent n)) (same ∙ ap (λ j. attempts_of j m) ((Text_eq.beq_iff k key).0 e))
          ∙ c n le in
        keep-append n ts (now ∷ [])
        ∙ ap (λ xs. xs ++ keep (is_recent n) (now ∷ [])) counted
        ∙ sym (keep-append n h (now ∷ []))

reset-Counts :
    (k key : Text) (now : ℕ) (h : List ℕ) (m : Failures)
    → Counts key now h m
    → Counts key now (after_call key h (resets k)) (delete k m)
reset-Counts k key now h m c n le = ap (keep (is_recent n)) (forgotten) ∙ go (k == key)
  where
    forgotten : attempts_of key (delete k m) ≡ (if k == key then [] else attempts_of key m)
    forgotten = ground (arith, lookup-delete k key m)

    go :
        (b : Bool)
        → keep (is_recent n) (if b then [] else attempts_of key m)
          ≡ keep (is_recent n) (if b then [] else h)
    go false = c n le
    go true = refl

module _ (visit : Failures → Failures) (key : Text) where
  -- One call, with room.
  step-Counts :
      (c : Call) (before : ℕ) (h : List ℕ) (m m' : Failures)
      → before ≤ instant before c
      → length m < max_keys
      → Counts key before h m
      → step visit c m ≡ some m'
      → Counts key (instant before c) (after_call key h c) m'
  unfolding step allow reset record_failure
  step-Counts (allows k now) before h m m' le room c e =
      subst (Counts key now h) (cc) (prune-Counts k key before now h m le c)
  step-Counts (fails k now) before h m m' le room c e =
      let p = (prune k now m).0 in
      let same : (prune k now m).1 ≡ attempts_of k p =
        prune-recent k now m
        ∙ sym (unfold prune in attempts_of-pruned k (keep (is_recent now) (attempts_of k m)) m) in
      let free : leb max_keys (length p) ≡ false = ground (arith, length-prune-le k now m) in
      let written : put k ((prune k now m).1 ++ now ∷ []) p ≡ m' = ground (arith, free, e) in
      subst (Counts key now (after_call key h (fails k now))) written (
        recorded-Counts k key now h (prune k now m).1 p (prune-Counts k key before now h m le c)
          same)
  step-Counts (resets k) before h m m' le room c e =
      subst (Counts key before (after_call key h (resets k))) (cc) (reset-Counts k key before h m c)

  run-Counts :
      (cs : List Call) (before : ℕ) (h : List ℕ) (m m' : Failures)
      → HasRoom visit before cs m
      → Counts key before h m
      → run visit cs m ≡ some m'
      → Counts key (last_instant before cs) (history key h cs) m'
  unfolding run history last_instant
  run-Counts [] before h m m' room c e = subst (Counts key before h) (cc) c
  run-Counts (call ∷ cs) before h m m' (le, free, room) c e =
      go (step visit call m) refl room e
        (λ x. run-Counts cs (instant before call) (after_call key h call) x m')
    where
      Goal : Type 0
      Goal = Counts key (last_instant before (call ∷ cs)) (history key h (call ∷ cs)) m'

      go :
          (o : Option Failures)
          → step visit call m ≡ o
          → (elim o as (λ _. Type 0) [
            | none ↦ ⊥
            | some x ↦ HasRoom visit (instant before call) cs x
          ])
          → (elim o as (λ _. Option Failures) [ none ↦ none | some x ↦ run visit cs x ]) ≡ some m'
          → ((x : Failures)
              → HasRoom visit (instant before call) cs x
              → Counts key (instant before call) (after_call key h call) x
              → run visit cs x ≡ some m'
              → Goal)
          → Goal
      go none q r e' rest = absurd r
      go (some x) q r e' rest = rest x r (step-Counts call before h m x le free c q) e'

  -- While the clock does not run back and the map has room, after any calls for this key and for
  -- others, Allow refuses a caller exactly when five or more of its failures since its last reset
  -- are recent, and names the instant at which the oldest of these ages out.
  pub run-allow :
      (cs : List Call) (now : ℕ) (m : Failures)
      → HasRoom visit 0 cs []
      → run visit cs [] ≡ some m
      → last_instant 0 cs ≤ now
      → (allow key now m).1 ≡ verdict (keep (is_recent now) (history key [] cs))
  unfolding allow verdict
  run-allow cs now m room e le = ap verdict (
      prune-recent key now m ∙ run-Counts cs 0 [] [] m room (λ n h. unfold lookup in refl) e now le)
