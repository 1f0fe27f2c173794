-- ===== src/Throttle/Bounds.antt =====
-- The size of the map, and the entries that the eviction reads.
use mathlib.Core.Option
use breckr.Base.{
  Text, codes, ℕ, ◌≤◌, ◌<◌, true, false, not, ◌&&◌, ◌||◌, Option, none, some, List, [], ◌∷◌, ◌++◌,
  length, lookup, put, delete, keep, is_empty, Text_eq, ◌≡◌, ◌≢◌, ◌↔◌, refl, ap, sym, subst, ◌∙◌,
  ◌⊎◌, inl, inr, All, In, arith, Bool-cases, length-put, length-delete-le, length-delete-lt, ltb,
  leb, ◌==◌,
}
use breckr.Throttle.{
  Failures, max_keys, attempts_of, is_recent, pruned, prune, allow, latest, oldest, evict_oldest,
  is_tracked, record_failure, reset, Call, allows, fails, resets, step, run,
}

-- No entry is empty.
abbrev pub AllUsed : Failures → Type 0
AllUsed m = All (λ x. x.1 ≢ []) m

pub record IsValid (m : Failures) : Type 0 where
  pub bounded : length m ≤ max_keys
  pub used : AllUsed m

put-AllUsed :
    (k : Text) (x : ℕ) (xs : List ℕ) (m : Failures) → AllUsed m → AllUsed (put k (x ∷ xs) m)
unfolding put
put-AllUsed k x xs [] h = (λ e. cc, tt)
put-AllUsed k x xs ((j, w) ∷ m) (h, hs) = elim (Bool-cases (j == k)) [
  | inl e ↦ rw e (λ q. cc, hs)
  | inr e ↦ rw e (h, put-AllUsed k x xs m hs)
]

delete-AllUsed : (k : Text) (m : Failures) → AllUsed m → AllUsed (delete k m)
unfolding delete
delete-AllUsed k [] h = tt
delete-AllUsed k ((j, w) ∷ m) (h, hs) = elim (Bool-cases (j == k)) [
  | inl e ↦ rw e (delete-AllUsed k m hs)
  | inr e ↦ rw e (h, delete-AllUsed k m hs)
]

In-lookup :
    (k : Text) (v : List ℕ) (m : Failures) → In (k, v) m → (w : List ℕ) × (lookup k m ≡ some w)
unfolding lookup
In-lookup k v [] i = absurd i
In-lookup k v ((j, w) ∷ m) i = elim (Bool-cases (j == k)) [
  | inl e ↦ rw e (w, refl)
  | inr e ↦ elim i [
    | inl q ↦ absurd (ground (arith, ap (λ (x : Text × List ℕ). x.0) q, (Text_eq.beq_iff j k).1))
    | inr q ↦ rw e (In-lookup k v m q)
  ]
]

latest-some : (ts : List ℕ) → ts ≢ [] → (t : ℕ) × (latest ts ≡ some t)
unfolding latest
latest-some [] h = absurd (h refl)
latest-some (x ∷ xs) h = go (latest xs) refl
  where
    go : (o : Option ℕ) → latest xs ≡ o → (t : ℕ) × (latest (x ∷ xs) ≡ some t)
    go none e = rw e (x, refl)
    go (some y) e = rw e (y, refl)

-- What the loop finds, from where it stands: a key it has seen, or the one it holds.
oldest-In :
    (k : Text) (t : ℕ) (xs : Failures)
    → AllUsed xs
    → (found : Text) × (oldest k t xs ≡ some found)
      × ((found ≡ k) ⊎ ((v : List ℕ) × In (found, v) xs))
unfolding oldest
oldest-In k t [] h = (k, refl, inl refl)
oldest-In k t ((key, ts) ∷ xs) (h, hs) =
    let (last, e) = latest-some ts h in
    elim (Bool-cases (is_empty k || ltb last t)) [
      | inl b ↦
          let (found, q, from) = oldest-In key last xs hs in
          rw (e, oldest)
            (rw b (
              found,
              q,
              inr (elim from [ inl z ↦ (ts, inl (ap (λ n. (n, ts)) z)) | inr (v, i) ↦ (v, inr i) ]),
            ))
      | inr b ↦
          let (found, q, from) = oldest-In k t xs hs in
          rw (e, oldest)
            (rw b (found, q, elim from [ inl z ↦ inl z | inr (v, i) ↦ inr (v, inr i) ]))
    ]

-- Over entries that are there, the loop finds the key of one.
oldest-found :
    (t : ℕ) (x : Text × List ℕ) (xs : Failures)
    → AllUsed (x ∷ xs)
    → (found : Text) × (oldest (codes "") t (x ∷ xs) ≡ some found)
      × ((v : List ℕ) × In (found, v) (x ∷ xs))
unfolding oldest
oldest-found t (key, ts) xs (h, hs) =
    let (last, e) = latest-some ts h in
    let (found, q, from) = oldest-In key last xs hs in
    rw (e, oldest)
      (found, q, elim from [ inl z ↦ (ts, inl (ap (λ n. (n, ts)) z)) | inr (v, i) ↦ (v, inr i) ])

AllUsed-In : (x : Text × List ℕ) (xs : Failures) → AllUsed xs → In x xs → x.1 ≢ []
AllUsed-In x [] h i = absurd i
AllUsed-In x (y ∷ xs) (h, hs) (inl e) = subst (λ z. z.1 ≢ []) (sym e) h
AllUsed-In x (y ∷ xs) (h, hs) (inr i) = AllUsed-In x xs hs i

In-AllUsed : (xs : Failures) → ((x : Text × List ℕ) → In x xs → x.1 ≢ []) → AllUsed xs
In-AllUsed [] h = tt
In-AllUsed (x ∷ xs) h = (h x (inl refl), In-AllUsed xs (λ y i. h y (inr i)))

pub length-prune-le : (key : Text) (now : ℕ) (m : Failures) → length (prune key now m).0 ≤ length m
unfolding prune pruned
length-prune-le key now m = go (keep (is_recent now) (attempts_of key m)) refl
  where
    go :
        (ts : List ℕ)
        → keep (is_recent now) (attempts_of key m) ≡ ts
        → length (pruned key ts m).0 ≤ length m
    go [] e = length-delete-le key m
    go (x ∷ xs) e = ground (arith, length-put key (x ∷ xs) m)

-- The range over a map visits its entries, in any order.
abbrev pub Visits : (Failures → Failures) → Type 0
Visits visit = (m : Failures) (x : Text × List ℕ) → In x (visit m) ↔ In x m

module _ (visit : Failures → Failures) (visits : Visits visit) where
  -- A full map loses an entry.
  evict_oldest-lt :
      (m : Failures)
      → AllUsed m
      → 0 < length m
      → (m' : Failures) × (evict_oldest visit m ≡ some m') × (length m' < length m) × AllUsed m'
  unfolding evict_oldest
  evict_oldest-lt m used some_entry =
      let seen = In-AllUsed (visit m) (λ x i. AllUsed-In x m used ((visits m x).0 i)) in
      go (visit m) refl seen
    where
      empties : (ys : Failures) → ((x : Text × List ℕ) → In x ys → ⊥) → length ys ≡ 0
      empties [] h = refl
      empties (y ∷ ys) h = absurd (h y (inl refl))

      go :
          (xs : Failures)
          → visit m ≡ xs
          → AllUsed xs
          → (m' : Failures) × (evict_oldest visit m ≡ some m') × (length m' < length m) × AllUsed m'
      go [] e used' =
          let none_there : (x : Text × List ℕ) → In x m → ⊥ =
            λ x i. subst (In x) e ((visits m x).1 i) in
          absurd (omega (arith, empties m none_there))
      go (x ∷ xs) e used' =
          let (k, q, (v, i)) = oldest-found 0 x xs used' in
          let (w, there) = In-lookup k v m ((visits m (k, v)).0 (subst (In (k, v)) (sym e) i)) in
          (
            delete k m,
            ap (Option.map (λ (k : Text). delete k m)) (ap (oldest (codes "") 0) e ∙ q),
            omega (arith, length-delete-lt k w m there),
            delete-AllUsed k m used,
          )

  prune-IsValid : (key : Text) (now : ℕ) (m : Failures) → IsValid m → IsValid (prune key now m).0
  unfolding prune pruned
  prune-IsValid key now m v = record {
    bounded = omega (arith, length-prune-le key now m, v.bounded);
    used = left (keep (is_recent now) (attempts_of key m));
  }
    where
      left : (ts : List ℕ) → AllUsed (pruned key ts m).0
      left [] = delete-AllUsed key m v.used
      left (x ∷ xs) = put-AllUsed key x xs m v.used

  put-IsValid :
      (key : Text) (now : ℕ) (ts : List ℕ) (m : Failures)
      → AllUsed m
      → (length m < max_keys) ⊎ ((length m ≤ max_keys) × (is_tracked key m ≡ true))
      → IsValid (put key (ts ++ now ∷ []) m)
  unfolding is_tracked
  put-IsValid key now ts m used room = record {
    bounded = ground (arith, length-put key (ts ++ now ∷ []) m, room);
    used = filled ts;
  }
    where
      filled : (ts : List ℕ) → AllUsed (put key (ts ++ now ∷ []) m)
      filled [] = put-AllUsed key now [] m used
      filled (x ∷ xs) = put-AllUsed key x (xs ++ now ∷ []) m used

  room :
      (key : Text) (p : Failures)
      → length p ≤ max_keys
      → leb max_keys (length p) && not (is_tracked key p) ≡ false
      → (length p < max_keys) ⊎ ((length p ≤ max_keys) × (is_tracked key p ≡ true))
  room key p h e = elim (Bool-cases (leb max_keys (length p))) [
    | inl full ↦ inr (h, elim (Bool-cases (is_tracked key p)) [ inl there ↦ there | inr gone ↦ cc ])
    | inr free ↦ inl (ground arith)
  ]

  record_failure-IsValid :
      (key : Text) (now : ℕ) (m : Failures)
      → IsValid m
      → (m' : Failures) × (record_failure visit key now m ≡ some m') × IsValid m'
  unfolding record_failure
  record_failure-IsValid key now m v =
      let (p, recent) = prune key now m in
      let w : IsValid p = prune-IsValid key now m v in
      elim (Bool-cases (leb max_keys (length p) && not (is_tracked key p))) [
        | inl e ↦
            let (q, is, fewer, used) = evict_oldest-lt p w.used (ground arith) in
            rw e (
              rw is (
                put key (recent ++ now ∷ []) q,
                refl,
                put-IsValid key now recent q used (inl (omega (arith, fewer, w.bounded))),
              ))
        | inr e ↦ rw e (
          put key (recent ++ now ∷ []) p,
          refl,
          put-IsValid key now recent p w.used (room key p w.bounded e),
        )
      ]

  step-IsValid :
      (c : Call) (m : Failures)
      → IsValid m
      → (m' : Failures) × (step visit c m ≡ some m') × IsValid m'
  unfolding step reset allow
  step-IsValid (allows key now) m v = ((prune key now m).0, refl, prune-IsValid key now m v)
  step-IsValid (fails key now) m v = record_failure-IsValid key now m v
  step-IsValid (resets key) m v = (
    delete key m,
    refl,
    record {
      bounded = omega (arith, length-delete-le key m, v.bounded);
      used = delete-AllUsed key m v.used;
    },
  )

  run_on-IsValid :
      (cs : List Call) (m : Failures)
      → IsValid m
      → (m' : Failures) × (run visit cs m ≡ some m') × IsValid m'
  unfolding run
  run_on-IsValid [] m v = (m, refl, v)
  run_on-IsValid (c ∷ cs) m v =
      let (m1, e, v1) = step-IsValid c m v in
      let (m2, e2, v2) = run_on-IsValid cs m1 v1 in (m2, rw (e, run) e2, v2)

  -- However the range over the map is ordered, from the empty map no sequence of calls panics,
  -- and the map it leaves has at most maxKeys keys, each with a failure.
  pub run-IsValid : (cs : List Call) → (m : Failures) × (run visit cs [] ≡ some m) × IsValid m
  run-IsValid cs = run_on-IsValid cs [] (record { bounded = omega arith; used = tt })
