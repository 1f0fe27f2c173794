-- ===== src/Cron/Days.antt =====
-- The weekdays of schedule.go as sets: `seen` with each day once, and sorted.
use breckr.Base.{
  ℕ, ◌≤◌, ◌<◌, Bool, true, false, any, keep, In, any-In, All, All-append, All-keep, Bool-cases, inl,
  inr, ◌⊎◌, List, [], ◌∷◌, ◌++◌, ◌≡◌, ◌≢◌, ◌↔◌, refl, sym, ◌∙◌, subst, arith, nat_eq, leb, leb→le,
  order_by, insert_by, append_assoc, append-nil,
}
use breckr.Cron.{add_day}
use breckr.Cron.FromCron.{add_days}

-- Each day is below those after it.
abbrev pub Rising : List ℕ → Type 0
Rising [] = Unit
Rising (d ∷ ds) = All (λ e. d < e) ds × Rising ds

abbrev pub Different : List ℕ → Type 0
Different [] = Unit
Different (d ∷ ds) = All (λ e. d ≢ e) ds × Different ds

pub All-In : (P : ℕ → Type 0) (ds : List ℕ) → All P ds → (d : ℕ) → In d ds → P d
All-In P [] h d i = absurd i
All-In P (e ∷ ds) (p, h) d (inl q) = subst P (sym q) p
All-In P (e ∷ ds) (p, h) d (inr i) = All-In P ds h d i

-- Sorting different days makes them rise.
insert_by-All : (P : ℕ → Type 0) (d : ℕ) (ds : List ℕ) → P d → All P ds → All P (insert_by leb d ds)
unfolding insert_by
insert_by-All P d [] p h = (p, h)
insert_by-All P d (e ∷ ds) p (q, h) = elim (Bool-cases (leb d e)) [
  | inl l ↦ rw l (p, (q, h))
  | inr l ↦ rw l (q, insert_by-All P d ds p h)
]

All-le : (d e : ℕ) → d ≤ e → (ds : List ℕ) → All (λ x. e < x) ds → All (λ x. d < x) ds
All-le d e l [] h = tt
All-le d e l (x ∷ ds) (p, h) = (omega (arith, l, p), All-le d e l ds h)

insert_by-Rising :
    (d : ℕ) (ds : List ℕ) → All (λ e. d ≢ e) ds → Rising ds → Rising (insert_by leb d ds)
unfolding insert_by
insert_by-Rising d [] n h = (tt, tt)
insert_by-Rising d (e ∷ ds) (n, ns) (p, h) = elim (Bool-cases (leb d e)) [
  | inl l ↦ let le = leb→le d e l in rw l ((ground arith, All-le d e le ds p), (p, h))
  | inr l ↦ rw l (insert_by-All _ d ds (ground arith) p, insert_by-Rising d ds ns h)
]

pub order_by-All : (P : ℕ → Type 0) (ds : List ℕ) → All P ds → All P (order_by leb ds)
unfolding order_by
order_by-All P [] h = h
order_by-All P (d ∷ ds) (p, h) = insert_by-All P d (order_by leb ds) p (order_by-All P ds h)

pub order_by-Rising : (ds : List ℕ) → Different ds → Rising (order_by leb ds)
unfolding order_by
order_by-Rising [] h = tt
order_by-Rising (d ∷ ds) (n, h) =
    insert_by-Rising d (order_by leb ds) (order_by-All _ ds n) (order_by-Rising ds h)

-- What rises is sorted already.
insert_by-first : (d : ℕ) (ds : List ℕ) → All (λ e. d < e) ds → insert_by leb d ds ≡ d ∷ ds
unfolding insert_by
insert_by-first d [] h = refl
insert_by-first d (e ∷ ds) (p, h) = ground (arith, p)

pub Rising-order_by : (ds : List ℕ) → Rising ds → order_by leb ds ≡ ds
unfolding order_by
Rising-order_by [] h = refl
Rising-order_by (d ∷ ds) (p, h) = rw (Rising-order_by ds h) (insert_by-first d ds p)

-- Two rising lists with the same days are one.
head_le :
    (d e : ℕ) (ds es : List ℕ)
    → All (λ x. e < x) es
    → ((x : ℕ) → In x (d ∷ ds) → In x (e ∷ es))
    → e ≤ d
head_le d e ds es h sub = elim (sub d (inl refl)) [
  | inl q ↦ omega (arith, q)
  | inr i ↦ let below = All-In _ es h d i in omega (arith, below)
]

rest_sub :
    (d e : ℕ) (ds es : List ℕ)
    → d ≡ e
    → All (λ x. d < x) ds
    → ((x : ℕ) → In x (d ∷ ds) → In x (e ∷ es))
    → (x : ℕ) → In x ds
    → In x es
rest_sub d e ds es same h sub x i = elim (sub x (inr i)) [
  | inl q ↦ let below = All-In _ ds h x i in absurd (omega (arith, below, q, same))
  | inr j ↦ j
]

pub Rising-ext :
    (ds es : List ℕ)
    → Rising ds
    → Rising es
    → ((x : ℕ) → In x ds → In x es)
    → ((x : ℕ) → In x es → In x ds)
    → ds ≡ es
Rising-ext [] [] h k there back = refl
Rising-ext [] (e ∷ es) h k there back = absurd (back e (inl refl))
Rising-ext (d ∷ ds) [] h k there back = absurd (there d (inl refl))
Rising-ext (d ∷ ds) (e ∷ es) (p, h) (q, k) there back =
    let same : d ≡ e = omega (arith, head_le d e ds es q there, head_le e d es ds p back) in
    let one : ds ≡ es =
      Rising-ext ds es h k (rest_sub d e ds es same p there)
        (rest_sub e d es ds (sym same) q back) in
    rw (same, one)

pub keep-Rising : (p : ℕ → Bool) (ds : List ℕ) → Rising ds → Rising (keep p ds)
keep-Rising p [] h = tt
keep-Rising p (d ∷ ds) (q, h) = elim (Bool-cases (p d)) [
  | inl e ↦ rw e (All-keep _ p ds q, keep-Rising p ds h)
  | inr e ↦ rw e (keep-Rising p ds h)
]

-- A day is added once, at the end.
not_any : (d : ℕ) (ds : List ℕ) → any (nat_eq d) ds ≡ false → All (λ e. e ≢ d) ds
not_any d [] h = tt
not_any d (e ∷ ds) h = elim (Bool-cases (nat_eq d e)) [
  | inl q ↦ cc (h, q)
  | inr q ↦ (ground arith, not_any d ds (ground arith))
]

Different-snoc :
    (d : ℕ) (ds : List ℕ) → Different ds → All (λ e. e ≢ d) ds → Different (ds ++ d ∷ [])
Different-snoc d [] h n = (tt, tt)
Different-snoc d (e ∷ ds) (p, h) (q, n) =
    (All-append _ ds (d ∷ []) p (q, tt), Different-snoc d ds h n)

pub add_day-Different : (d : ℕ) (ds : List ℕ) → Different ds → Different (add_day d ds)
unfolding add_day
add_day-Different d ds h = elim (Bool-cases (any (nat_eq d) ds)) [
  | inl e ↦ rw e h
  | inr e ↦ rw e (Different-snoc d ds h (not_any d ds e))
]

In-snoc : (d x : ℕ) (ds : List ℕ) → In x (ds ++ d ∷ []) ↔ ((x ≡ d) ⊎ In x ds)
In-snoc d x [] = (λ i. i, λ i. i)
In-snoc d x (e ∷ ds) =
    let (there, back) = In-snoc d x ds in
    (
      λ i. elim i [
        | inl q ↦ inr (inl q)
        | inr j ↦ elim (there j) [ inl q ↦ inl q | inr k ↦ inr (inr k) ]
      ],
      λ i. elim i [
        | inl q ↦ inr (back (inl q))
        | inr j ↦ elim j [ inl q ↦ inl q | inr k ↦ inr (back (inr k)) ]
      ],
    )

pub add_day-In : (d x : ℕ) (ds : List ℕ) → In x (add_day d ds) ↔ ((x ≡ d) ⊎ In x ds)
unfolding add_day
add_day-In d x ds = elim (Bool-cases (any (nat_eq d) ds)) [
  | inl e ↦ rw e (λ i. inr i, λ i. elim i [ inl q ↦ there (any-In (nat_eq d) ds e) q | inr j ↦ j ])
  | inr e ↦ rw e (In-snoc d x ds)
]
  where
    there : (a : ℕ) × In a ds × (nat_eq d a ≡ true) → x ≡ d → In x ds
    there (a, i, h) q = let same : a ≡ x = ground arith in subst (λ y. In y ds) same i

any-snoc :
    (x d : ℕ) (seen : List ℕ)
    → any (nat_eq x) seen ≡ false
    → d < x
    → any (nat_eq x) (seen ++ d ∷ []) ≡ false
any-snoc x d [] h l = ground arith
any-snoc x d (e ∷ seen) h l = ground (arith, any-snoc x d seen)

-- Rising days, added to lower ones, are all appended.
pub add_days-Rising :
    (seen ds : List ℕ)
    → Rising ds
    → ((x : ℕ) → In x ds → any (nat_eq x) seen ≡ false)
    → add_days seen ds ≡ seen ++ ds
unfolding add_days add_day
add_days-Rising seen [] h new = sym (append-nil seen)
add_days-Rising seen (d ∷ ds) (p, h) new = rw (new d (inl refl)) (
    add_days-Rising (seen ++ d ∷ []) ds h
      (λ x i. any-snoc x d seen (new x (inr i)) (All-In _ ds p x i))
    ∙ append_assoc seen (d ∷ []) ds)
