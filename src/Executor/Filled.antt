-- ===== src/Executor/Filled.antt =====
-- The placeholders of a message that passed validation, at the time of the alert.
use breckr.Base.{
  Text, codes, ℕ, suc, ◌+◌, ◌≤◌, ◌<◌, true, ◌&&◌, all, any-In, In, All, Bool-cases, some,
  Option-cases, List, [], ◌∷◌, ◌++◌, length, ◌≡◌, ◌⊎◌, inl, inr, refl, ap, sym, subst, ◌∙◌, arith,
  lookup, put, lookup-put, lookup-put_self, ◌==◌, Text_eq, text_beq, text_beq_iff, nat_eq, leb,
  decimal, decimal-canonical, digits_value-positive, all-IsDigits_of, leb→le, digits_value,
  is_digit, plain_int, max_int, ok, not, is_empty,
}
use breckr.Types.Task.{TaskSpec}
use breckr.Types.Words.{DraftSpec}
use breckr.Types.Placeholder.{find_all, indexed, index_digits, after, message_placeholders}
use breckr.Executor.{Floats, CheckResult, TaskResult, stringify}
use breckr.Executor.Render.{value_name, raw_name, add_values, message_values}
use breckr.Spec.{Parsers, is_known, validate_spec}
use breckr.Spec.Usable.{validate_spec-IsUsable}

-- The map has a value for the name.
abbrev pub Has : Text → List (Text × Text) → Type 0
Has name values = (t : Text) × (lookup name values ≡ some t)

put-Has :
    (name k v : Text) (values : List (Text × Text)) → Has name values → Has name (put k v values)
put-Has name k v values (t, h) = elim (Bool-cases (k == name)) [
  | inl e ↦ (v, lookup-put k name v values ∙ rw e refl)
  | inr e ↦ (t, lookup-put k name v values ∙ rw e h)
]

module _ {F : Type 0} (ops : Floats F) (one zero' : F) where
  add_values-Has :
      (n : ℕ) (ks : List (CheckResult F)) (name : Text) (values : List (Text × Text))
      → Has name values
      → Has name (add_values ops one zero' n ks values)
  unfolding add_values
  add_values-Has n [] name values h = h
  add_values-Has n (k ∷ ks) name values h =
      add_values-Has (suc n) ks name _ (put-Has name _ _ _ (put-Has name _ _ values h))

  -- The values of each check, under its number.
  add_values-numbered :
      (n i : ℕ) (ks : List (CheckResult F)) (values : List (Text × Text))
      → n ≤ i
      → i < n + length ks
      → Has (value_name i) (add_values ops one zero' n ks values)
        × Has (raw_name i) (add_values ops one zero' n ks values)
  unfolding add_values
  add_values-numbered n i [] values l h = absurd (omega arith)
  add_values-numbered n i (k ∷ ks) values l h = elim (Bool-cases (nat_eq n i)) [
    | inl e ↦
        let same : n ≡ i = ground arith in
        subst
          (λ j.
            Has (value_name j) (add_values ops one zero' n (k ∷ ks) values)
            × Has (raw_name j) (add_values ops one zero' n (k ∷ ks) values))
          same
          (
            add_values-Has (suc n) ks (value_name n) _
                (put-Has (value_name n) _ _ _ (_, lookup-put_self (value_name n) _ values)),
            add_values-Has (suc n) ks (raw_name n) _ (_, lookup-put_self (raw_name n) _ _),
          )
    | inr e ↦ add_values-numbered (suc n) i ks _ (ground arith) (omega (arith, h))
  ]

after-append : (p s t : Text) → after p s ≡ some t → s ≡ p ++ t
unfolding after
after-append [] s t h = cc h
after-append (c ∷ p) [] t h = cc h
after-append (c ∷ p) (d ∷ s) t h = elim (Bool-cases (nat_eq c d)) [
  | inl e ↦
      let same : c ≡ d = ground arith in
      let rest = after-append p s t (rw (after, e) at h) in cc (same, rest)
  | inr e ↦ cc (rw (after, e) at h)
]

-- The digits of an index are those of its number, which is not 0.
abbrev IsIndex : Text → Type 0
IsIndex ds = (decimal (digits_value 0 ds) ≡ ds) × (1 ≤ digits_value 0 ds)

index_digits-IsIndex : (s t : Text) → index_digits s ≡ some t → (s ≡ t) × IsIndex t
unfolding index_digits
index_digits-IsIndex [] t h = cc h
index_digits-IsIndex (c ∷ s) t h = elim (Bool-cases (leb 49 c && leb c 57 && all is_digit s)) [
  | inl e ↦
      let same : c ∷ s ≡ t = cc (rw (index_digits, e) at h) in
      let first : leb 49 c && leb c 57 ≡ true = ground (arith, e) in
      let rest : all is_digit s ≡ true = ground (arith, e) in
      (
        same,
        subst IsIndex same
            (decimal-canonical c s first (all-IsDigits_of s rest), digits_value-positive c s first),
      )
  | inr e ↦ cc (rw (index_digits, e) at h)
]

indexed-name :
    (name ds : Text)
    → indexed name ≡ some ds
    → ((name ≡ codes "value" ++ ds) ⊎ (name ≡ codes "raw" ++ ds)) × IsIndex ds
unfolding indexed
indexed-name name ds h = elim (Option-cases (after (codes "value") name)) [
  | inr (s, e) ↦
      let (same, index) = index_digits-IsIndex s ds (rw (indexed, e) at h) in
      (inl (after-append (codes "value") name s e ∙ ap (λ u. codes "value" ++ u) same), index)
  | inl e ↦ elim (Option-cases (after (codes "raw") name)) [
    | inr (s, f) ↦
        let (same, index) = index_digits-IsIndex s ds (rw (indexed, e, f) at h) in
        (inr (after-append (codes "raw") name s f ∙ ap (λ u. codes "raw" ++ u) same), index)
    | inl f ↦ cc (rw (indexed, e, f) at h)
  ]
]

plain_int-value : (s : Text) (n : ℕ) → plain_int s ≡ some n → n ≡ digits_value 0 s
unfolding plain_int
plain_int-value s n h =
    elim (Bool-cases (not (is_empty s) && all is_digit s && leb (digits_value 0 s) max_int)) [
      | inl e ↦ cc (rw (plain_int, e) at h)
      | inr e ↦ cc (rw (plain_int, e) at h)
    ]

abbrev fixed_values : Text → Text → Text → Text → List (Text × Text)
fixed_values v r u t =
    (codes "value", v) ∷ (codes "raw", r) ∷ (codes "url", u) ∷ (codes "name", t) ∷ []

fixed-Has : (v r u t p : Text) → In p message_placeholders → Has p (fixed_values v r u t)
unfolding lookup text_beq
fixed-Has v r u t p (inl e) = subst (λ x. Has x (fixed_values v r u t)) (sym e) (v, refl)
fixed-Has v r u t p (inr (inl e)) = subst (λ x. Has x (fixed_values v r u t)) (sym e) (r, refl)
fixed-Has v r u t p (inr (inr (inl e))) =
    subst (λ x. Has x (fixed_values v r u t)) (sym e) (u, refl)
fixed-Has v r u t p (inr (inr (inr (inl e)))) =
    subst (λ x. Has x (fixed_values v r u t)) (sym e) (t, refl)
fixed-Has v r u t p (inr (inr (inr (inr i)))) = absurd i

module _ {F : Type 0} (ops : Floats F) (one zero' : F) where
  -- A known name has a value, in a result with a check for each condition.
  is_known-Has :
      (r : TaskResult F) (task : Text) (n : ℕ) (name : Text)
      → length r.checks ≡ n
      → is_known n name ≡ true
      → Has name (message_values ops one zero' r task)
  unfolding is_known message_values
  is_known-Has r task n name same h = elim (Option-cases (indexed name)) [
    | inr (ds, e) ↦ elim (Option-cases (plain_int ds)) [
      | inr (k, f) ↦
          numbered ds k (indexed-name name ds e) (plain_int-value ds k f)
            (leb→le k n (rw (is_known, e, f) at h))
      | inl f ↦ cc (rw (is_known, e, f) at h)
    ]
    | inl e ↦
        let (p, i, q) = any-In (λ x. x == name) message_placeholders (rw (is_known, e) at h) in
        add_values-Has ops one zero' 1 r.checks name _ (
          subst (λ x. Has x first_values) ((text_beq_iff p name).0 q)
            (fixed-Has (stringify ops one zero' r.value) r.raw r.url task p i))
  ]
    where
      first_values : List (Text × Text)
      first_values = fixed_values (stringify ops one zero' r.value) r.raw r.url task

      numbered :
          (ds : Text) (k : ℕ)
          → ((name ≡ codes "value" ++ ds) ⊎ (name ≡ codes "raw" ++ ds)) × IsIndex ds
          → k ≡ digits_value 0 ds
          → k ≤ n
          → Has name (message_values ops one zero' r task)
      numbered ds k (form, (canonical, positive)) is l =
          let printed : ds ≡ decimal k = sym canonical ∙ ap decimal (sym is) in
          let (value, raw) =
            add_values-numbered ops one zero' 1 k r.checks first_values
              (omega (arith, is, positive)) (omega (arith, same, l)) in
          elim form [
            | inl e ↦
                subst (λ x. Has x (message_values ops one zero' r task))
                  (sym (e ∙ ap (λ u. codes "value" ++ u) printed)) value
            | inr e ↦
                subst (λ x. Has x (message_values ops one zero' r task))
                  (sym (e ∙ ap (λ u. codes "raw" ++ u) printed)) raw
          ]

  all-Has :
      (r : TaskResult F) (task : Text) (n : ℕ) (names : List Text)
      → length r.checks ≡ n
      → all (is_known n) names ≡ true
      → All (λ name. Has name (message_values ops one zero' r task)) names
  all-Has r task n [] same h = tt
  all-Has r task n (name ∷ names) same h = elim (Bool-cases (is_known n name)) [
    | inl e ↦ (is_known-Has r task n name same e, all-Has r task n names same (ground (arith, h)))
    | inr e ↦ cc (h, e)
  ]

  -- For a spec that passed validation and a result with a check for each of its conditions, every
  -- placeholder of the stored message has a value when the message is rendered.
  pub validated_message-Has :
      (p : Parsers) (d : DraftSpec) (s : TaskSpec) (r : TaskResult F) (task : Text)
      → validate_spec p (some d) ≡ ok s
      → length r.checks ≡ length s.conditions
      → All (λ name. Has name (message_values ops one zero' r task)) (find_all s.message)
  validated_message-Has p d s r task h same =
      all-Has r task (length s.conditions) (find_all s.message) same
        (validate_spec-IsUsable p d s h).message_known
