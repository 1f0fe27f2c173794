-- ===== src/Executor/Complete.antt =====
-- A run against a page that ends well: one check for each condition, whatever the page answered.
use breckr.Base.{
  Text, ℕ, Option, none, some, List, [], ◌∷◌, Result, ok, err, ok_injective, length, length-map,
  map, ◌≡◌, ◌≢◌, refl, ap, sym, ◌∙◌,
}
use breckr.Types.Task.{Condition, TaskSpec}
use breckr.Executor.{Floats, Value, CheckResult, TaskResult, condition_key, evaluate_conditions}
use breckr.Executor.Page.{
  PageOps, with_answer, then_page, after_navigate, check_condition, check_all, result_of, execute,
}
use breckr.Executor.Verdict.{outcomes, verdict_of, evaluate_conditions-outcomes}

-- An answer that was passed on.
with_answer-ok :
    {P A B : Type 0} (x : P × Result Text A) (f : A → Result Text B) (page : P) (b : B)
    → with_answer x f ≡ (page, ok b)
    → (a : A) × (x ≡ (page, ok a)) × (f a ≡ ok b)
with_answer-ok (q, ok a) f page b h = (a, ap (λ p. (p, ok a)) (ap (λ y. y.0) h), ap (λ y. y.1) h)
with_answer-ok (q, err e) f page b h = cc (ap (λ y. y.1) h)

then_page-ok :
    {P A B : Type 0} (x : P × Result Text A) (f : A → P → P × Result Text B) (page : P) (b : B)
    → then_page x f ≡ (page, ok b)
    → (a : A) × (q : P) × (f a q ≡ (page, ok b))
then_page-ok (q, ok a) f page b h = (a, q, h)
then_page-ok (q, err e) f page b h = cc (ap (λ y. y.1) h)

module _ {P F : Type 0} (page_ops : PageOps P) (ops : Floats F) (of_count : ℕ → F)
    (quote : Text → Text) where
  abbrev pub keys_of : List (CheckResult F) → List Text
  keys_of = map (λ k. k.key)

  check_all-keys :
      (url : Text) (cs : List Condition) (page page' : P) (checks : List (CheckResult F))
      → check_all page_ops ops of_count quote url cs page ≡ (page', ok checks)
      → keys_of checks ≡ map (condition_key quote) cs
  unfolding check_all
  check_all-keys url [] page page' checks h = ap keys_of (sym (ok_injective (ap (λ y. y.1) h)))
  check_all-keys url (c ∷ cs) page page' checks h =
      let (x, q, h1) =
        then_page-ok (check_condition page_ops ops of_count quote url c page) _ page' checks h in
      let (rest, h2, h3) =
        with_answer-ok (check_all page_ops ops of_count quote url cs q) _ page' checks h1 in
      ap keys_of (sym (ok_injective h3))
      ∙ ap (λ ks. condition_key quote c ∷ ks) (check_all-keys url cs q page' rest h2)

  checks-result_of :
      (url now : Text) (ks : List (CheckResult F))
      → (result_of page_ops ops of_count quote url now ks).checks ≡ ks
  checks-result_of url now [] = refl
  checks-result_of url now (k ∷ ks) = refl

  navigated-keys :
      (now : Text) (spec : TaskSpec) (x : P × Option Text) (page' : P) (r : TaskResult F)
      → after_navigate page_ops ops of_count quote
          (λ q.
            with_answer
              (check_all page_ops ops of_count quote spec.url spec.conditions q)
              (λ ks. ok (result_of page_ops ops of_count quote spec.url now ks)))
          x
        ≡ (page', ok r)
      → keys_of r.checks ≡ map (condition_key quote) spec.conditions
  navigated-keys now spec (q, some e) page' r h = cc (ap (λ y. y.1) h)
  navigated-keys now spec (q, none) page' r h =
      let (ks, h1, h2) =
        with_answer-ok (check_all page_ops ops of_count quote spec.url spec.conditions q) _ page' r
          h in
      ap (λ (t : TaskResult F). keys_of t.checks) (sym (ok_injective h2))
      ∙ ap keys_of (checks-result_of spec.url now ks)
      ∙ check_all-keys spec.url spec.conditions q page' ks h1

  pub execute-keys :
      (now : Text) (spec : TaskSpec) (page page' : P) (r : TaskResult F)
      → execute page_ops ops of_count quote now spec page ≡ (page', ok r)
      → keys_of r.checks ≡ map (condition_key quote) spec.conditions
  unfolding execute
  execute-keys now spec page page' r h =
      navigated-keys now spec (page_ops.navigate spec.url page) page' r h

  pub length-execute :
      (now : Text) (spec : TaskSpec) (page page' : P) (r : TaskResult F)
      → execute page_ops ops of_count quote now spec page ≡ (page', ok r)
      → length r.checks ≡ length spec.conditions
  length-execute now spec page page' r h =
      sym (length-map (λ (k : CheckResult F). k.key) r.checks)
      ∙ ap length (execute-keys now spec page page' r h)
      ∙ length-map (condition_key quote) spec.conditions

  -- A run of a spec with conditions that ends without an error, whatever the page answered, has
  -- one check for each condition, in their order, under the condition's own key, and the verdict
  -- on it is that every outcome, or at least one, is true, as the match mode says.
  pub execute-outcomes :
      (one zero' : F) (previous : List (Text × Value F)) (now : Text) (spec : TaskSpec)
      (page page' : P) (r : TaskResult F)
      → length spec.conditions ≢ 0
      → execute page_ops ops of_count quote now spec page ≡ (page', ok r)
      → (keys_of r.checks ≡ map (condition_key quote) spec.conditions)
        × ((evaluate_conditions ops one zero' spec r previous).0
            ≡ verdict_of spec.match_mode (outcomes ops one zero' previous spec.conditions r.checks))
  execute-outcomes one zero' previous now spec page page' r some_condition h = (
    execute-keys now spec page page' r h,
    (evaluate_conditions-outcomes ops one zero' previous spec r some_condition
        (length-execute now spec page page' r h)).0,
  )
