-- ===== src/Executor/Verdict.antt =====
-- The verdict on a run against the conditions one by one.
use breckr.Base.{
  Text, Bool, true, false, not, ◌&&◌, ◌||◌, List, [], ◌∷◌, length, map, all, any, nat_eq,
  if◌then◌else◌, ◌≡◌, ◌≢◌, refl, ◌∙◌, ap, arith, Text_eq,
}
use breckr.Types.Task.{Condition, TaskSpec, MatchMode, match_all, match_any}
use breckr.Executor.{
  Floats, Value, CheckResult, TaskResult, evaluate_condition, previous_of, combine, check_with,
  evaluate_loop, starts_met, evaluate_conditions,
}

-- How the outcomes combine: every one of them, or at least one.
abbrev pub verdict_of : MatchMode → List Bool → Bool
verdict_of match_all bs = all (λ b. b) bs
verdict_of match_any bs = any (λ b. b) bs

and_step : (m e a : Bool) → ((m && e) && a) ≡ (m && (if e then a else false))
and_step m e a = ground arith

or_step : (m e a : Bool) → ((m || e) || a) ≡ (m || (if e then true else a))
or_step m e a = ground arith

module _ {F : Type 0} (ops : Floats F) (one zero : F) (previous : List (Text × Value F)) where
  -- Each condition's own outcome, on the check in its place.
  unfoldable pub outcomes : List Condition → List (CheckResult F) → List Bool
  outcomes [] ks = []
  outcomes (c ∷ cs) [] = []
  outcomes (c ∷ cs) (k ∷ ks) =
      evaluate_condition ops one zero c k.value (previous_of ops one zero previous k.key)
      ∷ outcomes cs ks

  abbrev pub mets : List (CheckResult F) → List Bool
  mets = map (λ k. k.met)

  checks-evaluate_loop :
      (mode : MatchMode) (cs : List Condition) (ks : List (CheckResult F)) (met : Bool)
      → length ks ≡ length cs
      → mets (evaluate_loop ops one zero mode previous cs ks met).1 ≡ outcomes cs ks
  unfolding evaluate_loop outcomes check_with
  checks-evaluate_loop mode [] [] met h = refl
  checks-evaluate_loop mode [] (k ∷ ks) met h = absurd (omega arith)
  checks-evaluate_loop mode (c ∷ cs) [] met h = refl
  checks-evaluate_loop mode (c ∷ cs) (k ∷ ks) met h =
      ap
        (λ bs.
          evaluate_condition ops one zero c k.value (previous_of ops one zero previous k.key) ∷ bs)
        (checks-evaluate_loop mode cs ks _ (omega arith))

  all-evaluate_loop :
      (cs : List Condition) (ks : List (CheckResult F)) (met : Bool)
      → (evaluate_loop ops one zero match_all previous cs ks met).0
        ≡ (met && all (λ b. b) (outcomes cs ks))
  unfolding evaluate_loop outcomes check_with combine
  all-evaluate_loop [] ks met = ground arith
  all-evaluate_loop (c ∷ cs) [] met = ground arith
  all-evaluate_loop (c ∷ cs) (k ∷ ks) met = all-evaluate_loop cs ks _ ∙ and_step met _ _

  any-evaluate_loop :
      (cs : List Condition) (ks : List (CheckResult F)) (met : Bool)
      → (evaluate_loop ops one zero match_any previous cs ks met).0
        ≡ (met || any (λ b. b) (outcomes cs ks))
  unfolding evaluate_loop outcomes check_with combine
  any-evaluate_loop [] ks met = ground arith
  any-evaluate_loop (c ∷ cs) [] met = ground arith
  any-evaluate_loop (c ∷ cs) (k ∷ ks) met = any-evaluate_loop cs ks _ ∙ or_step met _ _

  -- For a spec with conditions and a result with one check for each, the verdict is that every
  -- condition, or at least one, has the outcome true, as the match mode says, and every check is
  -- annotated with its own condition's outcome, whatever the others were.
  pub evaluate_conditions-outcomes :
      (spec : TaskSpec) (result : TaskResult F)
      → length spec.conditions ≢ 0
      → length result.checks ≡ length spec.conditions
      → ((evaluate_conditions ops one zero spec result previous).0
          ≡ verdict_of spec.match_mode (outcomes spec.conditions result.checks))
        × (mets (evaluate_conditions ops one zero spec result previous).1.checks
            ≡ outcomes spec.conditions result.checks)
  unfolding evaluate_conditions
  evaluate_conditions-outcomes spec result some_condition paired =
      let judged : (nat_eq (length spec.conditions) 0
            || not (nat_eq (length result.checks) (length spec.conditions)))
          ≡ false =
        ground (arith, some_condition, paired) in
      rw judged (
        verdict spec.match_mode,
        checks-evaluate_loop spec.match_mode spec.conditions result.checks _ paired,
      )
    where
      verdict :
          (mode : MatchMode)
          → (evaluate_loop ops one zero mode previous spec.conditions result.checks
              (starts_met mode)).0
            ≡ verdict_of mode (outcomes spec.conditions result.checks)
      verdict match_all = all-evaluate_loop spec.conditions result.checks true
      verdict match_any = any-evaluate_loop spec.conditions result.checks false
