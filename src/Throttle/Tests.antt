-- ===== src/Throttle/Tests.antt =====
-- Logins from two addresses.
use breckr.Base.{codes, some, List, [], ◌∷◌, ◌≡◌, refl, arith, lookup, put, delete, text_beq}
use breckr.Throttle.{Failures, Call, fails, run, allow}
use breckr.Throttle.Bounds.{IsValid, run-IsValid}
use breckr.Throttle.Window.{history, verdict, last_instant, run-allow}

-- The range visits the entries as they stand.
abbrev as_is : Failures → Failures
as_is m = m

abbrev calls : List Call
calls =
    fails (codes "a") 0
    ∷ fails (codes "b") 10
    ∷ fails (codes "a") 20
    ∷ fails (codes "a") 30
    ∷ fails (codes "a") 40
    ∷ fails (codes "a") 50
    ∷ []

abbrev left : Failures
left = (codes "a", 0 ∷ 20 ∷ 30 ∷ 40 ∷ 50 ∷ []) ∷ (codes "b", 10 ∷ []) ∷ []

run-IsValid_example : (m : Failures) × (run as_is calls [] ≡ some m) × IsValid m
run-IsValid_example = run-IsValid as_is (λ m x. (λ i. i, λ i. i)) calls

run-allow_example : (allow (codes "a") 60 left).1 ≡ some 900000
unfolding run last_instant history verdict lookup delete put text_beq
run-allow_example =
    run-allow as_is (codes "a") calls 60 left
      (
        omega arith,
        omega arith,
        (
          omega arith,
          omega arith,
          (
            omega arith,
            omega arith,
            (omega arith, omega arith, (omega arith, omega arith, (omega arith, omega arith, tt))),
          ),
        ),
      )
      refl (omega arith)
