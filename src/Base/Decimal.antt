-- ===== src/Base/Decimal.antt =====
-- `strconv.Itoa` on a number that is not negative, and `strconv.Atoi` on digits.
use Prim.Native.Nat.{ℕ, zero, suc, ◌+◌, ◌-◌, ◌*◌, ◌/◌, ◌%◌, ◌^◌, ◌<◌, ◌≤◌}
use mathlib.Core.Path.{◌≡◌, refl, ◌∙◌}
use mathlib.Core.Logic.{inl, inr}
use mathlib.Core.Bool.{Bool, true, false, ◌&&◌, not}
use mathlib.Core.Option
use mathlib.Core.Option.{Option, none, some}
use mathlib.Core.List.{[], ◌∷◌, ◌++◌}
use native.Mathlib.Omega.{arith}
use breckr.Base.Tests.{ltb, leb, if◌then◌else◌, Bool-cases}
use breckr.Base.Lists.{all, All, All-append}
use breckr.Base.Texts.{Text, is_empty}

-- The digits of a number, while the fuel lasts.
unfoldable pub digits : ℕ → ℕ → Option Text
digits zero n = none
digits (suc f) n =
    let rest = Option.map (λ (s : Text). s ++ (48 + n % 10) ∷ []) (digits f (n / 10)) in
    if ltb n 10 then some ((48 + n) ∷ []) else rest

unfoldable pub decimal : ℕ → Text
unfolding digits
decimal n = elim (digits (suc n) n) [ none ↦ [] | some s ↦ s ]

abbrev pub is_digit : ℕ → Bool
is_digit c = leb 48 c && leb c 57

-- The value of digits, after those that gave this one.
unfoldable pub digits_value : ℕ → Text → ℕ
digits_value acc [] = acc
digits_value acc (c ∷ s) = digits_value (acc * 10 + (c - 48)) s

abbrev pub max_int : ℕ
max_int = 2 ^ 63 - 1

-- `plainInt`: digits only, whose value is an int.
unfoldable pub plain_int : Text → Option ℕ
unfolding digits_value
plain_int s =
    if not (is_empty s) && all is_digit s && leb (digits_value 0 s) max_int
    then some (digits_value 0 s)
    else none

pub digits_value-append :
    (acc : ℕ) (s : Text) (c : ℕ)
    → digits_value acc (s ++ c ∷ []) ≡ digits_value acc s * 10 + (c - 48)
unfolding digits_value
digits_value-append acc [] c = refl
digits_value-append acc (d ∷ s) c = digits_value-append (acc * 10 + (d - 48)) s c

abbrev pub IsDigits : Text → Type 0
IsDigits s = All (λ c. is_digit c ≡ true) s

-- What the digits of a number are.
pub record Prints (n : ℕ) (s : Text) : Type 0 where
  pub some_digit : is_empty s ≡ false
  pub only_digits : IsDigits s
  pub printed_value : digits_value 0 s ≡ n

-- With more fuel than the number, the digits are found, and are the number's.
pub digits-Prints : (f n : ℕ) → n < f → (s : Text) × (digits f n ≡ some s) × Prints n s
unfolding digits digits_value
digits-Prints zero n h = absurd (omega arith)
digits-Prints (suc f) n h = elim (Bool-cases (ltb n 10)) [
  | inl e ↦ rw e (
    (48 + n) ∷ [],
    refl,
    record { some_digit = refl; only_digits = (ground arith, tt); printed_value = omega arith },
  )
  | inr e ↦
      let (s, q, p) = digits-Prints f (n / 10) (ground arith) in
      rw e (
        s ++ (48 + n % 10) ∷ [],
        rw q refl,
        record {
          some_digit = longer s;
          only_digits = All-append _ s _ p.only_digits (ground arith, tt);
          printed_value = digits_value-append 0 s (48 + n % 10) ∙ omega (arith, p.printed_value);
        },
      )
]
  where
    longer : (s : Text) → is_empty (s ++ (48 + n % 10) ∷ []) ≡ false
    longer [] = refl
    longer (c ∷ s) = refl

pub decimal-Prints : (n : ℕ) → Prints n (decimal n)
unfolding decimal
decimal-Prints n = let (s, q, p) = digits-Prints (suc n) n (omega arith) in rw (q, decimal) p

all-IsDigits : (s : Text) → IsDigits s → all is_digit s ≡ true
all-IsDigits [] h = refl
all-IsDigits (c ∷ s) (h, hs) = rw h (all-IsDigits s hs)

-- What is printed is read back.
pub plain_int-decimal : (n : ℕ) → n ≤ max_int → plain_int (decimal n) ≡ some n
unfolding plain_int
plain_int-decimal n h =
    let p = decimal-Prints n in
    ground (arith, p.some_digit, all-IsDigits (decimal n) p.only_digits, p.printed_value)
