-- ===== src/Base/Canonical.antt =====
-- Digits with no leading zero are those that their number is printed with.
use Prim.Native.Nat.{ℕ, zero, suc, ◌+◌, ◌-◌, ◌*◌, ◌/◌, ◌%◌, ◌<◌, ◌≤◌}
use mathlib.Core.Path.{◌≡◌, refl, ap, sym, subst, ◌∙◌}
use mathlib.Core.Logic.{◌⊎◌, inl, inr}
use mathlib.Core.Bool.{true, false, ◌&&◌}
use mathlib.Core.Option.{some}
use mathlib.Core.List.{[], ◌∷◌, ◌++◌}
use native.Mathlib.Omega.{arith}
use breckr.Base.Tests.{ltb, leb}
use breckr.Base.Lists.{all}
use breckr.Base.Texts.{Text}
use breckr.Base.Decimal.{digits, decimal, is_digit, digits_value, IsDigits, digits_value-append}

-- The last byte of a text, if it has one.
last_of : (s : Text) → (s ≡ []) ⊎ ((t : Text) × (d : ℕ) × (s ≡ t ++ d ∷ []))
last_of [] = inl refl
last_of (c ∷ s) = elim (last_of s) [
  | inl e ↦ inr ([], c, ap (λ u. c ∷ u) e)
  | inr (t, d, e) ↦ inr (c ∷ t, d, ap (λ u. c ∷ u) e)
]

IsDigits-init : (t : Text) (d : ℕ) → IsDigits (t ++ d ∷ []) → IsDigits t × (is_digit d ≡ true)
IsDigits-init [] d (h, _) = (tt, h)
IsDigits-init (c ∷ t) d (h, hs) = let (a, b) = IsDigits-init t d hs in ((h, a), b)

digits_value-le : (acc : ℕ) (s : Text) → acc ≤ digits_value acc s
unfolding digits_value
digits_value-le acc [] = omega arith
digits_value-le acc (c ∷ s) =
    let rest = digits_value-le (acc * 10 + (c - 48)) s in omega (arith, rest)

digits-step :
    (f v k : ℕ) (s : Text)
    → 1 ≤ v
    → k < 10
    → digits f v ≡ some s
    → digits (suc f) (v * 10 + k) ≡ some (s ++ (48 + k) ∷ [])
unfolding digits
digits-step f v k s l h e =
    let big : ltb (v * 10 + k) 10 ≡ false = ground arith in
    let front : (v * 10 + k) / 10 ≡ v = omega arith in
    let last : (v * 10 + k) % 10 ≡ k = omega arith in rw (big, front, last, e) refl

pub digits_value-positive :
    (c : ℕ) (t : Text) → leb 49 c && leb c 57 ≡ true → 1 ≤ digits_value 0 (c ∷ t)
unfolding digits_value
digits_value-positive c t h =
    let more = digits_value-le (0 * 10 + (c - 48)) t in ground (arith, more, h)

value_below : (f v k : ℕ) → 1 ≤ v → v * 10 + k < suc f → v < f
value_below f v k l h = omega (arith, l, h)

digits-longer :
    (f v c d : ℕ) (t : Text)
    → 1 ≤ v
    → is_digit d ≡ true
    → digits_value 0 (c ∷ t ++ d ∷ []) ≡ v * 10 + (d - 48)
    → digits f v ≡ some (c ∷ t)
    → digits (suc f) (digits_value 0 (c ∷ t ++ d ∷ [])) ≡ some (c ∷ t ++ d ∷ [])
digits-longer f v c d t one h grown again =
    let back : 48 + (d - 48) ≡ d = ground (arith, h) in
    ap (digits (suc f)) grown
    ∙ digits-step f v (d - 48) (c ∷ t) one (ground (arith, h)) again
    ∙ ap (λ e. some (c ∷ t ++ e ∷ [])) back

digits-canonical :
    (f c : ℕ) (s : Text)
    → leb 49 c && leb c 57 ≡ true
    → IsDigits s
    → digits_value 0 (c ∷ s) < f
    → digits f (digits_value 0 (c ∷ s)) ≡ some (c ∷ s)
unfolding digits digits_value
digits-canonical zero c s h hs l = absurd (omega arith)
digits-canonical (suc f) c s h hs l = elim (last_of s) [
  | inl e ↦
      subst (λ t. digits (suc f) (digits_value 0 (c ∷ t)) ≡ some (c ∷ t)) (sym e)
        (ground (arith, h))
  | inr (t, d, e) ↦
      let (ts, ds) = IsDigits-init t d (subst IsDigits e hs) in
      let v = digits_value 0 (c ∷ t) in
      let one : 1 ≤ v = digits_value-positive c t h in
      let grown = digits_value-append 0 (c ∷ t) d in
      let below : v < f =
        value_below f v (d - 48) one
          (subst (λ n. n < suc f) grown (subst (λ u. digits_value 0 (c ∷ u) < suc f) e l)) in
      subst (λ u. digits (suc f) (digits_value 0 (c ∷ u)) ≡ some (c ∷ u)) (sym e)
        (digits-longer f v c d t one ds grown (digits-canonical f c t h ts below))
]

pub decimal-canonical :
    (c : ℕ) (s : Text)
    → leb 49 c && leb c 57 ≡ true
    → IsDigits s
    → decimal (digits_value 0 (c ∷ s)) ≡ c ∷ s
unfolding decimal
decimal-canonical c s h hs =
    rw (digits-canonical (suc (digits_value 0 (c ∷ s))) c s h hs (omega arith), decimal) refl

pub all-IsDigits_of : (s : Text) → all is_digit s ≡ true → IsDigits s
all-IsDigits_of [] h = tt
all-IsDigits_of (c ∷ s) h = (ground arith, all-IsDigits_of s (ground (arith, h)))
