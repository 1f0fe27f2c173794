-- ===== src/Spec/Checks.antt =====
-- What the single checks of spec.go have made sure of when they pass.
use breckr.Base.{
  Text, codes, ℕ, ◌≤◌, Bool, true, false, not, ◌&&◌, ◌||◌, all, find, Option, none, some, List, [],
  ◌∷◌, ok, ok_injective, guard-ok, ◌≡◌, refl, subst, inl, inr, ◌⊎◌, Bool-cases, arith, In, ◌==◌,
  Text_eq, nat_eq, text_beq_iff, ltb, is_empty, trim_space, trim_space-trim_space,
}
use breckr.Types.Task.{ExtractKind, CompareOperator}
use breckr.Types.Placeholder.{find_all}
use breckr.Types.Words.{operator_text, operators_by_kind, max_conditions}
use breckr.Spec.{
  require_string, condition_field, or_fail, validate_operator, is_known, validate_message,
  validate_count,
}

-- A text that is there, with no space round it.
pub record IsGiven (s : Text) : Type 0 where
  pub trimmed : trim_space s ≡ s
  pub some_byte : is_empty s ≡ false

pub require_string-IsGiven :
    (raw field s : Text) → require_string raw field ≡ ok s → (trim_space raw ≡ s) × IsGiven s
unfolding require_string
require_string-IsGiven raw field s h = elim (Bool-cases (is_empty (trim_space raw))) [
  | inl e ↦ cc (rw (require_string, e) at h)
  | inr e ↦
      let same : trim_space raw ≡ s = ok_injective (rw (require_string, e) at h) in
      (same, subst IsGiven same (record { trimmed = trim_space-trim_space raw; some_byte = e }))
]

pub find-In : {A : Type 0} (q : A → Bool) (xs : List A) (a : A) → find q xs ≡ some a → In a xs
unfolding find
find-In q [] a h = cc h
find-In q (x ∷ xs) a h = elim (Bool-cases (q x)) [
  | inl e ↦ inl (cc (rw (find, e) at h))
  | inr e ↦ inr (find-In q xs a (rw (find, e) at h))
]

pub or_fail-some :
    {A : Type 0} (field : Text) (o : Option A) (a : A) → or_fail field o ≡ ok a → o ≡ some a
or_fail-some field none a h = cc h
or_fail-some field (some b) a h = cc h

pub validate_operator-In :
    (raw : Text) (k : ExtractKind) (i : ℕ) (o : CompareOperator)
    → validate_operator raw k i ≡ ok o
    → In o (operators_by_kind k)
unfolding validate_operator
validate_operator-In raw k i o h =
    find-In (λ x. operator_text x == raw) (operators_by_kind k) o
      (or_fail-some (condition_field i (codes "operator")) _ o h)

pub validate_count-bounds : (n m : ℕ) → validate_count n ≡ ok m → (1 ≤ n) × (n ≤ max_conditions)
unfolding validate_count
validate_count-bounds n m h =
    let (fits, _) = guard-ok (nat_eq n 0 || ltb max_conditions n) _ (ok n) m h in
    (ground (arith, fits), ground (arith, fits))

pub validate_message-known :
    (raw : Text) (n : ℕ) (m : Text)
    → validate_message raw n ≡ ok m
    → (trim_space m ≡ m) × (all (is_known n) (find_all m) ≡ true)
unfolding validate_message
validate_message-known raw n m h = elim (Bool-cases (is_empty (trim_space raw))) [
  | inl e ↦
      subst (λ x. (trim_space x ≡ x) × (all (is_known n) (find_all x) ≡ true))
        (ok_injective (rw (validate_message, e) at h)) (refl, refl)
  | inr e ↦ elim (Bool-cases (all (is_known n) (find_all (trim_space raw)))) [
    | inl f ↦
        subst (λ x. (trim_space x ≡ x) × (all (is_known n) (find_all x) ≡ true))
          (ok_injective (rw (validate_message, e, f) at h)) (trim_space-trim_space raw, f)
    | inr f ↦ cc (rw (validate_message, e, f) at h)
  ]
]

pub one_of : (s a b : Text) → (not (s == a) && not (s == b)) ≡ false → (s ≡ a) ⊎ (s ≡ b)
one_of s a b h = elim (Bool-cases (s == a)) [
  | inl e ↦ inl ((text_beq_iff s a).0 e)
  | inr e ↦ inr ((text_beq_iff s b).0 (ground (arith, h, e)))
]
