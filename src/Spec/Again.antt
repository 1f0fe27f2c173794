-- ===== src/Spec/Again.antt =====
-- A spec that was saved, sent again as it stands.
use breckr.Base.{
  Text, codes, ℕ, suc, ◌≤◌, Bool, true, false, not, ◌&&◌, all, find, if◌then◌else◌, Option, some,
  List, [], ◌∷◌, map, ok, err, ◌≡◌, ◌∙◌, refl, ap, sym, subst, inl, inr, ◌⊎◌, Bool-cases, arith, In,
  All, ◌==◌, Text_eq, text_beq, text_beq_iff, ==_refl, is_empty, trim_space, length, length-map,
}
use breckr.Types.Task.{
  Condition, TaskSpec, MatchMode, match_all, match_any, ExtractKind, text, number, attribute, count,
  exists, CompareOperator, lt, lte, gt, gte, eq, neq, contains, not_contains, is_true, is_false,
  changed,
}
use breckr.Types.Words.{
  DraftCondition, DraftSpec, operator_text, operators_by_kind, is_valueless, is_numeric_kind,
  is_attribute, match_text, max_conditions,
}
use breckr.Types.Placeholder.{find_all}
use breckr.Executor.{kind_text}
use breckr.Spec.{
  ParsedUrl, Parsers, require_string, condition_field, validate_extract, validate_operator,
  validate_match, is_known, validate_message, validate_url, validate_count, validate_attribute,
  validate_value, validate_condition, validate_conditions, validate_spec,
}
use breckr.Spec.Checks.{IsGiven}
use breckr.Spec.Usable.{
  IsUsableCondition, IsWebUrl, validate_spec-IsUsable, validate_spec-url, validate_url-IsWebUrl,
}

-- The spec as the dashboard sends it back.
abbrev pub draft_condition : Condition → DraftCondition
draft_condition c = record {
  selector = c.selector;
  wait_for_selector = c.wait_for_selector;
  extract = kind_text c.extract;
  attribute_name = c.attribute_name;
  operator = operator_text c.operator;
  value = c.value;
}

abbrev pub draft_of : TaskSpec → DraftSpec
draft_of s = record {
  url = s.url;
  match_mode = match_text s.match_mode;
  conditions = map draft_condition s.conditions;
  message = s.message;
}

IsGiven-require_string : (s field : Text) → IsGiven s → require_string s field ≡ ok s
unfolding require_string
IsGiven-require_string s field g = rw (g.trimmed, g.some_byte) refl

validate_extract-kind_text : (k : ExtractKind) (i : ℕ) → validate_extract (kind_text k) i ≡ ok k
unfolding validate_extract find text_beq
validate_extract-kind_text text i = refl
validate_extract-kind_text number i = refl
validate_extract-kind_text attribute i = refl
validate_extract-kind_text count i = refl
validate_extract-kind_text exists i = refl

find_unique :
    {A : Type 0} (q : A → Bool) (xs : List A) (a : A)
    → In a xs
    → q a ≡ true
    → ((x : A) → q x ≡ true → x ≡ a)
    → find q xs ≡ some a
unfolding find
find_unique q [] a i h u = absurd i
find_unique q (x ∷ xs) a i h u = elim (Bool-cases (q x)) [
  | inl e ↦ rw e (ap some (u x e))
  | inr e ↦ elim i [ inl z ↦ cc (h, e, ap q z) | inr j ↦ rw e (find_unique q xs a j h u) ]
]

all_operators : List CompareOperator
all_operators =
    lt ∷ lte ∷ gt ∷ gte ∷ eq ∷ neq ∷ contains ∷ not_contains ∷ is_true ∷ is_false ∷ changed ∷ []

operator_named : Text → Option CompareOperator
operator_named raw = find (λ o. operator_text o == raw) all_operators

operator_named-operator_text : (o : CompareOperator) → operator_named (operator_text o) ≡ some o
unfolding operator_named all_operators find operator_text text_beq
operator_named-operator_text lt = refl
operator_named-operator_text lte = refl
operator_named-operator_text gt = refl
operator_named-operator_text gte = refl
operator_named-operator_text eq = refl
operator_named-operator_text neq = refl
operator_named-operator_text contains = refl
operator_named-operator_text not_contains = refl
operator_named-operator_text is_true = refl
operator_named-operator_text is_false = refl
operator_named-operator_text changed = refl

validate_operator-operator_text :
    (o : CompareOperator) (k : ExtractKind) (i : ℕ)
    → In o (operators_by_kind k)
    → validate_operator (operator_text o) k i ≡ ok o
unfolding validate_operator
validate_operator-operator_text o k i h =
    rw
      (find_unique (λ x. operator_text x == operator_text o) (operators_by_kind k) o h
        (==_refl (operator_text o)) same)
      refl
  where
    same : (x : CompareOperator) → (operator_text x == operator_text o) ≡ true → x ≡ o
    same x e = cc (
      operator_named-operator_text x,
      operator_named-operator_text o,
      ap operator_named ((text_beq_iff (operator_text x) (operator_text o)).0 e),
    )

validate_match-match_text : (m : MatchMode) → validate_match (match_text m) ≡ ok m
unfolding validate_match find match_text text_beq trim_space
validate_match-match_text match_all = refl
validate_match-match_text match_any = refl

validate_count-again : (n : ℕ) → 1 ≤ n → n ≤ max_conditions → validate_count n ≡ ok n
unfolding validate_count
validate_count-again n l h = ground (arith, l, h)

validate_message-again :
    (m : Text) (n : ℕ)
    → trim_space m ≡ m
    → all (is_known n) (find_all m) ≡ true
    → validate_message m n ≡ ok m
unfolding validate_message
validate_message-again [] n t k = refl
validate_message-again (c ∷ m) n t k = rw (t, k) refl

-- What `net/url` is relied on for, of one text: if it parses, the URL prints without space round it,
-- and the print parses as a URL of the same scheme and host that prints the same.
pub record Reprints (p : Parsers) (v : Text) : Type 0 where
  pub printed_given : (u : ParsedUrl) → p.parse_url v ≡ some u → IsGiven u.printed
  pub reparses :
      (u : ParsedUrl)
      → p.parse_url v ≡ some u
      → (w : ParsedUrl) × (p.parse_url u.printed ≡ some w)
        × (w.scheme ≡ u.scheme)
        × (w.host ≡ u.host)
        × (w.printed ≡ u.printed)

module _ (p : Parsers) where
  validate_attribute-draft :
      (c : Condition) (i : ℕ)
      → IsUsableCondition p c
      → validate_attribute p (draft_condition c) c.extract i ≡ ok c.attribute_name
  unfolding validate_attribute
  validate_attribute-draft c i u = elim (Bool-cases (is_attribute c.extract)) [
    | inl e ↦ rw e (IsGiven-require_string c.attribute_name _ (u.with_attribute e))
    | inr e ↦ rw e (ap ok (sym (u.no_attribute e)))
  ]

  validate_value-draft :
      (c : Condition) (i : ℕ)
      → IsUsableCondition p c
      → validate_value p (draft_condition c) c.extract c.operator i ≡ ok c.value
  unfolding validate_value
  validate_value-draft c i u = elim (Bool-cases (is_valueless c.operator)) [
    | inl e ↦ rw e (ap ok (sym (u.no_value e)))
    | inr e ↦
        rw (e, IsGiven-require_string c.value (condition_field i (codes "value")) (u.with_value e))
          (number e)
  ]
    where
      number :
          is_valueless c.operator ≡ false
          → (if is_numeric_kind c.extract && not (p.is_float c.value)
              then err (condition_field i (codes "value"))
              else ok c.value)
            ≡ ok c.value
      number e = elim (Bool-cases (is_numeric_kind c.extract)) [
        | inl f ↦ rw (f, u.numeric_value e f) refl
        | inr f ↦ rw f refl
      ]

  validate_condition-draft :
      (c : Condition) (i : ℕ)
      → IsUsableCondition p c
      → validate_condition p (draft_condition c) i ≡ ok c
  unfolding validate_condition
  validate_condition-draft c i u =
      rw
        (
          IsGiven-require_string c.selector (condition_field i (codes "selector")) u.selects,
          validate_extract-kind_text c.extract i,
          validate_operator-operator_text c.operator c.extract i u.allowed,
          validate_attribute-draft c i u,
          validate_value-draft c i u,
          u.waits_trimmed,
        )
        refl

  validate_conditions-draft :
      (cs : List Condition) (i : ℕ)
      → All (IsUsableCondition p) cs
      → validate_conditions p i (map draft_condition cs) ≡ ok cs
  unfolding validate_conditions
  validate_conditions-draft [] i h = refl
  validate_conditions-draft (c ∷ cs) i (u, h) =
      rw (validate_condition-draft c i u, validate_conditions-draft cs (suc i) h) refl

  validate_url-parsed :
      (url : Text) (u : ParsedUrl)
      → IsGiven url
      → p.parse_url url ≡ some u
      → (u.scheme ≡ codes "http") ⊎ (u.scheme ≡ codes "https")
      → is_empty u.host ≡ false
      → validate_url p url ≡ ok u.printed
  unfolding validate_url text_beq
  validate_url-parsed url u g e web h =
      rw (IsGiven-require_string url (codes "url") g, e)
        (elim web [ inl q ↦ rw (q, h) refl | inr q ↦ rw (q, h) refl ])

  validate_url-again :
      (url : Text) (w : IsWebUrl p url) → Reprints p w.source → validate_url p url ≡ ok url
  validate_url-again url w laws =
      let (u, e, scheme, host, printed) = laws.reparses w.parsed w.parses in
      subst (λ x. validate_url p x ≡ ok x) (sym w.printed)
        (validate_url-parsed w.parsed.printed u (laws.printed_given w.parsed w.parses) e
            (subst (λ x. (x ≡ codes "http") ⊎ (x ≡ codes "https")) (sym scheme) w.web)
            (ap is_empty host ∙ w.with_host)
          ∙ ap ok printed)

  -- If the URL that the draft's text parses to, space round it removed, prints without space
  -- round it and its print parses to the same scheme, host and print, then a spec that passed
  -- validation, sent again as it is stored, passes and gives itself.
  pub validate_spec-draft_of :
      (d : DraftSpec) (s : TaskSpec)
      → Reprints p (trim_space d.url)
      → validate_spec p (some d) ≡ ok s
      → validate_spec p (some (draft_of s)) ≡ ok s
  unfolding validate_spec
  validate_spec-draft_of d s laws h =
      let u = validate_spec-IsUsable p d s h in
      let (w, trimmed) = validate_url-IsWebUrl p d.url s.url (validate_spec-url p d s h) in
      rw
        (
          validate_url-again s.url w (subst (Reprints p) (sym trimmed) laws),
          validate_match-match_text s.match_mode,
          length-map draft_condition s.conditions,
          validate_count-again (length s.conditions) u.some_condition u.few_conditions,
          validate_conditions-draft s.conditions 0 u.conditions_usable,
          validate_message-again s.message (length s.conditions) u.message_trimmed u.message_known,
        )
        refl
