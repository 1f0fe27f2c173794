-- ===== src/Spec/Usable.antt =====
-- What a spec that passed validation is: one that a run can judge.
use breckr.Base.{
  ◌∙◌, Text, codes, ℕ, suc, ◌≤◌, true, false, not, ◌&&◌, all, some, List, [], ◌∷◌, ok, bind-ok,
  ok_injective, guard-ok, ◌≡◌, refl, ap, sym, subst, inl, inr, ◌⊎◌, Bool-cases, arith, In, All,
  ◌==◌, Text_eq, is_empty, trim_space, trim_space-trim_space, length,
}
use breckr.Types.Task.{Condition, TaskSpec, ExtractKind, CompareOperator}
use breckr.Types.Placeholder.{find_all}
use breckr.Types.Words.{
  DraftCondition, DraftSpec, operators_by_kind, is_valueless, is_numeric_kind, is_attribute,
  max_conditions,
}
use breckr.Spec.{
  ParsedUrl, Parsers, require_string, condition_field, or_fail, validate_extract, validate_operator,
  validate_match, is_known, validate_message, validate_url, validate_count, validate_attribute,
  validate_value, validate_condition, validate_conditions, validate_spec,
}
use breckr.Spec.Checks.{
  IsGiven, require_string-IsGiven, or_fail-some, validate_operator-In, validate_count-bounds,
  validate_message-known, one_of,
}

module _ (p : Parsers) where
  -- An operator that its kind allows, with the attribute and the value that they need, and no other.
  pub record IsUsableCondition (c : Condition) : Type 0 where
    pub selects : IsGiven c.selector
    pub waits_trimmed : trim_space c.wait_for_selector ≡ c.wait_for_selector
    pub allowed : In c.operator (operators_by_kind c.extract)
    pub with_attribute : is_attribute c.extract ≡ true → IsGiven c.attribute_name
    pub no_attribute : is_attribute c.extract ≡ false → c.attribute_name ≡ []
    pub with_value : is_valueless c.operator ≡ false → IsGiven c.value
    pub numeric_value :
        is_valueless c.operator ≡ false
        → is_numeric_kind c.extract ≡ true
        → p.is_float c.value ≡ true
    pub no_value : is_valueless c.operator ≡ true → c.value ≡ []

  -- The URL is the printed form of one that parses, with a host, for the web.
  pub record IsWebUrl (url : Text) : Type 0 where
    pub source : Text
    pub parsed : ParsedUrl
    pub parses : p.parse_url source ≡ some parsed
    pub web : (parsed.scheme ≡ codes "http") ⊎ (parsed.scheme ≡ codes "https")
    pub with_host : is_empty parsed.host ≡ false
    pub printed : url ≡ parsed.printed

  pub record IsUsable (s : TaskSpec) : Type 0 where
    pub web_url : IsWebUrl s.url
    pub some_condition : 1 ≤ length s.conditions
    pub few_conditions : length s.conditions ≤ max_conditions
    pub conditions_usable : All IsUsableCondition s.conditions
    pub message_trimmed : trim_space s.message ≡ s.message
    pub message_known : all (is_known (length s.conditions)) (find_all s.message) ≡ true

  validate_attribute-ok :
      (c : DraftCondition) (k : ExtractKind) (i : ℕ) (a : Text)
      → validate_attribute p c k i ≡ ok a
      → (is_attribute k ≡ true → IsGiven a) × (is_attribute k ≡ false → a ≡ [])
  unfolding validate_attribute
  validate_attribute-ok c k i a h = elim (Bool-cases (is_attribute k)) [
    | inl e ↦ (
      λ f. (require_string-IsGiven c.attribute_name _ a (rw (validate_attribute, e) at h)).1,
      λ f. cc (e, f),
    )
    | inr e ↦ (λ f. cc (e, f), λ f. sym (ok_injective (rw (validate_attribute, e) at h)))
  ]

  validate_value-ok :
      (c : DraftCondition) (k : ExtractKind) (o : CompareOperator) (i : ℕ) (v : Text)
      → validate_value p c k o i ≡ ok v
      → (is_valueless o ≡ false → IsGiven v)
        × (is_valueless o ≡ false → is_numeric_kind k ≡ true → p.is_float v ≡ true)
        × (is_valueless o ≡ true → v ≡ [])
  unfolding validate_value
  validate_value-ok c k o i v h = elim (Bool-cases (is_valueless o)) [
    | inl e ↦
        (λ f. cc (e, f), λ f n. cc (e, f), λ f. sym (ok_injective (rw (validate_value, e) at h)))
    | inr e ↦
        let (w, q, g) =
          bind-ok (require_string c.value (condition_field i (codes "value"))) _ v
            (rw (validate_value, e) at h) in
        let (float, kept) = guard-ok (is_numeric_kind k && not (p.is_float w)) _ (ok w) v g in
        let same : w ≡ v = ok_injective kept in
        (
          λ f. subst IsGiven same (require_string-IsGiven c.value _ w q).1,
          λ f n. subst (λ x. p.is_float x ≡ true) same (ground (arith, float, n)),
          λ f. cc (e, f),
        )
  ]

  pub validate_condition-IsUsable :
      (d : DraftCondition) (i : ℕ) (c : Condition)
      → validate_condition p d i ≡ ok c
      → IsUsableCondition c
  unfolding validate_condition
  validate_condition-IsUsable d i c h =
      let (selector, q1, h1) =
        bind-ok (require_string d.selector (condition_field i (codes "selector"))) _ c h in
      let (extract, q2, h2) = bind-ok (validate_extract d.extract i) _ c h1 in
      let (operator, q3, h3) = bind-ok (validate_operator d.operator extract i) _ c h2 in
      let (attribute_name, q4, h4) = bind-ok (validate_attribute p d extract i) _ c h3 in
      let (value, q5, h5) = bind-ok (validate_value p d extract operator i) _ c h4 in
      let (needed, unneeded) = validate_attribute-ok d extract i attribute_name q4 in
      let (given, float, none_given) = validate_value-ok d extract operator i value q5 in
      subst IsUsableCondition (ok_injective h5) (record {
        selects =
            (require_string-IsGiven d.selector (condition_field i (codes "selector")) selector
              q1).1;
        waits_trimmed = trim_space-trim_space d.wait_for_selector;
        allowed = validate_operator-In d.operator extract i operator q3;
        with_attribute = needed;
        no_attribute = unneeded;
        with_value = given;
        numeric_value = float;
        no_value = none_given;
      })

  validate_conditions-All :
      (i : ℕ) (ds : List DraftCondition) (cs : List Condition)
      → validate_conditions p i ds ≡ ok cs
      → (length cs ≡ length ds) × All IsUsableCondition cs
  unfolding validate_conditions
  validate_conditions-All i [] [] h = (refl, tt)
  validate_conditions-All i [] (c ∷ cs) h = cc h
  validate_conditions-All i (d ∷ ds) cs h =
      let (c, q, h1) = bind-ok (validate_condition p d i) _ cs h in
      let (rest, q1, h2) = bind-ok (validate_conditions p (suc i) ds) _ cs h1 in
      let (same, usable) = validate_conditions-All (suc i) ds rest q1 in
      subst (λ x. (length x ≡ suc (length ds)) × All IsUsableCondition x) {x = c ∷ rest}
        (ok_injective h2) (ap suc same, (validate_condition-IsUsable d i c q, usable))

  pub validate_url-IsWebUrl :
      (raw url : Text)
      → validate_url p raw ≡ ok url
      → (w : IsWebUrl url) × (w.source ≡ trim_space raw)
  unfolding validate_url
  validate_url-IsWebUrl raw url h =
      let (v, q, h1) = bind-ok (require_string raw (codes "url")) _ url h in
      let (u, q1, h2) = bind-ok (or_fail (codes "url") (p.parse_url v)) _ url h1 in
      let (abs, h3) = guard-ok (is_empty u.scheme) _ _ url h2 in
      let (web, h4) =
        guard-ok (not (u.scheme == codes "http") && not (u.scheme == codes "https")) _ _ url h3 in
      let (host, h5) = guard-ok (is_empty u.host) _ _ url h4 in
      (
        record {
          source = v;
          parsed = u;
          parses = or_fail-some (codes "url") (p.parse_url v) u q1;
          web = one_of u.scheme (codes "http") (codes "https") web;
          with_host = host;
          printed = sym (ok_injective h5);
        },
        sym (require_string-IsGiven raw (codes "url") v q).0,
      )

  pub validate_spec-url :
      (d : DraftSpec) (s : TaskSpec)
      → validate_spec p (some d) ≡ ok s
      → validate_url p d.url ≡ ok s.url
  unfolding validate_spec
  validate_spec-url d s h =
      let (url, q1, h1) = bind-ok (validate_url p d.url) _ s h in
      let (mode, q2, h2) = bind-ok (validate_match d.match_mode) _ s h1 in
      let (_, q3, h3) = bind-ok (validate_count (length d.conditions)) _ s h2 in
      let (cs, q4, h4) = bind-ok (validate_conditions p 0 d.conditions) _ s h3 in
      let (message, q5, h5) = bind-ok (validate_message d.message (length cs)) _ s h4 in
      q1 ∙ ap (λ (x : TaskSpec). ok x.url) (ok_injective h5)

  -- A spec that passed validation has a web URL with a host, one to ten conditions, each with an
  -- operator that its kind of extraction allows and with the attribute and the value that they
  -- need and no other, and only placeholders that it has a condition for.
  pub validate_spec-IsUsable :
      (d : DraftSpec) (s : TaskSpec) → validate_spec p (some d) ≡ ok s → IsUsable s
  unfolding validate_spec
  validate_spec-IsUsable d s h =
      let (url, q1, h1) = bind-ok (validate_url p d.url) _ s h in
      let (mode, q2, h2) = bind-ok (validate_match d.match_mode) _ s h1 in
      let (_, q3, h3) = bind-ok (validate_count (length d.conditions)) _ s h2 in
      let (cs, q4, h4) = bind-ok (validate_conditions p 0 d.conditions) _ s h3 in
      let (message, q5, h5) = bind-ok (validate_message d.message (length cs)) _ s h4 in
      let (same, usable) = validate_conditions-All 0 d.conditions cs q4 in
      let (low, high) = validate_count-bounds (length d.conditions) _ q3 in
      let (trimmed, known) = validate_message-known d.message (length cs) message q5 in
      subst IsUsable (ok_injective h5) (record {
        web_url = (validate_url-IsWebUrl d.url url q1).0;
        some_condition = omega (arith, same, low);
        few_conditions = omega (arith, same, high);
        conditions_usable = usable;
        message_trimmed = trimmed;
        message_known = known;
      })
