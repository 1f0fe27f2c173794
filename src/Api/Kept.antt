-- ===== src/Api/Kept.antt =====
-- What an edit of server/internal/api/channel_handler.go leaves of a configuration.
use breckr.Base.{
  nat_eq_iff, ◌≢◌, subst, on_if, leb, length, ok, Text, codes, ◌≡◌, ap, sym, ◌∙◌, refl, Bool, true,
  false, Bool-cases, inl, inr, ◌==◌, Text_eq, if◌then◌else◌, trim_space, ◌⊎◌, text_beq,
  Option-cases, not, ◌&&◌, text_beq_iff, Option, none, some, List, [], ◌∷◌, ◌++◌, is_empty, lookup,
  put, lookup-put, arith,
}
use breckr.Executor.{has_prefix}
use breckr.Spec.{ParsedUrl}
use breckr.Notifier.ChannelSpec.{
  bullets, number, texts, object, other, ChannelSpec, TelegramSpec, telegram_spec, mask,
  redacted_telegram, ConfigValue, text, discord_spec, mask_url, redacted, redacted_discord,
  validate, validate_discord, validate_webhook_url,
}
use breckr.Store.Database.{StoredChannel}
use breckr.Api.Merge.{
  Codec, parse_and_validate, merge_config, merge_decoded, stored_fields, is_untouched, merge_fields,
}

-- No key stands twice, as in a Go map.
abbrev pub DistinctKeys : List (Text × ConfigValue) → Type 0
DistinctKeys [] = Unit
DistinctKeys ((key, _) ∷ m) = (lookup key m ≡ none) × DistinctKeys m

-- The value of a key after the loop: the submitted one, unless there is none or it is untouched.
abbrev edited : Option ConfigValue → Option ConfigValue → Option ConfigValue
edited none old = old
edited (some v) old = if is_untouched v then old else some v

-- One pair of the loop.
lookup-merge_fields_step :
    (k key : Text) (v : ConfigValue) (stored : List (Text × ConfigValue))
    → lookup key (if is_untouched v then stored else put k v stored)
      ≡ (if k == key then edited (some v) (lookup key stored) else lookup key stored)
lookup-merge_fields_step k key v stored = elim (Bool-cases (is_untouched v)) [
  | inl u ↦ rw u (ground arith)
  | inr u ↦ rw u (lookup-put k key v stored)
]

edited_if :
    (b : Bool) (v : ConfigValue) (x old : Option ConfigValue)
    → (b ≡ true → x ≡ none)
    → edited x (if b then edited (some v) old else old) ≡ edited (if b then some v else x) old
edited_if true v x old h = rw (h refl) refl
edited_if false v x old h = refl

lookup-edited :
    (key : Text) (stored submitted : List (Text × ConfigValue))
    → DistinctKeys submitted
    → lookup key (merge_fields stored submitted) ≡ edited (lookup key submitted) (lookup key stored)
unfolding lookup merge_fields
lookup-edited key stored [] d = refl
lookup-edited key stored ((k, v) ∷ m) (d, ds) =
    lookup-edited key (if is_untouched v then stored else put k v stored) m ds
    ∙ ap (edited (lookup key m)) (lookup-merge_fields_step k key v stored)
    ∙ edited_if (k == key) v (lookup key m) (lookup key stored)
        (λ e. ap (λ j. lookup j m) (sym ((text_beq_iff k key).0 e)) ∙ d)

-- What an edit makes of a field, from the submitted value and the stored one: a field that is left
-- out, blank or starts with four bullets is kept, and any other replaces it.
pub data Edits : Option ConfigValue → Option ConfigValue → Option ConfigValue → Type 0 where
  left_out : (old : Option ConfigValue) → Edits none old old
  blank : (old : Option ConfigValue) → Edits (some (text [])) old old
  masked : (rest : Text) (old : Option ConfigValue) → Edits (some (text (bullets ++ rest))) old old
  replaced :
      (v : ConfigValue) (old : Option ConfigValue)
      → v ≢ text []
      → ((rest : Text) → v ≢ text (bullets ++ rest))
      → Edits (some v) old (some v)

has_prefix-append : (p rest : Text) → has_prefix (p ++ rest) p ≡ true
unfolding has_prefix
has_prefix-append [] rest = ground arith
has_prefix-append (c ∷ p) rest = ground (arith, has_prefix-append p rest)

has_prefix-rest : (s p : Text) → has_prefix s p ≡ true → (rest : Text) × (s ≡ p ++ rest)
unfolding has_prefix
has_prefix-rest s [] h = (s, refl)
has_prefix-rest [] (c ∷ p) h = cc h
has_prefix-rest (b ∷ s) (c ∷ p) h =
    let first : b ≡ c = (nat_eq_iff b c).0 (ground (arith, h)) in
    let (rest, e) = has_prefix-rest s p (ground (arith, h)) in (rest, rw first (ap (λ t. c ∷ t) e))

is_untouched-Edits :
    (v : ConfigValue) (old : Option ConfigValue)
    → Edits (some v) old (if is_untouched v then old else some v)
unfolding is_untouched
is_untouched-Edits (text []) old = blank old
is_untouched-Edits (text (c ∷ t)) old = elim (Bool-cases (has_prefix (c ∷ t) bullets)) [
  | inl e ↦
      let (rest, same) = has_prefix-rest (c ∷ t) bullets e in
      rw e (subst (λ s. Edits (some (text s)) old old) (sym same) (masked rest old))
  | inr e ↦ rw e (
      replaced (text (c ∷ t)) old (λ q. cc q) (λ rest q. cc (e, has_prefix-append bullets rest, q)))
]
is_untouched-Edits (number n) old = replaced (number n) old (λ q. cc q) (λ rest q. cc q)
is_untouched-Edits (texts ts) old = replaced (texts ts) old (λ q. cc q) (λ rest q. cc q)
is_untouched-Edits (object m) old = replaced (object m) old (λ q. cc q) (λ rest q. cc q)
is_untouched-Edits (other t) old = replaced (other t) old (λ q. cc q) (λ rest q. cc q)

-- When no field is submitted twice, a field of the merged configuration has the stored value if
-- it was left out, submitted blank or submitted with four bullets in front, and the submitted
-- value otherwise, whatever the order in which the fields are merged.
pub lookup-merge_fields :
    (key : Text) (stored submitted : List (Text × ConfigValue))
    → DistinctKeys submitted
    → Edits (lookup key submitted) (lookup key stored) (lookup key (merge_fields stored submitted))
lookup-merge_fields key stored submitted d =
    subst (Edits (lookup key submitted) (lookup key stored))
      (sym (lookup-edited key stored submitted d)) (go (lookup key submitted))
  where
    go : (x : Option ConfigValue) → Edits x (lookup key stored) (edited x (lookup key stored))
    go none = left_out _
    go (some v) = is_untouched-Edits v _

starts_http : (t : Text) → is_untouched (text (codes "http" ++ t)) ≡ false
unfolding is_untouched
starts_http t = refl

no_refusal :
    (field : Text) (blank http https bare : Bool)
    → (if blank
        then some field
        else if not http && not https
        then some field
        else if bare
        then some field
        else none)
      ≡ none
    → ((http ≡ true) ⊎ (https ≡ true)) × (bare ≡ false)
no_refusal field true http https bare h = absurd (ground (arith, h))
no_refusal field false true https false h = (inl refl, refl)
no_refusal field false false true false h = (inr refl, refl)
no_refusal field false true https true h = absurd (ground (arith, h))
no_refusal field false false true true h = absurd (ground (arith, h))
no_refusal field false false false bare h = absurd (ground (arith, h))

-- What `validateWebhookURL` asks of a URL that parses.
accepted_site :
    (field url : Text) (u : ParsedUrl)
    → (if is_empty (trim_space url)
        then some field
        else if not (u.scheme == codes "http") && not (u.scheme == codes "https")
        then some field
        else if is_empty u.host
        then some field
        else none)
      ≡ none
    → ((u.scheme ≡ codes "http") ⊎ (u.scheme ≡ codes "https")) × (is_empty u.host ≡ false)
accepted_site field url u h =
    let (named, there) = no_refusal field _ _ _ _ h in
    (
      elim named [
        | inl q ↦ inl ((text_beq_iff u.scheme _).0 q)
        | inr q ↦ inr ((text_beq_iff u.scheme _).0 q)
      ],
      there,
    )

module _ (parse_url : Text → Option ParsedUrl) where
  -- The URL that the view shows in place of a webhook's.
  mask_url_touched :
      (field url : Text)
      → validate_webhook_url parse_url field url ≡ none
      → is_untouched (text (mask_url parse_url url)) ≡ false
  unfolding validate_webhook_url mask_url
  mask_url_touched field url h = elim (Option-cases (parse_url url)) [
    | inl e ↦ absurd (ground (arith, rw (validate_webhook_url, e) at h))
    | inr (u, e) ↦
        let (scheme, named) = accepted_site field url u (rw (validate_webhook_url, e) at h) in
        rw (mask_url, e)
          (rw named (elim scheme [ inl q ↦ rw q (starts_http _) | inr q ↦ rw q (starts_http _) ]))
  ]

  -- Merging the redacted view of a valid Discord configuration into the stored configuration
  -- replaces the webhook URL by its masked form.
  pub redacted_discord_lost :
      (is_address : Text → Bool) (url : Text)
      → validate parse_url is_address (discord_spec record { webhook_url = url }) ≡ none
      → merge_fields
          ((codes "webhook_url", text url) ∷ [])
          (redacted parse_url (discord_spec record { webhook_url = url }))
        ≡ (codes "webhook_url", text (mask_url parse_url url)) ∷ []
  unfolding merge_fields redacted redacted_discord validate validate_discord put text_beq
  redacted_discord_lost is_address url h =
      rw (mask_url_touched (codes "config.webhook_url") url h) refl

-- The fields of a Telegram channel, as they are stored.
abbrev pub telegram_fields : TelegramSpec → List (Text × ConfigValue)
telegram_fields s = (codes "token", text s.token) ∷ (codes "chat_id", text s.chat_id) ∷ []

mask_untouched : (s : Text) → is_untouched (text (mask s)) ≡ true
unfolding mask is_untouched
mask_untouched [] = refl
mask_untouched (x ∷ s) =
    on_if (λ t. is_untouched (text t) ≡ true) (leb (length (x ∷ s)) 8) _ _ refl refl

merge_fields-redacted :
    (parse_url : Text → Option ParsedUrl) (s : TelegramSpec)
    → merge_fields (telegram_fields s) (redacted parse_url (telegram_spec s)) ≡ telegram_fields s
unfolding merge_fields redacted redacted_telegram put text_beq
merge_fields-redacted parse_url s =
    rw (mask_untouched s.token)
      (on_if (λ m. m ≡ telegram_fields s) (is_untouched (text s.chat_id)) _ _ refl refl)

module _ (c : Codec) where
  merge_decoded_ok :
      (existing : StoredChannel) (stored submitted : List (Text × ConfigValue)) (merged : Text)
      (spec : ChannelSpec)
      → c.encode (merge_fields stored submitted) ≡ ok merged
      → parse_and_validate c existing.type merged ≡ ok spec
      → merge_decoded c existing stored submitted ≡ ok merged
  unfolding merge_decoded
  merge_decoded_ok existing stored submitted merged spec e v = rw (merge_decoded, e, v) refl

  -- A readable Telegram channel whose redacted view is sent back as it was shown keeps its token
  -- and its chat: mergeConfig gives what its stored fields encode to, if that passes validation.
  pub merge_config-redacted :
      (existing : StoredChannel) (s : TelegramSpec) (incoming raw merged : Text)
      (spec : ChannelSpec)
      → existing.broken ≡ false
      → existing.config ≡ some raw
      → c.decode raw ≡ some (telegram_fields s)
      → c.decode incoming ≡ some (redacted c.parse_url (telegram_spec s))
      → c.encode (telegram_fields s) ≡ ok merged
      → parse_and_validate c existing.type merged ≡ ok spec
      → merge_config c existing incoming ≡ ok merged
  unfolding merge_config stored_fields
  merge_config-redacted existing s incoming raw merged spec b k d i e v =
      rw (merge_config, i, b, k, d)
        (merge_decoded_ok existing (telegram_fields s) (redacted c.parse_url (telegram_spec s))
          merged spec (ap c.encode (merge_fields-redacted c.parse_url s) ∙ e) v)
