-- ===== src/Notifier/Masked.antt =====
-- What the redacted view of server/internal/notifier/spec.go gives away of a configuration.
use breckr.Base.{
  Text, codes, ◌-◌, ◌<◌, ◌≤◌, ◌≡◌, ap, sym, false, Option, some, List, [], ◌∷◌, ◌++◌, refl, ◌∙◌,
  if-false, length-append, if-true, none, is_empty, length, leb, arith,
}
use breckr.Spec.{ParsedUrl}
use breckr.Notifier.ChannelSpec.{
  ChannelSpec, telegram_spec, discord_spec, slack_spec, webhook_spec, email_spec, WebhookSpec,
  EmailSpec, text, object, number, texts, method, host, port, from, recipients, bullets, drop, mask,
  mask_values, mask_url, redacted, redacted_telegram, redacted_discord, redacted_slack,
  redacted_webhook, redacted_email,
}

-- Two secrets that the view does not tell apart: the same, both set and of at most eight bytes, or
-- both longer with the same last four.
pub data Alike : Text → Text → Type 0 where
  same : (s : Text) → Alike s s
  short :
      (s t : Text)
      → is_empty s ≡ false
      → is_empty t ≡ false
      → length s ≤ 8
      → length t ≤ 8
      → Alike s t
  long :
      (a b end : Text) → length end ≡ 4 → 4 < length a → 4 < length b → Alike (a ++ end) (b ++ end)

drop-append : (a b : Text) → drop (length a) (a ++ b) ≡ b
unfolding drop
drop-append [] b = refl
drop-append (x ∷ a) b = drop-append a b

long_length : (a end : Text) → length end ≡ 4 → length (a ++ end) - 4 ≡ length a
long_length a end h = omega (arith, length-append a end)

mask_long : (a end : Text) → length end ≡ 4 → 4 < length a → mask (a ++ end) ≡ bullets ++ end
unfolding mask
mask_long [] end h q = absurd (omega arith)
mask_long (x ∷ a) end h q =
    if-false (leb (length (x ∷ a ++ end)) 8) _ _ (ground (arith, length-append a end, q))
    ∙ ap (λ n. bullets ++ drop n (x ∷ a ++ end)) (long_length (x ∷ a) end h)
    ∙ ap (λ t. bullets ++ t) (drop-append (x ∷ a) end)

mask_short : (s : Text) → is_empty s ≡ false → length s ≤ 8 → mask s ≡ bullets
unfolding mask
mask_short s e h = if-false (is_empty s) _ _ e ∙ if-true (leb (length s) 8) _ _ (ground (arith, h))

mask-Alike : (s t : Text) → Alike s t → mask s ≡ mask t
mask-Alike s _ (same _) = refl
mask-Alike s t (short _ _ e f h q) = mask_short s e h ∙ sym (mask_short t f q)
mask-Alike _ _ (long a b end l p q) = mask_long a end l p ∙ sym (mask_long b end l q)

-- The same headers, with values that the view does not tell apart.
pub data AlikeHeaders : List (Text × Text) → List (Text × Text) → Type 0 where
  no_header : AlikeHeaders [] []
  header :
      (name s t : Text) (h k : List (Text × Text))
      → Alike s t
      → AlikeHeaders h k
      → AlikeHeaders ((name, s) ∷ h) ((name, t) ∷ k)

mask_values-Alike : (h k : List (Text × Text)) → AlikeHeaders h k → mask_values h ≡ mask_values k
unfolding mask_values
mask_values-Alike _ _ no_header = refl
mask_values-Alike _ _ (header name s t h k a r) =
    ap (λ v. (name, v) ∷ mask_values h) (mask-Alike s t a)
    ∙ ap (λ vs. (name, mask t) ∷ vs) (mask_values-Alike h k r)

module _ (parse_url : Text → Option ParsedUrl) where
  -- Two webhook addresses with the same scheme and host, or two that do not parse and are alike.
  pub data AlikeUrls : Text → Text → Type 0 where
    same_site :
        (u v : Text) (a b : ParsedUrl)
        → parse_url u ≡ some a
        → parse_url v ≡ some b
        → a.scheme ≡ b.scheme
        → a.host ≡ b.host
        → is_empty a.host ≡ false
        → AlikeUrls u v
    no_site : (u v : Text) → parse_url u ≡ none → parse_url v ≡ none → Alike u v → AlikeUrls u v

  mask_url-Alike : (u v : Text) → AlikeUrls u v → mask_url parse_url u ≡ mask_url parse_url v
  unfolding mask_url
  mask_url-Alike u v (same_site _ _ a b p q e f h) =
      let there = ap is_empty (sym f) ∙ h in
      rw (mask_url, p, q)
        (if-false (is_empty a.host) _ _ h ∙ rw (e, f) (sym (if-false (is_empty b.host) _ _ there)))
  mask_url-Alike u v (no_site _ _ p q a) = rw (mask_url, p, q) (mask-Alike u v a)

  -- Two configurations that differ in nothing but their secrets, and in these not to the view.
  pub data Indistinct : ChannelSpec → ChannelSpec → Type 0 where
    telegrams :
        (s t chat_id : Text)
        → Alike s t
        → Indistinct
            (telegram_spec record { token = s; chat_id = chat_id })
            (telegram_spec record { token = t; chat_id = chat_id })
    discords :
        (u v : Text)
        → AlikeUrls u v
        → Indistinct
            (discord_spec record { webhook_url = u })
            (discord_spec record { webhook_url = v })
    slacks :
        (u v : Text)
        → AlikeUrls u v
        → Indistinct (slack_spec record { webhook_url = u }) (slack_spec record { webhook_url = v })
    webhooks :
        (s : WebhookSpec) (h : List (Text × Text))
        → AlikeHeaders s.headers h
        → Indistinct (webhook_spec s) (webhook_spec (record s { headers = h }))
    emails :
        (s : EmailSpec) (t : Text)
        → Alike s.app_password t
        → Indistinct (email_spec s) (email_spec (record s { app_password = t }))

  -- The redacted view does not tell apart two configurations that differ only in their secrets,
  -- where both secrets are set and have at most eight bytes, or both have more and the same last
  -- four, and, for a webhook address of Discord or Slack, where both have the same scheme and
  -- host, or neither parses and they are alike as secrets are.
  pub redacted-Indistinct :
      (a b : ChannelSpec) → Indistinct a b → redacted parse_url a ≡ redacted parse_url b
  unfolding redacted redacted_telegram redacted_discord redacted_slack redacted_webhook
      redacted_email
  redacted-Indistinct _ _ (telegrams s t c a) =
      ap (λ m. (codes "token", text m) ∷ (codes "chat_id", text c) ∷ []) (mask-Alike s t a)
  redacted-Indistinct _ _ (discords u v a) =
      ap (λ m. (codes "webhook_url", text m) ∷ []) (mask_url-Alike u v a)
  redacted-Indistinct _ _ (slacks u v a) =
      ap (λ m. (codes "webhook_url", text m) ∷ []) (mask_url-Alike u v a)
  redacted-Indistinct _ _ (webhooks s h a) =
      ap
        (λ m.
          (codes "url", text s.url)
          ∷ (codes "method", text (method s))
          ∷ (codes "headers", object m)
          ∷ [])
        (mask_values-Alike s.headers h a)
  redacted-Indistinct _ _ (emails s t a) =
      ap
        (λ m.
          (codes "host", text (host s))
          ∷ (codes "port", number (port s))
          ∷ (codes "username", text s.username)
          ∷ (codes "app_password", text m)
          ∷ (codes "from", text (from s))
          ∷ (codes "to", texts (recipients s))
          ∷ [])
        (mask-Alike s.app_password t a)
