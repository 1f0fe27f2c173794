-- ===== src/Notifier/ChannelSpec.antt =====
-- server/internal/notifier/spec.go: the configuration of a channel, by its type, how it is checked,
-- and the view of it that the API hands back. A Go map is a list of pairs; `url.Parse` and whether
-- `mail.ParseAddress` takes a text are parameters, and upper case is that of ASCII.
use breckr.Base.{
  Text, codes, ℕ, zero, suc, nat_eq, ◌-◌, Bool, false, not, if◌then◌else◌, Option, none, some, List,
  [], ◌∷◌, ◌++◌, map, ℤ, pos, negsuc, is_pos, is_empty, trim_space, length, keep, any, all, leb,
  ◌==◌, Text_eq, ◌&&◌,
}
use breckr.Spec.{ParsedUrl}

-- A decoded JSON value. No configuration has a value of the last kind.
pub data ConfigValue : Type 0 where
  text : Text → ConfigValue
  number : ℤ → ConfigValue
  texts : List Text → ConfigValue
  object : List (Text × Text) → ConfigValue
  other : Text → ConfigValue

-- Four bullets, in UTF-8.
abbrev pub bullets : Text
bullets = let bullet = λ (s : Text). 226 ∷ 128 ∷ 162 ∷ s in bullet (bullet (bullet (bullet [])))

-- `s[n:]`, for n within s.
unfoldable pub drop : ℕ → Text → Text
drop zero s = s
drop (suc n) [] = []
drop (suc n) (_ ∷ s) = drop n s

unfoldable pub mask : Text → Text
unfolding drop
mask secret =
    if is_empty secret
    then []
    else if leb (length secret) 8
    then bullets
    else bullets ++ drop (length secret - 4) secret

pub record TelegramSpec : Type 0 where
  pub token : Text
  pub chat_id : Text

pub record DiscordSpec : Type 0 where
  pub webhook_url : Text

pub record SlackSpec : Type 0 where
  pub webhook_url : Text

pub record WebhookSpec : Type 0 where
  pub url : Text
  pub method : Text
  pub headers : List (Text × Text)

pub record EmailSpec : Type 0 where
  pub host : Text
  pub port : ℤ
  pub username : Text
  pub app_password : Text
  pub from : Text
  pub to : List Text

pub data ChannelSpec : Type 0 where
  telegram_spec : TelegramSpec → ChannelSpec
  discord_spec : DiscordSpec → ChannelSpec
  slack_spec : SlackSpec → ChannelSpec
  webhook_spec : WebhookSpec → ChannelSpec
  email_spec : EmailSpec → ChannelSpec

abbrev pub upper : ℕ → ℕ
upper b = if leb 97 b && leb b 122 then b - 32 else b

-- `method` of a webhook.
unfoldable pub method : WebhookSpec → Text
method s = if is_empty s.method then codes "POST" else map upper s.method

unfoldable pub host : EmailSpec → Text
host s = if is_empty s.host then codes "smtp.gmail.com" else s.host

unfoldable pub port : EmailSpec → ℤ
port s = if is_pos 0 s.port then pos 587 else s.port

unfoldable pub from : EmailSpec → Text
from s = if is_empty s.from then s.username else s.from

unfoldable pub recipients : EmailSpec → List Text
unfolding trim_space
recipients s = keep (λ t. not (is_empty t)) (map trim_space s.to)

abbrev pub is_port : ℤ → Bool
is_port (pos n) = leb n 65535
is_port (negsuc _) = false

unfoldable pub mask_values : List (Text × Text) → List (Text × Text)
unfolding mask
mask_values [] = []
mask_values ((name, value) ∷ headers) = (name, mask value) ∷ mask_values headers

unfoldable pub validate_telegram : TelegramSpec → Option Text
unfolding trim_space
validate_telegram s =
    if is_empty (trim_space s.token)
    then some (codes "config.token")
    else if is_empty (trim_space s.chat_id)
    then some (codes "config.chat_id")
    else none

module _ (parse_url : Text → Option ParsedUrl) where
  -- `maskURL`.
  unfoldable pub mask_url : Text → Text
  unfolding mask
  mask_url raw = elim (parse_url raw) [
    | none ↦ mask raw
    | some u ↦
        if is_empty u.host then mask raw else u.scheme ++ (codes "://" ++ (u.host ++ 47 ∷ bullets))
  ]

  -- `Redacted` of each type.
  unfoldable pub redacted_telegram : TelegramSpec → List (Text × ConfigValue)
  unfolding mask
  redacted_telegram s =
      (codes "token", text (mask s.token)) ∷ (codes "chat_id", text s.chat_id) ∷ []

  unfoldable pub redacted_discord : DiscordSpec → List (Text × ConfigValue)
  unfolding mask_url
  redacted_discord s = (codes "webhook_url", text (mask_url s.webhook_url)) ∷ []

  unfoldable pub redacted_slack : SlackSpec → List (Text × ConfigValue)
  unfolding mask_url
  redacted_slack s = (codes "webhook_url", text (mask_url s.webhook_url)) ∷ []

  unfoldable pub redacted_webhook : WebhookSpec → List (Text × ConfigValue)
  unfolding mask_values method
  redacted_webhook s =
      (codes "url", text s.url)
      ∷ (codes "method", text (method s))
      ∷ (codes "headers", object (mask_values s.headers))
      ∷ []

  unfoldable pub redacted_email : EmailSpec → List (Text × ConfigValue)
  unfolding mask host port from recipients
  redacted_email s =
      (codes "host", text (host s))
      ∷ (codes "port", number (port s))
      ∷ (codes "username", text s.username)
      ∷ (codes "app_password", text (mask s.app_password))
      ∷ (codes "from", text (from s))
      ∷ (codes "to", texts (recipients s))
      ∷ []

  unfoldable pub redacted : ChannelSpec → List (Text × ConfigValue)
  unfolding redacted_telegram redacted_discord redacted_slack redacted_webhook redacted_email
  redacted (telegram_spec s) = redacted_telegram s
  redacted (discord_spec s) = redacted_discord s
  redacted (slack_spec s) = redacted_slack s
  redacted (webhook_spec s) = redacted_webhook s
  redacted (email_spec s) = redacted_email s

  -- `validateWebhookURL`: the field that is refused, or none.
  unfoldable pub validate_webhook_url : Text → Text → Option Text
  unfolding trim_space
  validate_webhook_url field raw =
      if is_empty (trim_space raw) then some field else elim (parse_url raw) [
        | none ↦ some field
        | some u ↦
            if not (u.scheme == codes "http") && not (u.scheme == codes "https")
            then some field
            else if is_empty u.host
            then some field
            else none
      ]

  unfoldable pub validate_discord : DiscordSpec → Option Text
  unfolding validate_webhook_url
  validate_discord s = validate_webhook_url (codes "config.webhook_url") s.webhook_url

  unfoldable pub validate_slack : SlackSpec → Option Text
  unfolding validate_webhook_url
  validate_slack s = validate_webhook_url (codes "config.webhook_url") s.webhook_url

  module _ (is_address : Text → Bool) where
    unfoldable pub validate_webhook : WebhookSpec → Option Text
    unfolding validate_webhook_url trim_space
    validate_webhook s = elim (validate_webhook_url (codes "config.url") s.url) [
      | some field ↦ some field
      | none ↦
          let verb = map upper s.method in
          if not (is_empty s.method) && (not (verb == codes "POST") && not (verb == codes "PUT"))
          then some (codes "config.method")
          else if any (λ h. is_empty (trim_space h.0)) s.headers
          then some (codes "config.headers")
          else none
    ]

    unfoldable pub validate_email : EmailSpec → Option Text
    unfolding trim_space recipients
    validate_email s =
        if is_empty (trim_space s.username)
        then some (codes "config.username")
        else if is_empty (trim_space s.app_password)
        then some (codes "config.app_password")
        else if not (is_port s.port)
        then some (codes "config.port")
        else if not (is_empty s.from) && not (is_address s.from)
        then some (codes "config.from")
        else if nat_eq (length (recipients s)) 0
        then some (codes "config.to")
        else if all is_address (recipients s)
        then none
        else some (codes "config.to")

    -- `Validate` of each type: the field that is refused, or none.
    unfoldable pub validate : ChannelSpec → Option Text
    unfolding validate_telegram validate_discord validate_slack validate_webhook validate_email
    validate (telegram_spec s) = validate_telegram s
    validate (discord_spec s) = validate_discord s
    validate (slack_spec s) = validate_slack s
    validate (webhook_spec s) = validate_webhook s
    validate (email_spec s) = validate_email s
