-- ===== src/Api/Tests.antt =====
-- A server that starts with one task, is asked for another, switches the first off and deletes it.
use breckr.Base.{
  if◌then◌else◌, ◌==◌, ok, Text, Text_eq, Option, lookup, codes, true, false, none, some, List, [],
  ◌∷◌, ◌≡◌, refl, inl, inr, In, text_beq, find, sym, subst,
}
use breckr.Types.Task.{Task}
use breckr.Spec.{Parsers}
use breckr.Samples.{two_channels}
use breckr.Samples.Jobs.{jobs_lib}
use breckr.Spec.{ParsedUrl}
use breckr.Notifier.ChannelSpec.{ConfigValue, text, discord_spec, redacted, mask_url, validate}
use breckr.Api.Merge.{merge_fields}
use breckr.Types.Notify.{telegram}
use breckr.Store.Database.{StoredChannel}
use breckr.Api.Merge.{Codec, merge_config, parse_and_validate}
use breckr.Notifier.ChannelSpec.{TelegramSpec, telegram_spec, validate_telegram}
use breckr.Api.Kept.{
  telegram_fields, merge_config-redacted, Edits, lookup-merge_fields, redacted_discord_lost,
}
use breckr.Api.Requests.{CreateTaskRequest, UpdateTaskRequest}
use breckr.Api.Tasks.{CreateAnswers, UpdateAnswers}
use breckr.Api.Rows.{row}
use breckr.Api.History.{
  IsInStep, Request, creates, updates, deletes, boot, handle_all, handle_all-boot,
}

abbrev parsers : Parsers
parsers = record {
  parse_url = λ v. some (record { scheme = codes "https"; host = codes "h"; printed = v });
  is_float = λ s. true;
  is_cron = λ s. true;
}

abbrev create_works : CreateAnswers
create_works = record { get = none; channels = λ id. none; create = none; reread = none }

abbrev update_works : UpdateAnswers
update_works = record {
  get = none;
  channels = λ id. none;
  write = none;
  reread = none;
  enable = none;
  get_again = none;
}

abbrev stock : CreateTaskRequest
stock = record {
  id = codes "stock";
  name = codes "Stock";
  schedule = none;
  cron_expr = codes "0 9 * * *";
  spec = some (record {
    url = codes "https://example.com";
    match_mode = [];
    conditions =
        record {
          selector = codes "h1";
          wait_for_selector = [];
          extract = codes "text";
          attribute_name = [];
          operator = codes "changed";
          value = [];
        }
        ∷ [];
    message = [];
  });
  notify_mode = none;
  enabled = none;
  channel_ids = [];
}

abbrev off : UpdateTaskRequest
off = record {
  enabled = some false;
  name = none;
  schedule = none;
  cron_expr = none;
  spec = none;
  notify_mode = none;
  channel_ids = none;
}

abbrev requests : List Request
requests =
    creates create_works (some stock)
    ∷ updates update_works (codes "stock") (some off)
    ∷ deletes none (some (codes "disk full")) (codes "price")
    ∷ []

its_own_row : (t : Task) → In t two_channels.tasks → row t.id two_channels ≡ some t
unfolding find text_beq
its_own_row t (inl e) = subst (λ x. row x.id two_channels ≡ some x) (sym e) refl
its_own_row t (inr i) = absurd i

handle_all-boot_example :
    IsInStep jobs_lib 30 parsers
      (handle_all jobs_lib 30 parsers requests (boot jobs_lib 30 two_channels))
handle_all-boot_example =
    handle_all-boot jobs_lib 30 parsers two_channels requests its_own_row
      (tt, ((refl, refl, refl), (tt, tt)))

abbrev stored : List (Text × ConfigValue)
stored = (codes "token", text (codes "secret")) ∷ (codes "chat_id", text (codes "7")) ∷ []

abbrev submitted : List (Text × ConfigValue)
submitted = (codes "token", text []) ∷ (codes "chat_id", text (codes "8")) ∷ []

lookup-merge_fields_example :
    Edits
      (some (text []))
      (some (text (codes "secret")))
      (lookup (codes "token") (merge_fields stored submitted))
unfolding lookup text_beq
lookup-merge_fields_example =
    lookup-merge_fields (codes "token") stored submitted (refl, (refl, tt))

abbrev hook_url : Text
hook_url = codes "https://discord.com/api/webhooks/1/s"

abbrev parse_hook : Text → Option ParsedUrl
parse_hook s = some (record { scheme = codes "https"; host = codes "discord.com"; printed = s })

redacted_discord_lost_example :
    merge_fields
      ((codes "webhook_url", text hook_url) ∷ [])
      (redacted parse_hook (discord_spec record { webhook_url = hook_url }))
    ≡ (codes "webhook_url", text (mask_url parse_hook hook_url)) ∷ []
unfolding validate text_beq
redacted_discord_lost_example = redacted_discord_lost parse_hook (λ s. true) hook_url refl

abbrev bot : TelegramSpec
bot = record { token = codes "123:secret"; chat_id = codes "7" }

abbrev bot_channel : StoredChannel
bot_channel = record {
  id = codes "c";
  name = codes "Bot";
  type = telegram;
  enabled = true;
  broken = false;
  config = some (codes "stored");
}

-- Two texts: the stored configuration and the form.
abbrev bot_codec : Codec
bot_codec = record {
  decode = λ s.
      if s == codes "form"
      then some (redacted (λ u. none) (telegram_spec bot))
      else some (telegram_fields bot);
  encode = λ m. ok (codes "stored");
  parse_spec = λ kind s. ok (telegram_spec bot);
  parse_url = λ u. none;
  is_address = λ s. true;
}

merge_config-redacted_example :
    merge_config bot_codec bot_channel (codes "form") ≡ ok (codes "stored")
unfolding text_beq parse_and_validate validate validate_telegram
merge_config-redacted_example =
    merge_config-redacted bot_codec bot_channel bot (codes "form") (codes "stored") (codes "stored")
      (telegram_spec bot) refl refl refl refl refl refl
