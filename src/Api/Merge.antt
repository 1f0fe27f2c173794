-- ===== src/Api/Merge.antt =====
-- server/internal/api/channel_handler.go: how an edit's configuration is merged into the stored one,
-- and how a stored channel is shown. The JSON codec is a parameter.
use breckr.Base.{
  Text, codes, Bool, true, false, if◌then◌else◌, Option, none, some, List, [], ◌∷◌, ◌||◌, is_empty,
  put, Text_eq, Result, ok, err,
}
use breckr.Types.Notify.{ChannelType}
use breckr.Executor.{has_prefix}
use breckr.Spec.{ParsedUrl}
use breckr.Store.Database.{StoredChannel}
use breckr.Notifier.ChannelSpec.{ConfigValue, text, ChannelSpec, bullets, redacted, validate}

-- Left untouched in the form.
unfoldable pub is_untouched : ConfigValue → Bool
unfolding has_prefix
is_untouched (text t) = is_empty t || has_prefix t bullets
is_untouched _ = false

-- The loop of `mergeConfig`, over the pairs in the order in which the range gives them.
unfoldable pub merge_fields :
    List (Text × ConfigValue) → List (Text × ConfigValue) → List (Text × ConfigValue)
unfolding is_untouched put
merge_fields stored [] = stored
merge_fields stored ((key, value) ∷ submitted) =
    merge_fields (if is_untouched value then stored else put key value stored) submitted

-- What the handler takes from elsewhere: encoding/json, into a map, from a map and into the spec of a
-- type, where the error names a field; `url.Parse`; and `mail.ParseAddress`.
pub record Codec : Type 0 where
  pub decode : Text → Option (List (Text × ConfigValue))
  pub encode : List (Text × ConfigValue) → Result Text Text
  pub parse_spec : ChannelType → Text → Result Text ChannelSpec
  pub parse_url : Text → Option ParsedUrl
  pub is_address : Text → Bool

module _ (c : Codec) where
  -- `ParseAndValidate`.
  unfoldable pub parse_and_validate : ChannelType → Text → Result Text ChannelSpec
  unfolding validate
  parse_and_validate kind raw = elim (c.parse_spec kind raw) [
    | err field ↦ err field
    | ok spec ↦ elim (validate c.parse_url c.is_address spec) [
      | some field ↦ err field
      | none ↦ ok spec
    ]
  ]

  unfoldable pub stored_fields : StoredChannel → Option (List (Text × ConfigValue))
  stored_fields existing =
      if existing.broken
      then some []
      else elim existing.config [ none ↦ none | some raw ↦ c.decode raw ]

  unfoldable pub merge_decoded :
      StoredChannel → List (Text × ConfigValue) → List (Text × ConfigValue) → Result Text Text
  unfolding merge_fields parse_and_validate
  merge_decoded existing stored submitted = elim (c.encode (merge_fields stored submitted)) [
    | err field ↦ err field
    | ok merged ↦ elim (parse_and_validate existing.type merged) [
      | err field ↦ err field
      | ok _ ↦ ok merged
    ]
  ]

  -- `mergeConfig`.
  unfoldable pub merge_config : StoredChannel → Text → Result Text Text
  unfolding stored_fields merge_decoded
  merge_config existing incoming = elim (c.decode incoming) [
    | none ↦ err (codes "config")
    | some submitted ↦ elim (stored_fields existing) [
      | none ↦ err (codes "config")
      | some stored ↦ merge_decoded existing stored submitted
    ]
  ]

  -- The view's `Broken` and `Config` in `present`; the other fields are the channel's.
  unfoldable pub present : StoredChannel → Bool × List (Text × ConfigValue)
  unfolding redacted
  present channel = elim channel.config [
    | none ↦ (true, [])
    | some raw ↦ if channel.broken then (true, []) else elim (c.parse_spec channel.type raw) [
      | err _ ↦ (true, [])
      | ok spec ↦ (false, redacted c.parse_url spec)
    ]
  ]
