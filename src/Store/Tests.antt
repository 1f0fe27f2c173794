-- ===== src/Store/Tests.antt =====
-- A few writes.
use breckr.Base.{codes, true, none, some, List, [], ◌∷◌, map, ◌≡◌, ◌≢◌, ◌⊎◌, inl, refl, text_beq}
use breckr.Types.Notify.{webhook, sent}
use breckr.Types.Task.{TaskSpec, match_all}
use breckr.Types.Run.{cron}
use breckr.Samples.{two_channels}
use breckr.Store.Channels.{AttemptInput, attempt_row, record_attempts}
use breckr.Store.Attempts.{record_attempts_lost, record_attempts_all_or_none}
use breckr.Store.References.{IsSound}
use breckr.Store.Integrity.{
  Write, creates_channel, creates_task, starts_run, records_attempts, deletes_channel, deletes_task,
  write_all, empty_database, write_all-IsSound,
}

abbrev some_spec : TaskSpec
some_spec = record {
  url = codes "https://example.com";
  match_mode = match_all;
  conditions = [];
  message = [];
}

abbrev writes : List Write
writes =
    creates_channel none none none (record {
      id = codes "h";
      name = codes "Hook";
      type = webhook;
      config = codes "{}";
      enabled = true;
    })
    ∷ creates_task none none (record {
      id = codes "t";
      name = codes "Task";
      cron_expr = codes "* * * * *";
      spec = some_spec;
      notify_mode = [];
      enabled = true;
      channel_ids = codes "h" ∷ [];
    })
    ∷ starts_run none (codes "1") (codes "t") cron
    ∷ records_attempts none (codes "2") 1 (
        record {
          channel_id = codes "h";
          channel_name = codes "Hook";
          channel_type = webhook;
          status = some sent;
          detail = [];
          message = [];
        }
        ∷ [])
    ∷ deletes_channel none (codes "h")
    ∷ deletes_task none (codes "t")
    ∷ []

write_all-IsSound_example : IsSound (write_all (λ t. true) writes empty_database)
write_all-IsSound_example = write_all-IsSound (λ t. true) writes

-- A channel that is not in the table.
abbrev lost : AttemptInput
lost = record {
  channel_id = codes "x";
  channel_name = codes "Gone";
  channel_type = webhook;
  status = some sent;
  detail = [];
  message = [];
}

record_attempts_lost_example :
    ((record_attempts none (codes "2") 1 (lost ∷ []) two_channels).0 ≡ two_channels)
    × ((record_attempts none (codes "2") 1 (lost ∷ []) two_channels).1 ≢ none)
unfolding text_beq
record_attempts_lost_example =
    record_attempts_lost (codes "2") 1 none (lost ∷ []) two_channels lost (inl refl) (refl, refl)

record_attempts_all_or_none_example :
    (((record_attempts none (codes "2") 1 (lost ∷ []) two_channels).1 ≢ none)
      × ((record_attempts none (codes "2") 1 (lost ∷ []) two_channels).0 ≡ two_channels))
    ⊎ (((record_attempts none (codes "2") 1 (lost ∷ []) two_channels).1 ≡ none)
        × ((record_attempts none (codes "2") 1 (lost ∷ []) two_channels).0
            ≡ record two_channels { attempts = map (attempt_row (codes "2") 1) (lost ∷ []) }))
record_attempts_all_or_none_example =
    record_attempts_all_or_none (codes "2") 1 none (lost ∷ []) two_channels
