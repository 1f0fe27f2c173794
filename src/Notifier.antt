-- ===== src/Notifier.antt =====
-- server/internal/notifier/dispatcher.go. How a transport is built from a stored config, and what
-- its delivery answers, is a parameter: JSON, HTTP and SMTP lie behind it.
pub mod Aggregate
pub mod Dispatch
pub mod ChannelSpec
pub mod Masked
mod Tests
use breckr.Base.{
  Text, codes, ℕ, zero, suc, Bool, true, false, Option, none, some, List, [], ◌∷◌, ◌++◌, map,
  Result, ok, err, join, if◌then◌else◌,
}
use breckr.Types.Notify.{
  NotificationReason, NotificationOutcome, ChannelType, sent, disabled, error, Message, no_outcome,
  telegram,
}
use breckr.Store.Database.{Database, StoredChannel, Error, Driver}
use breckr.Store.Channels.{AttemptInput, list_channels_for_task}

-- One channel's result within a fan-out.
pub record Delivery : Type 0 where
  pub channel_id : Text
  pub channel_name : Text
  pub channel_type : ChannelType
  pub outcome : NotificationOutcome

pub record Fanout : Type 0 where
  pub deliveries : List Delivery
  pub aggregate : NotificationOutcome

-- `fail` of transport.go: the reason that is logged is the one on the outcome.
abbrev pub failure : Text → NotificationOutcome
failure detail = record { delivered = false; reason = some error; detail = detail }

-- What the notifier takes from elsewhere: `%q` of fmt, and `BuildFromConfig` with the transport's
-- `Send`, for a config or the nil one.
pub record Transports : Type 0 where
  pub quote : Text → Text
  pub build_from_config : ChannelType → Option Text → Result Error (Message → NotificationOutcome)

any_delivered : List Delivery → Bool
any_delivered [] = false
any_delivered (d ∷ ds) = if d.outcome.delivered then true else any_delivered ds

-- The failures, named.
problems : List Delivery → List Text
problems [] = []
problems (d ∷ ds) =
    if d.outcome.delivered
    then problems ds
    else (d.channel_name ++ (codes ": " ++ d.outcome.detail)) ∷ problems ds

-- One delivery is enough to count as sent.
unfoldable pub aggregate_of : List Delivery → NotificationOutcome
unfolding any_delivered problems
aggregate_of ds =
    let detail = join (problems ds) (codes "\n") in
    if any_delivered ds
    then record { delivered = true; reason = some sent; detail = detail }
    else record { delivered = false; reason = some error; detail = detail }

-- `Attempts`: the rows that the run history stores.
unfoldable pub attempt_inputs : List Delivery → List AttemptInput
attempt_inputs [] = []
attempt_inputs (d ∷ ds) =
    record {
      channel_id = d.channel_id;
      channel_name = d.channel_name;
      channel_type = d.channel_type;
      status = d.outcome.reason;
      detail = d.outcome.detail;
      message = codes "";
    }
    ∷ attempt_inputs ds

module _ (t : Transports) where
  -- `DispatchChannel`: builds the transport on the spot.
  unfoldable pub dispatch_channel : StoredChannel → Message → NotificationOutcome
  dispatch_channel c m =
      if c.broken
      then failure (
          codes "channel "
          ++ (t.quote c.name
              ++ codes " could not be decrypted -- re-enter its credentials in the dashboard"))
      else elim (t.build_from_config c.type c.config) [
        | err e ↦
            failure (codes "channel " ++ (t.quote c.name ++ (codes " is misconfigured: " ++ e)))
        | ok send ↦ send m
      ]

  -- What the goroutine of one channel writes into its slot.
  abbrev pub deliver : Message → StoredChannel → Delivery
  deliver m c = record {
    channel_id = c.id;
    channel_name = c.name;
    channel_type = c.type;
    outcome = dispatch_channel c m;
  }

-- The zero value of a slot.
abbrev pub no_delivery : Delivery
no_delivery = record {
  channel_id = codes "";
  channel_name = codes "";
  channel_type = telegram;
  outcome = no_outcome;
}

-- The goroutine of index i finishes: slot i is written.
unfoldable pub finish {ℓ κ} : {A : Type ℓ} {B : Type κ} → (A → B) → List A → ℕ → List B → List B
finish f [] i slots = slots
finish f (c ∷ cs) i [] = []
finish f (c ∷ cs) zero (d ∷ slots) = f c ∷ slots
finish f (c ∷ cs) (suc i) (d ∷ slots) = d ∷ finish f cs i slots

-- The goroutines finish in some order of their indices.
unfoldable pub gather {ℓ κ} :
    {A : Type ℓ} {B : Type κ} → (A → B) → List A → List ℕ → List B → List B
unfolding finish
gather f cs [] slots = slots
gather f cs (i ∷ order) slots = gather f cs order (finish f cs i slots)

module _ (t : Transports) where
  -- `deliveries` after `waiting.Wait()`, for the order in which the goroutines finished.
  unfoldable pub fan_out : List ℕ → Message → List StoredChannel → List Delivery
  unfolding gather
  fan_out order m cs = gather (deliver t m) cs order (map (λ _. no_delivery) cs)

  abbrev not_attached : Text
  not_attached =
      codes "No notification channels are attached to this task -- the alert was logged, not sent."

  dispatch_listed : List ℕ → Text → Message → Result Error (List StoredChannel) → Fanout
  unfolding fan_out
  dispatch_listed order task_id m (err e) = record {
    deliveries = [];
    aggregate =
        failure
          (codes "could not load the channels for task " ++ (t.quote task_id ++ (codes ": " ++ e)));
  }
  dispatch_listed order task_id m (ok []) = record {
    deliveries = [];
    aggregate = record { delivered = false; reason = some disabled; detail = not_attached };
  }
  dispatch_listed order task_id m (ok (c ∷ cs)) =
      let deliveries = fan_out order m (c ∷ cs) in
      record { deliveries = deliveries; aggregate = aggregate_of deliveries }

  -- `DispatchTask`: resolves the task's channels at send time.
  unfoldable pub dispatch_task : List ℕ → Driver → Database → Text → Message → Fanout
  unfolding dispatch_listed list_channels_for_task
  dispatch_task order d db task_id m =
      dispatch_listed order task_id m (list_channels_for_task d task_id db)
