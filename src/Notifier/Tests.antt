-- ===== src/Notifier/Tests.antt =====
-- The fan-out of one alert to two channels.
use breckr.Base.{
  codes, zero, suc, true, none, some, [], ◌∷◌, map, ok, ◌≡◌, ◌↔◌, refl, inl, inr, arith, text_beq,
  text_le, order_by,
}
use breckr.Types.Notify.{Message, disabled}
use breckr.Store.Database.{StoredChannel}
use breckr.Store.Channels.{list_channels_for_task}
use breckr.Samples.{some_transports, hook, mail, two_channels}
use breckr.Notifier.{deliver, dispatch_channel, dispatch_task, fan_out, aggregate_of}
use breckr.Notifier.ChannelSpec.{telegram_spec, redacted, mask}
use breckr.Notifier.Masked.{long, telegrams, redacted-Indistinct}
use breckr.Notifier.Aggregate.{Consistent, SomeDelivered, aggregate_of_delivered_iff}
use breckr.Notifier.Dispatch.{
  Covers, Attached, fan_out-map, dispatch_task_delivered_iff, dispatch_task_reason,
}

abbrev alert : Message
alert = record { subject = codes "breckr: Price"; body = codes "Price matched." }

both : Covers (1 ∷ 0 ∷ []) 2
both zero h = inr (inl refl)
both (suc zero) h = inl refl
both (suc (suc i)) h = absurd (omega arith)

fan_out-map_example :
    fan_out some_transports (1 ∷ 0 ∷ []) alert (hook ∷ mail ∷ [])
    ≡ map (deliver some_transports alert) (hook ∷ mail ∷ [])
fan_out-map_example = fan_out-map some_transports (1 ∷ 0 ∷ []) alert (hook ∷ mail ∷ []) both

aggregate_of_delivered_iff_example :
    ((aggregate_of (deliver some_transports alert mail ∷ [])).delivered ≡ true)
    ↔ SomeDelivered (deliver some_transports alert mail ∷ [])
aggregate_of_delivered_iff_example =
    aggregate_of_delivered_iff (deliver some_transports alert mail ∷ [])

dispatch_task_delivered_iff_example :
    ((dispatch_task some_transports
        (1 ∷ 0 ∷ [])
        none
        two_channels
        (codes "price")
        alert).aggregate.delivered
      ≡ true)
    ↔ ((c : StoredChannel) × Attached two_channels (codes "price") c
        × ((dispatch_channel some_transports c alert).delivered ≡ true))
unfolding list_channels_for_task order_by text_le text_beq
dispatch_task_delivered_iff_example =
    dispatch_task_delivered_iff some_transports (1 ∷ 0 ∷ []) alert two_channels (codes "price")
      (hook ∷ mail ∷ []) refl both

dispatch_task_reason_example :
    Consistent
      (dispatch_task some_transports []
        (some (codes "locked"))
        two_channels
        (codes "price")
        alert).aggregate
    × (((dispatch_task some_transports []
            (some (codes "locked"))
            two_channels
            (codes "price")
            alert).aggregate.reason
          ≡ some disabled)
        ↔ (list_channels_for_task (some (codes "locked")) (codes "price") two_channels ≡ ok []))
dispatch_task_reason_example =
    dispatch_task_reason some_transports [] alert (some (codes "locked")) two_channels
      (codes "price")

mask_test : mask (codes "12345678") ≡ mask (codes "7")
unfolding mask
mask_test = refl

redacted-Indistinct_example :
    redacted (λ s. none) (telegram_spec record { token = codes "12345:wxyz"; chat_id = codes "7" })
    ≡ redacted (λ s. none) (telegram_spec record { token = codes "987:-wxyz"; chat_id = codes "7" })
redacted-Indistinct_example =
    redacted-Indistinct (λ s. none)
      (telegram_spec record { token = codes "12345:wxyz"; chat_id = codes "7" })
      (telegram_spec record { token = codes "987:-wxyz"; chat_id = codes "7" })
      (telegrams (codes "12345:wxyz") (codes "987:-wxyz") (codes "7")
        (long (codes "12345:") (codes "987:-") (codes "wxyz") refl (omega arith) (omega arith)))
