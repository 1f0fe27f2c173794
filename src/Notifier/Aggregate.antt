-- ===== src/Notifier/Aggregate.antt =====
-- The one outcome that a fan-out collapses to (`aggregate` of dispatcher.go).
use breckr.Base.{
  true, false, some, List, [], ◌∷◌, ◌≡◌, refl, ◌↔◌, ◌⊎◌, inl, inr, In, arith, Bool-cases, length,
}
use breckr.Types.Notify.{sent, disabled, error, NotificationOutcome}
use breckr.Notifier.{Delivery, aggregate_of, attempt_inputs, any_delivered}

-- Some channel got the message.
abbrev pub SomeDelivered : List Delivery → Type 0
SomeDelivered ds = (d : Delivery) × In d ds × (d.outcome.delivered ≡ true)

any_delivered-SomeDelivered : (ds : List Delivery) → any_delivered ds ≡ true → SomeDelivered ds
unfolding any_delivered
any_delivered-SomeDelivered [] h = cc
any_delivered-SomeDelivered (d ∷ ds) h = elim (Bool-cases d.outcome.delivered) [
  | inl e ↦ (d, inl refl, e)
  | inr e ↦ let (a, i, q) = any_delivered-SomeDelivered ds (ground arith) in (a, inr i, q)
]

SomeDelivered-any_delivered :
    (d : Delivery) (ds : List Delivery)
    → In d ds
    → d.outcome.delivered ≡ true
    → any_delivered ds ≡ true
unfolding any_delivered
SomeDelivered-any_delivered d [] i h = absurd i
SomeDelivered-any_delivered d (x ∷ ds) (inl e) h = ground arith
SomeDelivered-any_delivered d (x ∷ ds) (inr i) h =
    ground (arith, SomeDelivered-any_delivered d ds i h)

-- What an outcome says of itself: delivered is "sent", anything else is "error" or "disabled".
abbrev pub Consistent : NotificationOutcome → Type 0
Consistent o =
    ((o.delivered ≡ true) × (o.reason ≡ some sent))
    ⊎ ((o.delivered ≡ false) × ((o.reason ≡ some error) ⊎ (o.reason ≡ some disabled)))

-- The aggregate of a fan-out counts as delivered exactly when some channel delivered.
pub aggregate_of_delivered_iff :
    (ds : List Delivery) → ((aggregate_of ds).delivered ≡ true) ↔ SomeDelivered ds
unfolding aggregate_of
aggregate_of_delivered_iff ds = (
  λ h. any_delivered-SomeDelivered ds (ground arith),
  λ h. ground (arith, SomeDelivered-any_delivered h.0 ds h.1 h.2),
)

-- It is "sent" if delivered and "error" otherwise, never "disabled".
pub aggregate_of_reason :
    (ds : List Delivery)
    → (((aggregate_of ds).delivered ≡ true) × ((aggregate_of ds).reason ≡ some sent))
      ⊎ (((aggregate_of ds).delivered ≡ false) × ((aggregate_of ds).reason ≡ some error))
unfolding aggregate_of
aggregate_of_reason ds = ground arith

pub length-attempt_inputs : (ds : List Delivery) → length (attempt_inputs ds) ≡ length ds
unfolding attempt_inputs
length-attempt_inputs [] = refl
length-attempt_inputs (d ∷ ds) = ground (arith, length-attempt_inputs ds)
